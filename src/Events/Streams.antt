-- ===== src/Events/Streams.antt =====
-- packages/hexastack_events/src/hexastack_events/adapters/streams/in_memory.py and domain/streams.py.
-- `P` is the type of payloads. The number that `_hash_partition` takes from the MD5 digest of a key
-- is a parameter, `digest`. Partitions are natural numbers.
pub mod Sequences
pub mod Contents
pub mod Reading
pub mod Offsets
mod Tests
use hexastack.Base.{
  ℕ, suc, ◌+◌, ◌%◌, String, Bool, true, false, Option, none, some, List, [], ◌∷◌, ◌++◌, leb, max,
  if◌then◌else◌, length, take, drop,
}
use hexastack.Base.Int.{ℤ, pos, negsuc, pos_part, ltb_ℤ}
use hexastack.Dict.{Dict, lookup, insert, string_key, nat_key, pair_key}

pub record StreamMessage (P : Type 0) : Type 0 where
  pub stream : String
  pub partition : ℕ
  pub sequence : ℕ
  pub payload : P
  pub id : String
  pub timestamp : ℕ
  pub partition_key : Option String
  pub headers : Dict String String

pub hash_partition : (String → ℕ) → String → ℕ → ℕ
hash_partition digest key num_partitions =
    if leb num_partitions 1 then 0 else digest key % num_partitions

-- `InMemoryStreamAdapter`
pub record Adapter (P : Type 0) : Type 0 where
  pub default_partitions : ℕ
  pub streams : Dict String (Dict ℕ (List (StreamMessage P)))
  pub offsets : Dict String (Dict (String × ℕ) ℤ)

abbrev pub or_empty {ℓ} : {A : Type ℓ} → Option (List A) → List A
or_empty none = []
or_empty (some xs) = xs

abbrev pub or_minus_one : Option ℤ → ℤ
or_minus_one none = negsuc 0
or_minus_one (some n) = n

abbrev partition_of : (String → ℕ) → ℕ → Option String → ℕ
partition_of digest n none = 0
partition_of digest n (some key) = hash_partition digest key n

module _ {P : Type 0} where
  pub init : ℤ → Adapter P
  init default_partitions = record {
    default_partitions = max 1 (pos_part default_partitions);
    streams = [];
    offsets = [];
  }

  -- `self._streams[stream][partition]`, which is empty where nothing was published.
  abbrev pub queue : String → ℕ → Adapter P → List (StreamMessage P)
  queue stream partition a = or_empty (lookup partition (or_empty (lookup stream a.streams)))

  abbrev set_queue : String → ℕ → List (StreamMessage P) → Adapter P → Adapter P
  set_queue stream partition ms a = record a {
    streams = insert stream (insert partition ms (or_empty (lookup stream a.streams))) a.streams;
  }

  -- `id` and `now` are the defaults of the message's fields, a fresh UUID and the time.
  pub publish :
      (String → ℕ)
      → String
      → ℕ
      → String
      → P
      → Option String
      → Dict String String
      → Adapter P
      → StreamMessage P × Adapter P
  unfolding hash_partition
  publish digest id now stream payload partition_key headers a =
      let partition = partition_of digest a.default_partitions partition_key in
      let ms = queue stream partition a in
      let msg : StreamMessage P = record {
        stream = stream;
        partition = partition;
        sequence = length ms;
        payload = payload;
        id = id;
        timestamp = now;
        partition_key = partition_key;
        headers = headers;
      } in
      (msg, set_queue stream partition (ms ++ msg ∷ []) a)

  -- The slice `[start:end]`. Looking at a partition creates its empty list, which reads the same.
  pub read_partition : String → ℕ → ℤ → ℤ → Adapter P → List (StreamMessage P)
  read_partition stream partition from_sequence batch_size a =
      take (max 1 (pos_part batch_size)) (drop (pos_part from_sequence) (queue stream partition a))

  abbrev pub offset : String → String → ℕ → Adapter P → ℤ
  offset group stream partition a =
      or_minus_one (lookup (stream, partition) (or_empty (lookup group a.offsets)))

  pub ack : String → String → ℕ → ℤ → Adapter P → Adapter P
  ack group stream partition sequence a =
      if ltb_ℤ (offset group stream partition a) sequence
      then record a {
        offsets =
            insert group (insert (stream, partition) sequence (or_empty (lookup group a.offsets)))
              a.offsets;
      }
      else a

  -- The sequence that `get_offset` reports.
  pub get_offset : String → String → ℕ → Adapter P → ℤ
  get_offset group stream partition a = offset group stream partition a
