-- ===== src/Events/Streams/Tests.antt =====
-- Runs of the adapter, and the theorems at concrete adapters.
use hexastack.Base.{
  ℕ, ◌≤◌, ◌≡◌, refl, String, none, some, List, [], ◌∷◌, map, keep, length, arith, String_discrete,
  ℕ_discrete,
}
use hexastack.Base.Int.{pos}
use hexastack.Events.Streams.{Adapter, StreamMessage, queue, init, publish}
use hexastack.Events.Streams.Sequences.{Publication, publish_all}
use hexastack.Events.Streams.Contents.{numbered, goes_to, publish_all-queue}
use hexastack.Events.Streams.Reading.{read_pages, read_pages_all}

-- A stand-in for the digest.
abbrev digest : String → ℕ
digest String.[] = 4
digest (String.◌∷◌ c s) = 7

abbrev sent : Publication ℕ
sent = record {
  id = "m";
  now = 1;
  stream = "orders";
  payload = 5;
  partition_key = some "k";
  headers = [];
}

abbrev sends : List (Publication ℕ)
sends =
    sent
    ∷ record sent { id = "n"; partition_key = none }
    ∷ record sent { id = "o"; payload = 6 }
    ∷ []

abbrev adapter : Adapter ℕ
adapter = record {
  default_partitions = 4;
  streams = ("orders", (3, message 0 ∷ message 1 ∷ message 2 ∷ []) ∷ []) ∷ [];
  offsets = [];
}
  where
    message : ℕ → StreamMessage ℕ
    message n = record {
      stream = "orders";
      partition = 3;
      sequence = n;
      payload = 5;
      id = "m";
      timestamp = 1;
      partition_key = some "k";
      headers = [];
    }

publish_all-queue_example :
    queue "orders" 3 (publish_all digest sends (init (pos 4)))
    ≡ numbered "orders" 3 0 (keep (goes_to digest (pos 4) "orders" 3) sends)
publish_all-queue_example = publish_all-queue digest (pos 4) sends "orders" 3

two_payloads :
    map (λ m. m.payload) (queue "orders" 3 (publish_all digest sends (init (pos 4)))) ≡ 5 ∷ 6 ∷ []
unfolding publish_all init publish String_discrete ℕ_discrete
two_payloads = refl

read_pages_all_example : read_pages "orders" 3 2 0 2 adapter ≡ queue "orders" 3 adapter
read_pages_all_example = read_pages_all "orders" 3 2 2 adapter (omega arith) three
  where
    three : length (queue "orders" 3 adapter) ≤ 4
    three = unfold String_discrete ℕ_discrete in omega arith

abbrev published : Adapter ℕ
published = publish_all digest sends (init (pos 4))
