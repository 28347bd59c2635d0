-- ===== src/Events/Outbox.antt =====
-- packages/hexastack_events/src/hexastack_events/adapters/outbox/in_memory.py and `OutboxRecord` of
-- domain/models.py. `P` is the type of payloads; times are passed in.
pub mod Pending
pub mod Oldest
pub mod Delivery
mod Tests
use hexastack.Base.{
  ℕ, suc, ◌+◌, ◌-◌, String, Bool, true, false, Option, none, some, List, [], ◌∷◌, ltb,
  if◌then◌else◌, keep, length, take, ◌&&◌,
}
use hexastack.Base.Int.{ℤ, pos, negsuc}
use hexastack.Base.Sort.{sort_by}
use hexastack.Dict.{Dict, lookup, insert, values, string_key}

pub data OutboxStatus : Type 0 where
  pending published failed : OutboxStatus

pub record OutboxRecord (P : Type 0) : Type 0 where
  pub id : String
  pub event_type : String
  pub source : String
  pub payload : P
  pub status : OutboxStatus
  pub retry_count : ℕ
  pub correlation_id : Option String
  pub tenant_id : Option String
  pub created_at : ℕ
  pub published_at : Option ℕ
  pub last_error : Option String

-- `_records` of `InMemoryOutboxStorage`. A record that is changed in place is written back.
abbrev pub Storage : Type 0 → Type 0
Storage P = Dict String (OutboxRecord P)

abbrev is_unpublished : OutboxStatus → Bool
is_unpublished pending = true
is_unpublished failed = true
is_unpublished published = false

module _ {P : Type 0} where
  -- The methods of the record.
  unfoldable pub record_failed : String → OutboxRecord P → OutboxRecord P
  record_failed error_message r = record r {
    retry_count = r.retry_count + 1;
    status = failed;
    last_error = some error_message;
  }

  unfoldable pub record_published : ℕ → OutboxRecord P → OutboxRecord P
  record_published now r = record r {
    status = published;
    published_at = some now;
    last_error = none;
  }

  abbrev pub is_eligible : OutboxRecord P → Bool
  is_eligible r = is_unpublished r.status && ltb r.retry_count 5

  abbrev pub older : OutboxRecord P → OutboxRecord P → Bool
  older a b = ltb a.created_at b.created_at

  abbrev pub eligible : Storage P → List (OutboxRecord P)
  eligible s = keep is_eligible (values s)

  -- `xs[:limit]`; a negative limit counts from the end.
  abbrev slice_to : ℤ → List (OutboxRecord P) → List (OutboxRecord P)
  slice_to (pos n) rs = take n rs
  slice_to (negsuc n) rs = take (length rs - suc n) rs

  unfoldable pub fetch_pending : ℤ → Storage P → List (OutboxRecord P)
  fetch_pending limit s = slice_to limit (sort_by older (eligible s))

  abbrev update_known :
      Option (OutboxRecord P) → (OutboxRecord P → OutboxRecord P) → String → Storage P → Storage P
  update_known none f id s = s
  update_known (some r) f id s = insert id (f r) s

  unfoldable pub mark_failed : String → String → Storage P → Storage P
  unfolding record_failed
  mark_failed id error_message s = update_known (lookup id s) (record_failed error_message) id s

  unfoldable pub mark_published : String → ℕ → Storage P → Storage P
  unfolding record_published
  mark_published id now s = update_known (lookup id s) (record_published now) id s

  pub save : OutboxRecord P → Storage P → Storage P
  save r s = insert r.id r s

  pub save_all : List (OutboxRecord P) → Storage P → Storage P
  unfolding save
  save_all [] s = s
  save_all (r ∷ rs) s = save_all rs (save r s)
