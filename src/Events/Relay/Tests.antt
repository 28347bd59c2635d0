-- ===== src/Events/Relay/Tests.antt =====
-- A batch in which the bus refuses every second event.
use hexastack.Base.{
  ℕ, zero, suc, ◌≤◌, String, String_discrete, Bool, false, ◌≡◌, ◌≢◌, refl, none, [], ◌∷◌, All,
  length, arith,
}
use hexastack.Base.Int.{pos}
use hexastack.Base.Sort.{sort_by, insert_by}
use hexastack.Base.Outcome.{Done, returned, raised, interrupted, other}
use hexastack.Events.Outbox.{OutboxRecord, pending, fetch_pending, mark_failed, mark_published}
use hexastack.Events.Outbox.Pending.{IsValid}
use hexastack.Events.Relay.{
  CloudEventEnvelope, lock_port, Relay, relay_all, drain_and_publish, publish_pending_batch,
}
use hexastack.Events.Relay.Marks.{At, IsSettled}
use hexastack.Events.Relay.Settling.{drain_and_publish-Settled}

abbrev entry : String → ℕ → OutboxRecord ℕ
entry id at = record {
  id = id;
  event_type = "t";
  source = "s";
  payload = at;
  status = pending;
  retry_count = 0;
  correlation_id = none;
  tenant_id = none;
  created_at = at;
  published_at = none;
  last_error = none;
}

-- The bus counts its calls.
abbrev publish : CloudEventEnvelope ℕ → ℕ → Done × ℕ
publish e zero = (returned tt, 1)
publish e (suc zero) = (raised (other 7), 0)
publish e (suc (suc n)) = (returned tt, n)

abbrev start : Relay ℕ ℕ
start = record { storage = ("a", entry "a" 2) ∷ ("b", entry "b" 1) ∷ []; bus = 0 }

abbrev never : ℕ → Bool × ℕ
never l = (false, l)

abbrev let_go : ℕ → Done × ℕ
let_go l = (returned tt, l)

drain_runs :
    ((drain_and_publish publish (λ x. "x") 9 (pos 5) start).0 ≡ returned 1)
    × (publish_pending_batch publish (λ x. "x") 9 never let_go lock_port (pos 5) 3 start
        ≡ (returned 0, start, 3))
unfolding drain_and_publish relay_all fetch_pending sort_by insert_by mark_failed mark_published
    String_discrete publish_pending_batch
drain_runs = (refl, refl)

publish_fails_only : (e : CloudEventEnvelope ℕ) (b : ℕ) → (publish e b).0 ≢ interrupted
publish_fails_only e zero h = ground arith
publish_fails_only e (suc zero) h = ground arith
publish_fails_only e (suc (suc n)) h = ground arith

start-IsValid : IsValid start.storage
unfolding String_discrete
start-IsValid = record { distinct = (refl, (refl, tt)); keyed = (refl, (refl, tt)) }

drain_and_publish-Settled_example :
    let rs = fetch_pending (pos 5) start.storage in
    let (o, w) = drain_and_publish publish (λ x. "x") 9 (pos 5) start in
    (m : ℕ) × (o ≡ returned m)
    × (m ≤ length rs)
    × All (λ r. At (IsSettled r.retry_count) r.id w.storage) rs
drain_and_publish-Settled_example =
    drain_and_publish-Settled publish (λ x. "x") 9 publish_fails_only (pos 5) start start-IsValid
