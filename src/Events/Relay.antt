-- ===== src/Events/Relay.antt =====
-- packages/hexastack_events/src/hexastack_events/adapters/outbox/asyncio.py on the outbox in memory. The
-- bus and the lock are parameters. The clock does not move within a batch, and a moment stands for its
-- text in ISO format; `payload` is the field `data` of the envelope.
pub mod Marks
pub mod Settling
mod Tests
use hexastack.Base.{ℕ, suc, String, Bool, true, false, ◌≡◌, Option, none, some, List, [], ◌∷◌}
use hexastack.Base.Int.{ℤ}
use hexastack.Base.Outcome.{Exn, Outcome, Done, returned, raised, interrupted, type_error}
use hexastack.Events.Outbox.{OutboxRecord, Storage, fetch_pending, mark_failed, mark_published}

pub record CloudEventEnvelope (P : Type 0) : Type 0 where
  pub specversion : String
  pub id : String
  pub source : String
  pub type : String
  pub time : ℕ
  pub datacontenttype : String
  pub correlationid : Option String
  pub tenantid : Option String
  pub payload : P

-- The lock of the relay, whose state is of any type: none, a `LockPort` or an `AsyncLockPort`.
pub data LockKind : Type 0 where
  no_lock lock_port async_lock_port : LockKind

-- The storage and the bus.
pub record Relay (P B : Type 0) : Type 0 where
  pub storage : Storage P
  pub bus : B

-- `publish bus e` is the bus's `publish_envelope` or `publish`, and `str` Python's text of an exception.
module _ {P B : Type 0} (publish : CloudEventEnvelope P → B → Done × B) (str : Exn → String)
    (now : ℕ) where
  abbrev pub envelope_of : OutboxRecord P → CloudEventEnvelope P
  envelope_of r = record {
    specversion = "1.0";
    id = r.id;
    source = r.source;
    type = r.event_type;
    time = r.created_at;
    datacontenttype = "application/json";
    correlationid = r.correlation_id;
    tenantid = r.tenant_id;
    payload = r.payload;
  }

  -- What follows the publishing of one record; `true` counts it. An interruption is not caught.
  abbrev pub reported : OutboxRecord P → Done × B → Storage P → Outcome Bool × Relay P B
  reported r (returned tt, bus) s =
      (returned true, record { storage = mark_published r.id now s; bus = bus })
  reported r (raised e, bus) s =
      (returned false, record { storage = mark_failed r.id (str e) s; bus = bus })
  reported r (interrupted, bus) s = (interrupted, record { storage = s; bus = bus })

  abbrev pub relay_record : OutboxRecord P → Relay P B → Outcome Bool × Relay P B
  relay_record r w = reported r (publish (envelope_of r) w.bus) w.storage

  abbrev pub counted : Bool → ℕ → ℕ
  counted true n = suc n
  counted false n = n

  -- The loop over the records, from the count so far.
  -- The loop goes on unless an interruption has left it.
  abbrev pub and_then :
      (Bool → Relay P B → Outcome ℕ × Relay P B) → Outcome Bool × Relay P B → Outcome ℕ × Relay P B
  and_then next (returned sent, w) = next sent w
  and_then next (raised e, w) = (raised e, w)
  and_then next (interrupted, w) = (interrupted, w)

  unfoldable pub relay_all : List (OutboxRecord P) → ℕ → Relay P B → Outcome ℕ × Relay P B
  relay_all [] n w = (returned n, w)
  relay_all (r ∷ rs) n w = and_then (λ sent w'. relay_all rs (counted sent n) w') (relay_record r w)

  unfoldable pub drain_and_publish : ℤ → Relay P B → Outcome ℕ × Relay P B
  unfolding relay_all
  drain_and_publish limit w = relay_all (fetch_pending limit w.storage) 0 w

  module _ {L : Type 0} (acquire : L → Bool × L) (release : L → Done × L) where
    -- `try: return ... finally: self._lock.release()`
    abbrev released : Done × L → Outcome ℕ × Relay P B → Outcome ℕ × Relay P B × L
    released (returned tt, l) (o, w) = (o, w, l)
    released (raised e, l) (o, w) = (raised e, w, l)
    released (interrupted, l) (o, w) = (interrupted, w, l)

    abbrev once_acquired : ℤ → Bool × L → Relay P B → Outcome ℕ × Relay P B × L
    once_acquired limit (false, l) w = (returned 0, w, l)
    once_acquired limit (true, l) w = released (release l) (drain_and_publish limit w)

    abbrev pub with_state : L → Outcome ℕ × Relay P B → Outcome ℕ × Relay P B × L
    with_state l (o, w) = (o, w, l)

    unfoldable pub publish_pending_batch : LockKind → ℤ → L → Relay P B → Outcome ℕ × Relay P B × L
    publish_pending_batch async_lock_port limit l w = (raised type_error, w, l)
    publish_pending_batch lock_port limit l w = once_acquired limit (acquire l) w
    publish_pending_batch no_lock limit l w = with_state l (drain_and_publish limit w)
