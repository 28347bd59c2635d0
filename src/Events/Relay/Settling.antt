-- ===== src/Events/Relay/Settling.antt =====
-- What a batch does to the records that it has fetched.
use hexastack.Base.{
  ℕ, suc, ◌+◌, ◌≤◌, String, Bool, true, false, ◌≡◌, ◌≢◌, refl, sym, ap, ◌∙◌, some, List, [], ◌∷◌,
  inl, inr, All, length, arith,
}
use mathlib.Core.Path.{subst}
use hexastack.Base.Int.{ℤ}
use hexastack.Base.Outcome.{Exn, Outcome, Done, returned, raised, interrupted}
use hexastack.Dict.{lookup, string_key}
use hexastack.Events.Outbox.{
  OutboxRecord, Storage, fetch_pending, record_failed, record_published, is_eligible,
}
use hexastack.Events.Outbox.Pending.{IsValid, fetch_pending-IsSorted}
use hexastack.Events.Relay.{
  CloudEventEnvelope, Relay, envelope_of, relay_record, reported, counted, and_then, relay_all,
  drain_and_publish,
}
use hexastack.Events.Relay.Marks.{
  At, IsSettled, Kept, Known, known, settled, own-failed, own-published, failed-At, published-At,
}

module _ {P B : Type 0} (publish : CloudEventEnvelope P → B → Done × B) (str : Exn → String)
    (now : ℕ) where
  relay_record-At :
      (Q : OutboxRecord P → Type 0) (kept : Kept Q) (j : String) (r : OutboxRecord P) (d : Done × B)
      (s : Storage P)
      → At Q j s
      → At Q j (reported publish str now r d s).1.storage
  relay_record-At Q kept j r (returned tt, b) s h = published-At Q kept j r.id s now h
  relay_record-At Q kept j r (raised e, b) s h = failed-At Q kept j r.id s (str e) h
  relay_record-At Q kept j r (interrupted, b) s h = h

  relay_record-Settled :
      (r : OutboxRecord P) (d : Done × B) (s : Storage P) (sent : Bool)
      → At (Known r.retry_count) r.id s
      → (reported publish str now r d s).0 ≡ returned sent
      → At (IsSettled r.retry_count) r.id (reported publish str now r d s).1.storage
  unfolding Known record_failed record_published
  relay_record-Settled r (returned tt, b) s sent h e =
      own-published (Known r.retry_count) (IsSettled r.retry_count) r.id s now
        (λ x k. inl (refl, k)) h
  relay_record-Settled r (raised x, b) s sent h e =
      own-failed (Known r.retry_count) (IsSettled r.retry_count) r.id s (str x)
        (λ x k. inr (refl, omega arith)) h
  relay_record-Settled r (interrupted, b) s sent h e = absurd (ground arith)

  All-At :
      (Q : OutboxRecord P → OutboxRecord P → Type 0) (rs : List (OutboxRecord P)) (s t : Storage P)
      → ((r : OutboxRecord P) → At (Q r) r.id s → At (Q r) r.id t)
      → All (λ r. At (Q r) r.id s) rs
      → All (λ r. At (Q r) r.id t) rs
  All-At Q [] s t f h = tt
  All-At Q (r ∷ rs) s t f h = (f r h.0, All-At Q rs s t f h.1)

  and_then-keeps :
      (M : Relay P B → Type 0) (next : Bool → Relay P B → Outcome ℕ × Relay P B)
      (x : Outcome Bool × Relay P B)
      → ((sent : Bool) (w : Relay P B) → M w → M (next sent w).1)
      → M x.1
      → M (and_then publish str now next x).1
  and_then-keeps M next (returned sent, w) f h = f sent w h
  and_then-keeps M next (raised e, w) f h = h
  and_then-keeps M next (interrupted, w) f h = h

  and_then-returned :
      (next : Bool → Relay P B → Outcome ℕ × Relay P B) (x : Outcome Bool × Relay P B) (n : ℕ)
      → (and_then publish str now next x).0 ≡ returned n
      → (sent : Bool) × (x.0 ≡ returned sent) × (and_then publish str now next x ≡ next sent x.1)
  and_then-returned next (returned sent, w) n h = (sent, refl, refl)
  and_then-returned next (raised e, w) n h = absurd (ground arith)
  and_then-returned next (interrupted, w) n h = absurd (ground arith)

  relay_All-At :
      (Q : OutboxRecord P → Type 0) (kept : Kept Q) (j : String) (rs : List (OutboxRecord P))
      (n : ℕ) (w : Relay P B)
      → At Q j w.storage
      → At Q j (relay_all publish str now rs n w).1.storage
  unfolding relay_all
  relay_All-At Q kept j [] n w h = h
  relay_All-At Q kept j (r ∷ rs) n w h =
      and_then-keeps (λ z. At Q j z.storage) _ (relay_record publish str now r w)
        (λ sent w'. relay_All-At Q kept j rs (counted publish str now sent n) w')
        (relay_record-At Q kept j r (publish (envelope_of publish str now r) w.bus) w.storage h)

  relay_all-Settled :
      (rs : List (OutboxRecord P)) (n m : ℕ) (w : Relay P B)
      → All (λ r. At (Known r.retry_count) r.id w.storage) rs
      → (relay_all publish str now rs n w).0 ≡ returned m
      → All (λ r. At (IsSettled r.retry_count) r.id (relay_all publish str now rs n w).1.storage) rs
  unfolding relay_all
  relay_all-Settled [] n m w h e = tt
  relay_all-Settled (r ∷ rs) n m w h e =
      let d = publish (envelope_of publish str now r) w.bus in
      let after = relay_record publish str now r w in
      let (sent, q, go) =
        and_then-returned
          (λ sent w'. relay_all publish str now rs (counted publish str now sent n) w') after m e in
      let n' = counted publish str now sent n in
      let here = relay_record-Settled r d w.storage sent h.0 q in
      let rest =
        All-At (λ x. Known x.retry_count) rs w.storage after.1.storage
          (λ x. relay_record-At (Known x.retry_count) (known x.retry_count) x.id r d w.storage)
          h.1 in
      subst (λ z. All (λ x. At (IsSettled x.retry_count) x.id z.1.storage) (r ∷ rs)) (sym go)
        (
          relay_All-At (IsSettled r.retry_count) (settled r.retry_count) r.id rs n' after.1 here,
          relay_all-Settled rs n' m after.1 rest (ap (λ z. z.0) (sym go) ∙ e),
        )

  stored-Known :
      (s : Storage P) (rs : List (OutboxRecord P))
      → All (λ r. (is_eligible r ≡ true) × (lookup r.id s ≡ some r)) rs
      → All (λ r. At (Known r.retry_count) r.id s) rs
  unfolding Known
  stored-Known s [] h = tt
  stored-Known s (r ∷ rs) h = ((r, h.0.1, omega arith), stored-Known s rs h.1)

  reported-returned :
      (r : OutboxRecord P) (d : Done × B) (s : Storage P)
      → d.0 ≢ interrupted
      → (sent : Bool) × ((reported publish str now r d s).0 ≡ returned sent)
  reported-returned r (returned tt, b) s h = (true, refl)
  reported-returned r (raised e, b) s h = (false, refl)
  reported-returned r (interrupted, b) s h = absurd (h refl)

  and_then-enters :
      (next : Bool → Relay P B → Outcome ℕ × Relay P B) (x : Outcome Bool × Relay P B) (sent : Bool)
      → x.0 ≡ returned sent
      → and_then publish str now next x ≡ next sent x.1
  and_then-enters next (o, w) sent h = rw h refl

  counted-le : (sent : Bool) (n : ℕ) → counted publish str now sent n ≤ suc n
  counted-le true n = omega arith
  counted-le false n = omega arith

  module _ (fails_only : (e : CloudEventEnvelope P) (b : B) → (publish e b).0 ≢ interrupted) where
    relay_all-returned :
        (rs : List (OutboxRecord P)) (n : ℕ) (w : Relay P B)
        → (m : ℕ) × ((relay_all publish str now rs n w).0 ≡ returned m) × (m ≤ n + length rs)
    unfolding relay_all
    relay_all-returned [] n w = (n, refl, omega arith)
    relay_all-returned (r ∷ rs) n w =
        let e = envelope_of publish str now r in
        let after = relay_record publish str now r w in
        let (sent, q) = reported-returned r (publish e w.bus) w.storage (fails_only e w.bus) in
        let go =
          and_then-enters
            (λ sent w'. relay_all publish str now rs (counted publish str now sent n) w') after sent
            q in
        let (m, ret, le) = relay_all-returned rs (counted publish str now sent n) after.1 in
        (m, ap (λ z. z.0) go ∙ ret, omega (arith, le, counted-le sent n))

    -- When the bus returns or raises an `Exception`, a batch on a valid storage returns, counts at most
    -- the records that it has fetched, and leaves each of them stored, and either published or failed
    -- with at least one retry more than before.
    pub drain_and_publish-Settled :
        (limit : ℤ) (w : Relay P B)
        → IsValid w.storage
        → let rs = fetch_pending limit w.storage in
          let (o, w') = drain_and_publish publish str now limit w in
          (m : ℕ) × (o ≡ returned m)
          × (m ≤ length rs)
          × All (λ r. At (IsSettled r.retry_count) r.id w'.storage) rs
    unfolding drain_and_publish
    drain_and_publish-Settled limit w v =
        let rs = fetch_pending limit w.storage in
        let (m, ret, le) = relay_all-returned rs 0 w in
        (
          m,
          ret,
          omega (arith, le),
          relay_all-Settled rs 0 m w
              (stored-Known w.storage rs (fetch_pending-IsSorted limit w.storage v).0) ret,
        )
