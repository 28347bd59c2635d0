-- ===== src/Ledger/Concurrency.antt =====
-- Two transfers that have both read before either writes: the checks of `save_all`.
use mathlib.Core.Path.{subst}
use hexastack.Base.{
  ℕ, ◌+◌, String, true, ◌≡◌, ◌≢◌, refl, sym, ap, ◌∙◌, ◌⊎◌, Option, some, List, [], ◌∷◌, arith, inl,
  inr,
}
use hexastack.Base.Outcome.{
  Outcome, returned, raised, interrupted, bind-returned, concurrency_conflict,
}
use hexastack.Dict.{lookup, insert, string_key, lookup-insert_self, lookup-insert_ne, lookup-All}
use hexastack.Ledger.Account.{Account}
use hexastack.Ledger.Repository.{Storage, outdated, preflight, save_all, store_all}
use hexastack.Ledger.Handlers.{
  TransferMoneyCommand, Repositories, Prepared, prepare_transfer, commit, stored, recorded,
}
use hexastack.Ledger.Transfers.{prepare_transfer-Moves}
use hexastack.Ledger.Totals.{Keyed}

-- The transfer debits or credits the account.
abbrev pub Touches : TransferMoneyCommand → String → Type 0
Touches cmd k = (cmd.source_account_id ≡ k) ⊎ (cmd.destination_account_id ≡ k)

preflight-first :
    (b c : Account) (s : Storage)
    → outdated (lookup b.account_id s) b ≡ true
    → preflight (b ∷ c ∷ []) s ≡ raised concurrency_conflict
unfolding preflight
preflight-first b c s h = rw h refl

preflight-second :
    (b c : Account) (s : Storage)
    → outdated (lookup b.account_id s) b ≡ true
    → preflight (c ∷ b ∷ []) s ≡ raised concurrency_conflict
unfolding preflight
preflight-second b c s h = ground arith

-- What a transfer does to one account that it touches.
record Bumps (k : String) (s : Storage) (changed : List Account) : Type 0 where
  before : Account
  after : Account
  at : lookup k s ≡ some before
  under : after.account_id ≡ k
  next : after.version ≡ before.version + 1
  written : lookup k (store_all changed s) ≡ some after
  guarded :
      (t : Storage)
      → outdated (lookup k t) after ≡ true
      → preflight changed t ≡ raised concurrency_conflict

written-first :
    (j : String) (b c : Account) (s : Storage)
    → b.account_id ≡ j
    → j ≢ c.account_id
    → lookup j (store_all (b ∷ c ∷ []) s) ≡ some b
written-first j b c s e n =
    lookup-insert_ne j c.account_id c (insert b.account_id b s) n
    ∙ subst (λ z. lookup j (insert z b s) ≡ some b) (sym e) (lookup-insert_self j b s)

written-second :
    (j : String) (b c : Account) (s : Storage)
    → c.account_id ≡ j
    → lookup j (store_all (b ∷ c ∷ []) s) ≡ some c
written-second j b c s e =
    subst (λ z. lookup j (insert z c (insert b.account_id b s)) ≡ some c) (sym e)
      (lookup-insert_self j c (insert b.account_id b s))

transfer-Bumps :
    (uuid : ℕ → String) (cmd : TransferMoneyCommand) (s : Storage) (p : Prepared) (j : String)
    → Keyed s
    → prepare_transfer uuid cmd s ≡ returned p
    → Touches cmd j
    → Bumps j s p.changed
transfer-Bumps uuid cmd s p j k h (inl at_source) =
    let (source, dest, f, m) = prepare_transfer-Moves uuid cmd s p h in
    let id =
      m.debited.kept.id_kept
      ∙ lookup-All (λ e. e.1.account_id ≡ e.0) cmd.source_account_id source s f.at_source k in
    let id' =
      m.credited.kept.id_kept
      ∙ lookup-All (λ e. e.1.account_id ≡ e.0) cmd.destination_account_id dest s f.at_dest k in
    let bumped : Bumps cmd.source_account_id s (m.source' ∷ m.dest' ∷ []) = record {
      before = source;
      after = m.source';
      at = f.at_source;
      under = id;
      next = m.debited.counted;
      written = written-first _ m.source' m.dest' s id (λ e. f.distinct (e ∙ id'));
      guarded = λ t q.
          preflight-first m.source' m.dest' t
            (subst (λ z. outdated (lookup z t) m.source' ≡ true) (sym id) q);
    } in
    subst (λ z. Bumps z s p.changed) at_source (subst (Bumps _ s) (sym m.both) bumped)
transfer-Bumps uuid cmd s p j k h (inr at_dest) =
    let (source, dest, f, m) = prepare_transfer-Moves uuid cmd s p h in
    let id =
      m.credited.kept.id_kept
      ∙ lookup-All (λ e. e.1.account_id ≡ e.0) cmd.destination_account_id dest s f.at_dest k in
    let bumped : Bumps cmd.destination_account_id s (m.source' ∷ m.dest' ∷ []) = record {
      before = dest;
      after = m.dest';
      at = f.at_dest;
      under = id;
      next = m.credited.counted;
      written = written-second _ m.source' m.dest' s id;
      guarded = λ t q.
          preflight-second m.dest' m.source' t
            (subst (λ z. outdated (lookup z t) m.dest' ≡ true) (sym id) q);
    } in
    subst (λ z. Bumps z s p.changed) at_dest (subst (Bumps _ s) (sym m.both) bumped)

-- A commit that returns has stored the changed accounts.
commit-returned :
    (p : Prepared) (r : Repositories)
    → (commit p r).0 ≡ returned tt
    → (commit p r).1.accounts ≡ store_all p.changed r.accounts
unfolding commit save_all
commit-returned p r h = written (save_all p.changed r.accounts) refl h
  where
    stored_all :
        (s : Storage)
        → save_all p.changed r.accounts ≡ returned s
        → s ≡ store_all p.changed r.accounts
    stored_all s q = ground (arith, (bind-returned (preflight p.changed r.accounts) _ q).2)

    written :
        (o : Outcome Storage)
        → save_all p.changed r.accounts ≡ o
        → (recorded p.tx (stored o r)).0 ≡ returned tt
        → (recorded p.tx (stored o r)).1.accounts ≡ store_all p.changed r.accounts
    written (returned s) q k = stored_all s q
    written (raised e) q k = absurd (ground arith)
    written interrupted q k = absurd (ground arith)

commit-refused :
    (p : Prepared) (r : Repositories)
    → preflight p.changed r.accounts ≡ raised concurrency_conflict
    → commit p r ≡ (raised concurrency_conflict, r)
unfolding commit save_all
commit-refused p r h = rw h refl

stale :
    (a b c : Account) (o : Option Account)
    → o ≡ some b
    → b.version ≡ a.version + 1
    → c.version ≡ a.version + 1
    → outdated o c ≡ true
stale a b c o e h k = rw e (ground arith)

-- When two transfers that share an account have both read it before either writes, and the first one
-- commits, the second one raises `ConcurrencyConflictError` and changes nothing.
pub commit-conflicts :
    (uuid uuid' : ℕ → String) (cmd cmd' : TransferMoneyCommand) (r : Repositories) (p p' : Prepared)
    (j : String)
    → Keyed r.accounts
    → prepare_transfer uuid cmd r.accounts ≡ returned p
    → prepare_transfer uuid' cmd' r.accounts ≡ returned p'
    → Touches cmd j
    → Touches cmd' j
    → (commit p r).0 ≡ returned tt
    → commit p' (commit p r).1 ≡ (raised concurrency_conflict, (commit p r).1)
commit-conflicts uuid uuid' cmd cmd' r p p' j k h h' t t' done =
    let b = transfer-Bumps uuid cmd r.accounts p j k h t in
    let b' = transfer-Bumps uuid' cmd' r.accounts p' j k h' t' in
    let same : b'.before ≡ b.before = ground (arith, b.at, b'.at) in
    let found : lookup j (commit p r).1.accounts ≡ some b.after =
      ap (lookup j) (commit-returned p r done) ∙ b.written in
    commit-refused p' (commit p r).1 (
      b'.guarded _
        (stale b.before b.after b'.after _ found b.next (b'.next ∙ ap (λ z. z.version + 1) same)))
