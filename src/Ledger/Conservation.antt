-- ===== src/Ledger/Conservation.antt =====
-- Transfers and recorded transactions neither make nor lose money.
use mathlib.Core.Path.{subst}
use mathlib.Core.Logic.{if_neg}
use hexastack.Base.{
  ℕ, String, ◌≡◌, refl, sym, ap, ◌∙◌, none, some, [], ◌∷◌, Option-cases, ◌+◌, arith, inl, inr,
}
use hexastack.Base.Int.{ℤ, pos, ◌+ℤ◌, int_laws}
use hexastack.Base.Outcome.{Outcome, returned, raised, interrupted, bind-returned}
use hexastack.Dict.{lookup, insert, values, Distinct, string_key, lookup-All}
use hexastack.Ledger.Account.{Account, frozen, TransactionEntry, Posts}
use hexastack.Ledger.Repository.{Storage, preflight, save, save_all, store_all}
use hexastack.Ledger.Handlers.{
  TransferMoneyCommand, RecordTransactionCommand, Repositories, Prepared, prepare_transfer,
  freeze_account, prepared_then, commit, transfer, stored, recorded,
}
use hexastack.Ledger.Recording.{prepare_recording, record_transaction}
use hexastack.Ledger.Postings.{
  cancel, held-Posts, no_change, apply_entries-total, load_accounts-LoadedFrom, LoadedFrom-Keyed,
}
use hexastack.Ledger.Transfers.{prepare_transfer-Moves, prepare_recording-Records}
use hexastack.Ledger.Totals.{
  held, total, total-insert, SameHolder, Aligned, Keyed, LoadedFrom, total-store_all, Aligned-refl,
}

-- What `prepare_` has computed from `s`: changed copies of accounts of `s` with the same sums.
pub record Balanced (s : Storage) (p : Prepared) : Type 0 where
  pub loaded : Storage
  pub updated : Storage
  pub listed : p.changed ≡ values updated
  pub aligned : Aligned loaded updated
  pub distinct : Distinct loaded
  pub keyed : Keyed loaded
  pub from : LoadedFrom s loaded
  pub even : (curr : String) → total curr updated ≡ total curr loaded

-- `commit` leaves the accounts as they were, or stores all the changed ones.
pub commit-accounts {ℓ} :
    (P : Storage → Type ℓ) (p : Prepared) (r : Repositories)
    → P r.accounts
    → P (store_all p.changed r.accounts)
    → P (commit p r).1.accounts
unfolding commit save_all
commit-accounts P p r same h = written (save_all p.changed r.accounts) refl
  where
    stored_all :
        (s : Storage)
        → save_all p.changed r.accounts ≡ returned s
        → store_all p.changed r.accounts ≡ s
    stored_all s q = ground (arith, (bind-returned (preflight p.changed r.accounts) _ q).2)

    written :
        (o : Outcome Storage)
        → save_all p.changed r.accounts ≡ o
        → P (recorded p.tx (stored o r)).1.accounts
    written (returned s) q = subst P (stored_all s q) h
    written (raised e) q = same
    written interrupted q = same

Posts-SameHolder : {e : TransactionEntry} {a b : Account} → Posts e a b → SameHolder a b
Posts-SameHolder h = record { same_id = h.kept.id_kept; same_currency = h.kept.currency_kept }

commit-conserves :
    (curr : String) (p : Prepared) (r : Repositories)
    → Balanced r.accounts p
    → total curr (commit p r).1.accounts ≡ total curr r.accounts
commit-conserves curr p r b =
    commit-accounts (λ s. total curr s ≡ total curr r.accounts) p r refl
      (rw b.listed (
        cancel _ _ _ (
          total-store_all curr b.loaded b.updated r.accounts b.aligned b.distinct b.keyed b.from
          ∙ ap (λ z. total curr r.accounts +ℤ z) (b.even curr))))

pub prepare_recording-Balanced :
    (uuid : ℕ → String) (cmd : RecordTransactionCommand) (s : Storage) (p : Prepared)
    → Keyed s
    → prepare_recording uuid cmd s ≡ returned p
    → Balanced s p
prepare_recording-Balanced uuid cmd s p k h =
    let r = prepare_recording-Records uuid cmd s p h in
    let (distinct, from) = load_accounts-LoadedFrom s r.entries [] r.loaded r.loading tt tt in
    let (aligned, moved) =
      apply_entries-total r.loaded r.entries r.loaded r.applied r.applying
        (Aligned-refl r.loaded) in
    record {
      loaded = r.loaded;
      updated = r.applied;
      listed = r.all_changed;
      aligned = aligned;
      distinct = distinct;
      keyed = LoadedFrom-Keyed s r.loaded k from;
      from = from;
      even = λ curr.
          moved curr ∙ ap (λ z. total curr r.loaded +ℤ z) (r.balanced curr) ∙ sym (no_change _);
    }

pair_even :
    (a b x y : ℤ) → x +ℤ (y +ℤ pos 0) ≡ pos 0 → a +ℤ x +ℤ (b +ℤ y +ℤ pos 0) ≡ a +ℤ (b +ℤ pos 0)
pair_even a b x y h = grind int_laws

pub prepare_transfer-Balanced :
    (uuid : ℕ → String) (cmd : TransferMoneyCommand) (s : Storage) (p : Prepared)
    → Keyed s
    → prepare_transfer uuid cmd s ≡ returned p
    → Balanced s p
prepare_transfer-Balanced uuid cmd s p k h =
    let (source, dest, f, m) = prepare_transfer-Moves uuid cmd s p h in
    let loaded : Storage =
      (cmd.source_account_id, source) ∷ (cmd.destination_account_id, dest) ∷ [] in
    let from : LoadedFrom s loaded = (f.at_source, (f.at_dest, tt)) in
    record {
      loaded = loaded;
      updated = (cmd.source_account_id, m.source') ∷ (cmd.destination_account_id, m.dest') ∷ [];
      listed = m.both;
      aligned = (refl, Posts-SameHolder m.debited, (refl, Posts-SameHolder m.credited, tt));
      distinct = (
        if_neg (string_key.dec cmd.source_account_id cmd.destination_account_id) f.distinct
            (some dest) none,
        (refl, tt),
      );
      keyed = LoadedFrom-Keyed s loaded k from;
      from = from;
      even = λ curr.
          rw (held-Posts curr _ _ _ m.debited, held-Posts curr _ _ _ m.credited)
            (pair_even _ _ _ _ (m.balanced curr));
    }

prepared-conserves :
    (curr : String) (o : Outcome Prepared) (r : Repositories)
    → ((p : Prepared) → o ≡ returned p → Balanced r.accounts p)
    → total curr (prepared_then o r).1.accounts ≡ total curr r.accounts
prepared-conserves curr (returned p) r h = commit-conserves curr p r (h p refl)
prepared-conserves curr (raised e) r h = refl
prepared-conserves curr interrupted r h = refl

pub transfer-conserves :
    (curr : String) (uuid : ℕ → String) (cmd : TransferMoneyCommand) (r : Repositories)
    → Keyed r.accounts
    → total curr (transfer uuid cmd r).1.accounts ≡ total curr r.accounts
unfolding transfer
transfer-conserves curr uuid cmd r k =
    prepared-conserves curr (prepare_transfer uuid cmd r.accounts) r
      (λ p. prepare_transfer-Balanced uuid cmd r.accounts p k)

pub record_transaction-conserves :
    (curr : String) (uuid : ℕ → String) (cmd : RecordTransactionCommand) (r : Repositories)
    → Keyed r.accounts
    → total curr (record_transaction uuid cmd r).1.accounts ≡ total curr r.accounts
unfolding record_transaction
record_transaction-conserves curr uuid cmd r k =
    prepared-conserves curr (prepare_recording uuid cmd r.accounts) r
      (λ p. prepare_recording-Balanced uuid cmd r.accounts p k)

frozen-total :
    (curr id : String) (a : Account) (s : Storage)
    → Keyed s
    → lookup id s ≡ some a
    → total curr (insert a.account_id (record a { status = frozen; version = a.version + 1 }) s)
      ≡ total curr s
frozen-total curr id a s k f =
    subst
      (λ z.
        total curr (insert z (record a { status = frozen; version = a.version + 1 }) s)
        ≡ total curr s)
      (sym (lookup-All (λ z. z.1.account_id ≡ z.0) id a s f k))
      (cancel _ _ (held curr a) (total-insert curr id a _ s f))

pub freeze_account-conserves :
    (curr id : String) (r : Repositories)
    → Keyed r.accounts
    → total curr (freeze_account id r).1.accounts ≡ total curr r.accounts
unfolding freeze_account save
freeze_account-conserves curr id r k = elim (Option-cases (lookup id r.accounts)) [
  | inl e ↦ rw (e, freeze_account, save) refl
  | inr (a, e) ↦ ground (arith, frozen-total curr id a r.accounts k e)
]
