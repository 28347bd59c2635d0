-- ===== src/Ledger/Freezing.antt =====
-- What freezing an account stops.
use mathlib.Core.Path.{subst}
use hexastack.Base.{ℕ, ◌+◌, String, false, ◌≡◌, ◌≢◌, refl, sym, ap, ◌∙◌, some, arith, inl, inr, leb}
use hexastack.Base.Outcome.{Outcome, returned, raised, interrupted}
use hexastack.Dict.{lookup, insert, string_key, lookup-insert_self, lookup-All}
use hexastack.Ledger.Account.{Account, active, frozen}
use hexastack.Ledger.Repository.{Storage, save}
use hexastack.Ledger.Handlers.{
  TransferMoneyCommand, Repositories, Prepared, prepare_transfer, prepared_then, transfer,
  freeze_account,
}
use hexastack.Ledger.Transfers.{prepare_transfer-Moves}
use hexastack.Ledger.Concurrency.{Touches}
use hexastack.Ledger.Totals.{Keyed}

abbrev pub frozen_copy : Account → Account
frozen_copy a = record a { status = frozen; version = a.version + 1 }

freeze_account-lookup :
    (id : String) (a : Account) (r : Repositories)
    → Keyed r.accounts
    → lookup id r.accounts ≡ some a
    → lookup id (freeze_account id r).1.accounts ≡ some (frozen_copy a)
unfolding freeze_account save
freeze_account-lookup id a r k e =
    let own : a.account_id ≡ id = lookup-All (λ z. z.1.account_id ≡ z.0) id a r.accounts e k in
    let known : lookup a.account_id r.accounts ≡ some a = ap (λ z. lookup z r.accounts) own ∙ e in
    let new : lookup id (insert a.account_id (frozen_copy a) r.accounts) ≡ some (frozen_copy a) =
      subst (λ z. lookup id (insert z (frozen_copy a) r.accounts) ≡ some (frozen_copy a)) (sym own)
        (lookup-insert_self id (frozen_copy a) r.accounts) in
    let newer : leb (a.version + 1) a.version ≡ false = ground arith in rw (e, known, newer) new

not_active :
    (id : String) (a b : Account) (s : Storage)
    → lookup id s ≡ some (frozen_copy a)
    → lookup id s ≡ some b
    → b.status ≢ active
not_active id a b s h k e = ground arith

prepare-refused :
    (uuid : ℕ → String) (cmd : TransferMoneyCommand) (id : String) (a : Account) (s : Storage)
    (p : Prepared)
    → lookup id s ≡ some (frozen_copy a)
    → Touches cmd id
    → prepare_transfer uuid cmd s ≢ returned p
prepare-refused uuid cmd id a s p f (inl t) h =
    let (source, dest, found, m) = prepare_transfer-Moves uuid cmd s p h in
    not_active id a source s f (subst (λ z. lookup z s ≡ some source) t found.at_source)
      m.debited.was_active
prepare-refused uuid cmd id a s p f (inr t) h =
    let (source, dest, found, m) = prepare_transfer-Moves uuid cmd s p h in
    not_active id a dest s f (subst (λ z. lookup z s ≡ some dest) t found.at_dest)
      m.credited.was_active

unprepared :
    (o : Outcome Prepared) (r : Repositories)
    → ((p : Prepared) → o ≢ returned p)
    → ((prepared_then o r).0 ≢ returned tt) × ((prepared_then o r).1 ≡ r)
unprepared (returned p) r h = absurd (h p refl)
unprepared (raised e) r h = (λ q. ground arith, refl)
unprepared interrupted r h = (λ q. ground arith, refl)

-- Once an account is frozen, a transfer from it or to it does not return, and changes nothing.
pub freeze_account-blocks :
    (uuid : ℕ → String) (cmd : TransferMoneyCommand) (id : String) (a : Account) (r : Repositories)
    → Keyed r.accounts
    → lookup id r.accounts ≡ some a
    → Touches cmd id
    → let frozen_r = (freeze_account id r).1 in
      ((transfer uuid cmd frozen_r).0 ≢ returned tt) × ((transfer uuid cmd frozen_r).1 ≡ frozen_r)
unfolding transfer
freeze_account-blocks uuid cmd id a r k e t =
    let s = (freeze_account id r).1.accounts in
    unprepared (prepare_transfer uuid cmd s) (freeze_account id r).1
      (λ p. prepare-refused uuid cmd id a s p (freeze_account-lookup id a r k e) t)
