-- ===== src/Ledger/Invariant.antt =====
-- Any sequence of transfers, recorded transactions and freezes.
use mathlib.Core.Path.{subst}
use hexastack.Base.{
  ℕ, suc, String, ◌≡◌, refl, sym, ◌∙◌, List, [], ◌∷◌, All, Option-cases, ◌+◌, arith, inl, inr,
}
use hexastack.Base.Int.{pos, ◌≤ℤ◌}
use hexastack.Base.Outcome.{Outcome, returned, raised, interrupted, required, bind-elim, other}
use hexastack.Dict.{lookup, insert, values, string_key, insert-All, All-insert, All-lookup}
use hexastack.Ledger.Account.{
  Account, frozen, TransactionEntry, new_entry, apply_entry, Solvent, apply_entry-Solvent,
  Posts-Solvent,
}
use hexastack.Ledger.Repository.{Storage, save, store_all}
use hexastack.Ledger.Handlers.{
  PostingLineDto, TransferMoneyCommand, RecordTransactionCommand, Repositories, Prepared,
  prepare_transfer, freeze_account, prepared_then, transfer,
}
use hexastack.Ledger.Recording.{
  parse_direction, posting_entries, apply_entries, prepare_recording, record_transaction,
}
use hexastack.Ledger.Postings.{required-found, load_accounts-LoadedFrom}
use hexastack.Ledger.Transfers.{
  new_entry-positive, prepare_transfer-Moves, prepare_recording-Records,
}
use hexastack.Ledger.Conservation.{
  commit-accounts, transfer-conserves, record_transaction-conserves, freeze_account-conserves,
}
use hexastack.Ledger.Totals.{total, Keyed, LoadedFrom}

-- One call of a handler that changes accounts that exist.
pub data Call : Type 0 where
  transferring : (ℕ → String) → TransferMoneyCommand → Call
  recording : (ℕ → String) → RecordTransactionCommand → Call
  freezing : String → Call

unfoldable pub step : Call → Repositories → Repositories
step (transferring uuid cmd) r = (transfer uuid cmd r).1
step (recording uuid cmd) r = (record_transaction uuid cmd r).1
step (freezing id) r = (freeze_account id r).1

unfoldable pub run : List Call → Repositories → Repositories
unfolding step
run [] r = r
run (c ∷ cs) r = run cs (step c r)

-- A valid storage: accounts under their own identifiers, and none below its credit limit.
pub record IsValid (s : Storage) : Type 0 where
  pub keyed : Keyed s
  pub solvent : All Solvent (values s)

store_all-IsValid :
    (changed : List Account) (s : Storage)
    → All Solvent changed
    → IsValid s
    → IsValid (store_all changed s)
store_all-IsValid [] s h v = v
store_all-IsValid (a ∷ rest) s h v = store_all-IsValid rest (insert a.account_id a s) h.1 (record {
  keyed = insert-All (λ e. e.1.account_id ≡ e.0) a.account_id a s refl v.keyed;
  solvent = All-insert Solvent a.account_id a s h.0 v.solvent;
})

apply_entries-Solvent :
    (es : List TransactionEntry) (accounts applied : Storage)
    → All (λ e. pos 0 ≤ℤ e.amount) es
    → All Solvent (values accounts)
    → apply_entries es accounts ≡ returned applied
    → All Solvent (values applied)
unfolding apply_entries
apply_entries-Solvent [] accounts applied g v h =
    let e : accounts ≡ applied = ground arith in subst (λ z. All Solvent (values z)) e v
apply_entries-Solvent (e ∷ es) accounts applied g v h =
    bind-elim (required (other 0) (lookup e.account_id accounts)) _ h λ a q1 h1.
      bind-elim (apply_entry e a) _ h1 λ b q2 h2.
        let old = All-lookup Solvent e.account_id a accounts (required-found (other 0) _ a q1) v in
        apply_entries-Solvent es (insert e.account_id b accounts) applied g.1
          (All-insert Solvent e.account_id b accounts (apply_entry-Solvent e a b g.0 old q2) v) h2

posting_entries-positive :
    (uuid : ℕ → String) (i : ℕ) (lines : List PostingLineDto) (es : List TransactionEntry)
    → posting_entries uuid i lines ≡ returned es
    → All (λ e. pos 0 ≤ℤ e.amount) es
unfolding posting_entries
posting_entries-positive uuid i [] es h =
    let e : [] ≡ es = ground arith in subst (λ z. All (λ e. pos 0 ≤ℤ e.amount) z) e tt
posting_entries-positive uuid i (l ∷ lines) es h =
    bind-elim (parse_direction l.direction) _ h λ d q1 h1.
      bind-elim (new_entry _) _ h1 λ entry q2 h2.
        bind-elim (posting_entries uuid (suc i) lines) _ h2 λ rest q3 h3.
          let e : entry ∷ rest ≡ es = ground arith in
          subst (λ z. All (λ e. pos 0 ≤ℤ e.amount) z) e
            (new_entry-positive _ entry q2, posting_entries-positive uuid (suc i) lines rest q3)

LoadedFrom-All {ℓ} :
    (P : Account → Type ℓ) (s d : Storage) → All P (values s) → LoadedFrom s d → All P (values d)
LoadedFrom-All P s [] h f = tt
LoadedFrom-All P s ((j, a) ∷ d) h f = (All-lookup P j a s f.0 h, LoadedFrom-All P s d h f.1)

prepare_recording-Solvent :
    (uuid : ℕ → String) (cmd : RecordTransactionCommand) (s : Storage) (p : Prepared)
    → All Solvent (values s)
    → prepare_recording uuid cmd s ≡ returned p
    → All Solvent p.changed
prepare_recording-Solvent uuid cmd s p v h =
    let r = prepare_recording-Records uuid cmd s p h in
    let from = (load_accounts-LoadedFrom s r.entries [] r.loaded r.loading tt tt).1 in
    subst (All Solvent) (sym r.all_changed) (
      apply_entries-Solvent r.entries r.loaded r.applied
        (posting_entries-positive uuid 0 cmd.entries r.entries r.built)
        (LoadedFrom-All Solvent s r.loaded v from) r.applying)

prepare_transfer-Solvent :
    (uuid : ℕ → String) (cmd : TransferMoneyCommand) (s : Storage) (p : Prepared)
    → All Solvent (values s)
    → prepare_transfer uuid cmd s ≡ returned p
    → All Solvent p.changed
prepare_transfer-Solvent uuid cmd s p v h =
    let (source, dest, f, m) = prepare_transfer-Moves uuid cmd s p h in
    subst (All Solvent) (sym m.both) (
      Posts-Solvent m.debit_entry source m.source' m.positive.0
          (All-lookup Solvent _ source s f.at_source v) m.debited,
      (
        Posts-Solvent m.credit_entry dest m.dest' m.positive.1
            (All-lookup Solvent _ dest s f.at_dest v) m.credited,
        tt,
      ),
    )

prepared-IsValid :
    (o : Outcome Prepared) (r : Repositories)
    → ((p : Prepared) → o ≡ returned p → All Solvent p.changed)
    → IsValid r.accounts
    → IsValid (prepared_then o r).1.accounts
prepared-IsValid (returned p) r h v =
    commit-accounts IsValid p r v (store_all-IsValid p.changed r.accounts (h p refl) v)
prepared-IsValid (raised e) r h v = v
prepared-IsValid interrupted r h v = v

freeze_account-IsValid :
    (id : String) (r : Repositories) → IsValid r.accounts → IsValid (freeze_account id r).1.accounts
unfolding freeze_account save
freeze_account-IsValid id r v = elim (Option-cases (lookup id r.accounts)) [
  | inl e ↦ ground arith
  | inr (a, e) ↦
      let s = All-lookup Solvent id a r.accounts e v.solvent in
      let stored =
        store_all-IsValid (record a { status = frozen; version = a.version + 1 } ∷ []) r.accounts
          (s, tt) v in
      ground arith
]

step-IsValid : (c : Call) (r : Repositories) → IsValid r.accounts → IsValid (step c r).accounts
unfolding step transfer record_transaction
step-IsValid (transferring uuid cmd) r v =
    prepared-IsValid (prepare_transfer uuid cmd r.accounts) r
      (λ p. prepare_transfer-Solvent uuid cmd r.accounts p v.solvent) v
step-IsValid (recording uuid cmd) r v =
    prepared-IsValid (prepare_recording uuid cmd r.accounts) r
      (λ p. prepare_recording-Solvent uuid cmd r.accounts p v.solvent) v
step-IsValid (freezing id) r v = freeze_account-IsValid id r v

-- If every account stands under its own identifier and none is below its credit limit, this still
-- holds after any sequence of transfers, recorded transactions and freezes, those that raise included.
pub run-IsValid :
    (cs : List Call) (r : Repositories) → IsValid r.accounts → IsValid (run cs r).accounts
unfolding run
run-IsValid [] r v = v
run-IsValid (c ∷ cs) r v = run-IsValid cs (step c r) (step-IsValid c r v)

step-conserves :
    (curr : String) (c : Call) (r : Repositories)
    → IsValid r.accounts
    → total curr (step c r).accounts ≡ total curr r.accounts
unfolding step
step-conserves curr (transferring uuid cmd) r v = transfer-conserves curr uuid cmd r v.keyed
step-conserves curr (recording uuid cmd) r v = record_transaction-conserves curr uuid cmd r v.keyed
step-conserves curr (freezing id) r v = freeze_account-conserves curr id r v.keyed

-- From a valid storage, any sequence of transfers, recorded transactions and freezes leaves the sum of
-- the balances in each currency as it was, whichever of them raise.
pub run-conserves :
    (curr : String) (cs : List Call) (r : Repositories)
    → IsValid r.accounts
    → total curr (run cs r).accounts ≡ total curr r.accounts
unfolding run
run-conserves curr [] r v = refl
run-conserves curr (c ∷ cs) r v =
    run-conserves curr cs (step c r) (step-IsValid c r v) ∙ step-conserves curr c r v
