-- ===== src/Ledger/Postings.antt =====
-- What the entries of a transaction do to the sums of the loaded accounts.
use mathlib.Core.Path.{subst}
use hexastack.Base.{
  String, ◌≡◌, sym, ap, ◌∙◌, if◌then◌else◌, same_str, Option, none, some, List, [], ◌∷◌, arith, inl,
  inr, Bool-cases,
}
use hexastack.Base.Int.{ℤ, pos, ◌+ℤ◌, int_laws}
use hexastack.Base.Outcome.{Exn, returned, required, ◌>>=◌, bind-returned, account_not_found, other}
use hexastack.Dict.{
  lookup, insert, contains, Distinct, string_key, lookup-All, insert-All, insert-Distinct,
}
use hexastack.Ledger.Account.{
  Account, TransactionEntry, signed, apply_entry, Posts, apply_entry-Posts,
}
use hexastack.Ledger.Journal.{net}
use hexastack.Ledger.Repository.{Storage}
use hexastack.Ledger.Recording.{load_accounts, apply_entries}
use hexastack.Ledger.Totals.{held, total, total-insert, Aligned, Keyed, LoadedFrom, Aligned-insert}

pub cancel : (a b c : ℤ) → a +ℤ c ≡ b +ℤ c → a ≡ b
cancel a b c h = grind int_laws

regroup : (t a d : ℤ) → t +ℤ (a +ℤ d) ≡ t +ℤ d +ℤ a
regroup t a d = omega int_laws

assoc : (t a b : ℤ) → t +ℤ a +ℤ b ≡ t +ℤ (a +ℤ b)
assoc t a b = omega int_laws

pub no_change : (t : ℤ) → t ≡ t +ℤ pos 0
no_change t = omega int_laws

pub required-found {ℓ} :
    {A : Type ℓ} (e : Exn) (o : Option A) (a : A) → required e o ≡ returned a → o ≡ some a
required-found e none a h = absurd (ground arith)
required-found e (some b) a h = ground arith

pub held-Posts :
    (curr : String) (e : TransactionEntry) (a b : Account)
    → Posts e a b
    → held curr b
      ≡ held curr a +ℤ (if same_str e.currency curr then signed e.direction e.amount else pos 0)
held-Posts curr e a b h =
    rw (h.kept.currency_kept, h.in_currency)
      (elim (Bool-cases (same_str a.currency curr)) [
        | inl q ↦ rw q h.moved
        | inr q ↦ rw q (omega int_laws)
      ])

pub posted-total :
    (curr : String) (e : TransactionEntry) (a b : Account) (accounts : Storage)
    → lookup e.account_id accounts ≡ some a
    → Posts e a b
    → total curr (insert e.account_id b accounts)
      ≡ total curr accounts
        +ℤ (if same_str e.currency curr then signed e.direction e.amount else pos 0)
posted-total curr e a b accounts found h = cancel _ _ (held curr a) (
    total-insert curr e.account_id a b accounts found
    ∙ ap (λ z. total curr accounts +ℤ z) (held-Posts curr e a b h)
    ∙ regroup _ _ _)

-- Applying entries moves the sum of each currency by their net amount.
pub apply_entries-total :
    (loaded : Storage) (es : List TransactionEntry) (accounts applied : Storage)
    → apply_entries es accounts ≡ returned applied
    → Aligned loaded accounts
    → Aligned loaded applied
      × ((curr : String) → total curr applied ≡ total curr accounts +ℤ net curr es)
unfolding apply_entries
apply_entries-total loaded [] accounts applied h al =
    let e : accounts ≡ applied = ground arith in
    (subst (Aligned loaded) e al, λ curr. ap (total curr) (sym e) ∙ no_change _)
apply_entries-total loaded (e ∷ es) accounts applied h al =
    let (a, p, h1) = bind-returned (required (other 0) (lookup e.account_id accounts)) _ h in
    let (b, q, h2) = bind-returned (apply_entry e a) _ h1 in
    let found : lookup e.account_id accounts ≡ some a =
      required-found (other 0) (lookup e.account_id accounts) a p in
    let posts = apply_entry-Posts e a b q in
    let (al', moved) = apply_entries-total loaded es (insert e.account_id b accounts) applied h2 (
      Aligned-insert e.account_id a b loaded accounts al found
        (record { same_id = posts.kept.id_kept; same_currency = posts.kept.currency_kept })) in
    (
      al',
      λ curr.
          moved curr
          ∙ ap (λ z. z +ℤ net curr es) (posted-total curr e a b accounts found posts)
          ∙ assoc _ _ _,
    )

pub load_accounts-LoadedFrom :
    (s : Storage) (es : List TransactionEntry) (accounts loaded : Storage)
    → load_accounts es accounts s ≡ returned loaded
    → Distinct accounts
    → LoadedFrom s accounts
    → Distinct loaded × LoadedFrom s loaded
unfolding load_accounts
load_accounts-LoadedFrom s [] accounts loaded h d f =
    let e : accounts ≡ loaded = ground arith in subst (λ z. Distinct z × LoadedFrom s z) e (d, f)
load_accounts-LoadedFrom s (e ∷ es) accounts loaded h d f =
    elim (Bool-cases (contains e.account_id accounts)) [
      | inl known ↦ load_accounts-LoadedFrom s es accounts loaded (ground arith) d f
      | inr fresh ↦
          let missed : (required account_not_found (lookup e.account_id s) >>= λ acc.
          load_accounts es (insert e.account_id acc accounts) s)
              ≡ returned loaded =
            ground arith in
          let (a, p, h1) =
            bind-returned (required account_not_found (lookup e.account_id s)) _ missed in
          load_accounts-LoadedFrom s es (insert e.account_id a accounts) loaded h1
            (insert-Distinct e.account_id a accounts d)
            (insert-All (λ z. lookup z.0 s ≡ some z.1) e.account_id a accounts
              (required-found account_not_found (lookup e.account_id s) a p) f)
    ]

pub LoadedFrom-Keyed : (s d : Storage) → Keyed s → LoadedFrom s d → Keyed d
LoadedFrom-Keyed s [] k f = tt
LoadedFrom-Keyed s ((j, a) ∷ d) k f =
    (lookup-All (λ z. z.1.account_id ≡ z.0) j a s f.0 k, LoadedFrom-Keyed s d k f.1)
