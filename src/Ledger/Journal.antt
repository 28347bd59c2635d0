-- ===== src/Ledger/Journal.antt =====
-- `JournalTransaction` of domain/models.py.
use mathlib.Core.Path.{subst}
use hexastack.Base.{
  String, Bool, true, false, ◌≡◌, refl, ◌⊎◌, not, if◌then◌else◌, same_str, arith, inl, inr, ltb,
  List, [], ◌∷◌, Bool-cases, length,
}
use hexastack.Base.Int.{ℤ, pos, ◌+ℤ◌, ◌-ℤ◌, same_ℤ, int_laws, eq_of_parts}
use hexastack.Base.Outcome.{
  Outcome, Done, returned, raise_if, ◌>>=◌, bind-returned, unbalanced_transaction,
}
use hexastack.Ledger.Account.{TransactionEntry, EntryDirection, debit, credit, signed}

pub record JournalTransaction : Type 0 where
  pub reference : String
  pub description : String
  pub entries : List TransactionEntry
  pub transaction_id : String

-- The amount that an entry adds to the debits, or to the credits.
abbrev debit_part : EntryDirection → ℤ → ℤ
debit_part debit amount = amount
debit_part credit amount = pos 0

abbrev credit_part : EntryDirection → ℤ → ℤ
credit_part debit amount = pos 0
credit_part credit amount = amount

unfoldable pub curr_debits : String → List TransactionEntry → ℤ
curr_debits curr [] = pos 0
curr_debits curr (e ∷ es) =
    (if same_str e.currency curr then debit_part e.direction e.amount else pos 0)
    +ℤ curr_debits curr es

unfoldable pub curr_credits : String → List TransactionEntry → ℤ
curr_credits curr [] = pos 0
curr_credits curr (e ∷ es) =
    (if same_str e.currency curr then credit_part e.direction e.amount else pos 0)
    +ℤ curr_credits curr es

-- The loop over the currencies of the entries: one that occurs again is only checked again, and the
-- error is the same in any order.
unfoldable pub check_currencies : List TransactionEntry → List TransactionEntry → Done
unfolding curr_debits curr_credits
check_currencies es [] = returned tt
check_currencies es (e ∷ rest) =
    raise_if (not (same_ℤ (curr_debits e.currency es) (curr_credits e.currency es)))
      unbalanced_transaction
    >>= λ _. check_currencies es rest

-- `__post_init__`
unfoldable pub new_transaction : JournalTransaction → Outcome JournalTransaction
unfolding check_currencies
new_transaction t = raise_if (ltb (length t.entries) 2) unbalanced_transaction >>= λ _.
    check_currencies t.entries t.entries >>= λ _. returned t

-- What the entries in a currency add to the balances.
abbrev pub net : String → List TransactionEntry → ℤ
net curr [] = pos 0
net curr (e ∷ es) =
    (if same_str e.currency curr then signed e.direction e.amount else pos 0) +ℤ net curr es

net_part :
    (c : Bool) (d : EntryDirection) (amount : ℤ)
    → (if c then signed d amount else pos 0)
      ≡ (if c then credit_part d amount else pos 0) -ℤ (if c then debit_part d amount else pos 0)
net_part true debit amount = omega int_laws
net_part true credit amount = omega int_laws
net_part false d amount = omega int_laws

net_difference :
    (curr : String) (es : List TransactionEntry)
    → net curr es ≡ curr_credits curr es -ℤ curr_debits curr es
unfolding curr_debits curr_credits
net_difference curr [] = omega int_laws
net_difference curr (e ∷ es) =
    rw (net_difference curr es, net_part (same_str e.currency curr) e.direction e.amount)
      (omega int_laws)

-- No entry is in the currency.
abbrev Absent : String → List TransactionEntry → Type 0
Absent curr [] = Unit
Absent curr (e ∷ es) = (same_str e.currency curr ≡ false) × Absent curr es

net-Absent : (curr : String) (es : List TransactionEntry) → Absent curr es → net curr es ≡ pos 0
net-Absent curr [] h = refl
net-Absent curr (e ∷ es) h = rw (h.0, net-Absent curr es h.1) (omega int_laws)

same-eq : (a b : ℤ) → same_ℤ a b ≡ true → a ≡ b
same-eq a b h = eq_of_parts a b (ground arith)

checked_balanced :
    (curr : String) (es rest : List TransactionEntry)
    → check_currencies es rest ≡ returned tt
    → (net curr es ≡ pos 0) ⊎ Absent curr rest
unfolding check_currencies
checked_balanced curr es [] h = inr tt
checked_balanced curr es (e ∷ rest) h =
    let (u, p, k) =
      bind-returned
        (raise_if (not (same_ℤ (curr_debits e.currency es) (curr_credits e.currency es)))
          unbalanced_transaction)
        _ h in
    let even : net e.currency es ≡ pos 0 =
      rw
        (
          net_difference e.currency es,
          same-eq (curr_debits e.currency es) (curr_credits e.currency es) (ground arith),
        )
        (omega int_laws) in
    elim (Bool-cases (same_str e.currency curr)) [
      | inl hit ↦ inl (subst (λ c. net c es ≡ pos 0) (ground arith) even)
      | inr miss ↦ elim (checked_balanced curr es rest (ground arith)) [
        | inl b ↦ inl b
        | inr a ↦ inr (miss, a)
      ]
    ]

-- In every currency the entries of a transaction that is constructed add up to nothing.
pub new_transaction_balanced :
    (t t' : JournalTransaction)
    → new_transaction t ≡ returned t'
    → (t ≡ t') × ((curr : String) → net curr t'.entries ≡ pos 0)
unfolding new_transaction
new_transaction_balanced t t' h =
    let (u, p, h1) =
      bind-returned (raise_if (ltb (length t.entries) 2) unbalanced_transaction) _ h in
    let (v, q, h2) = bind-returned (check_currencies t.entries t.entries) _ h1 in
    let e : t ≡ t' = ground arith in
    (
      e,
      λ curr.
          subst (λ x. net curr x.entries ≡ pos 0) e
            (elim (checked_balanced curr t.entries t.entries q) [
              | inl b ↦ b
              | inr a ↦ net-Absent curr t.entries a
            ]),
    )
