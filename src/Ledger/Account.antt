-- ===== src/Ledger/Account.antt =====
-- `Account` and `TransactionEntry` of domain/models.py. An amount of `Decimal` is a whole number of its
-- smallest unit; sums are exact, as they are within the precision of the decimal context.
use mathlib.Core.Path.{subst}
use hexastack.Base.{ℕ, ◌+◌, String, Bool, true, false, ◌≡◌, refl, sym, ap, not, same_str, arith}
use hexastack.Base.Int.{ℤ, pos, ◌+ℤ◌, ◌-ℤ◌, ◌≤ℤ◌, ltb_ℤ, leb_ℤ, int_laws}
use hexastack.Base.Outcome.{
  Outcome, returned, raise_if, ◌>>=◌, bind-returned, invalid_amount, account_frozen,
  insufficient_funds,
}

pub data AccountStatus : Type 0 where
  active frozen closed : AccountStatus

pub data EntryDirection : Type 0 where
  debit credit : EntryDirection

pub record Account : Type 0 where
  pub account_id : String
  pub tenant_id : String
  pub owner_id : String
  pub currency : String
  pub balance : ℤ
  pub credit_limit : ℤ
  pub status : AccountStatus
  pub version : ℕ

pub record TransactionEntry : Type 0 where
  pub account_id : String
  pub direction : EntryDirection
  pub amount : ℤ
  pub entry_id : String
  pub currency : String

-- `__post_init__` of `TransactionEntry`
unfoldable pub new_entry : TransactionEntry → Outcome TransactionEntry
new_entry e = raise_if (leb_ℤ e.amount (pos 0)) invalid_amount >>= λ _. returned e

abbrev pub is_active : AccountStatus → Bool
is_active active = true
is_active frozen = false
is_active closed = false

unfoldable pub assert_active : Account → Outcome (Unit {0})
assert_active a = raise_if (not (is_active a.status)) account_frozen

-- The branches of `apply_entry` on the direction.
unfoldable pub posted : EntryDirection → ℤ → Account → Outcome Account
posted credit amount a = returned (record a { balance = a.balance +ℤ amount })
posted debit amount a =
    raise_if (ltb_ℤ (a.balance -ℤ amount) (pos 0 -ℤ a.credit_limit)) insufficient_funds >>= λ _.
    returned (record a { balance = a.balance -ℤ amount })

-- The account after the call; one that raises leaves it as it was.
unfoldable pub apply_entry : TransactionEntry → Account → Outcome Account
unfolding assert_active posted
apply_entry e a = assert_active a >>= λ _.
    raise_if (not (same_str e.currency a.currency)) invalid_amount >>= λ _.
    posted e.direction e.amount a >>= λ b. returned (record b { version = b.version + 1 })

-- What an entry adds to the balance.
abbrev pub signed : EntryDirection → ℤ → ℤ
signed debit amount = pos 0 -ℤ amount
signed credit amount = amount

-- The balance is not below the credit limit.
abbrev pub Solvent : Account → Type 0
Solvent a = pos 0 -ℤ a.credit_limit ≤ℤ a.balance

-- What a posting leaves alone.
pub record SameAccount (a b : Account) : Type 0 where
  pub id_kept : b.account_id ≡ a.account_id
  pub tenant_kept : b.tenant_id ≡ a.tenant_id
  pub currency_kept : b.currency ≡ a.currency
  pub limit_kept : b.credit_limit ≡ a.credit_limit

-- What a posting that returns has done.
pub record Posts (e : TransactionEntry) (a b : Account) : Type 0 where
  pub was_active : a.status ≡ active
  pub in_currency : e.currency ≡ a.currency
  pub moved : b.balance ≡ a.balance +ℤ signed e.direction e.amount
  pub counted : b.version ≡ a.version + 1
  pub kept : SameAccount a b
  pub covered : e.direction ≡ debit → Solvent b

posted-moved :
    (d : EntryDirection) (amount : ℤ) (a b : Account)
    → posted d amount a ≡ returned b
    → (b ≡ record a { balance = a.balance +ℤ signed d amount }) × (d ≡ debit → Solvent b)
unfolding posted
posted-moved credit amount a b h = (ground arith, λ e. absurd (ground arith))
posted-moved debit amount a b h =
    let (u, p, k) =
      bind-returned
        (raise_if (ltb_ℤ (a.balance -ℤ amount) (pos 0 -ℤ a.credit_limit)) insufficient_funds) _ h in
    let e : record a { balance = a.balance -ℤ amount } ≡ b = ground arith in
    let shifted : a.balance +ℤ (pos 0 -ℤ amount) ≡ a.balance -ℤ amount = omega int_laws in
    (rw shifted (sym e), λ _. subst Solvent e (ground arith))

pub apply_entry-Posts :
    (e : TransactionEntry) (a b : Account) → apply_entry e a ≡ returned b → Posts e a b
unfolding apply_entry assert_active
apply_entry-Posts e a b h =
    let (u, p, h1) = bind-returned (assert_active a) _ h in
    let (v, q, h2) =
      bind-returned (raise_if (not (same_str e.currency a.currency)) invalid_amount) _ h1 in
    let (c, r, h3) = bind-returned (posted e.direction e.amount a) _ h2 in
    let m = posted-moved e.direction e.amount a c r in
    let e1 : record c { version = c.version + 1 } ≡ b = ground arith in
    subst (Posts e a) e1 (record {
      was_active = ground arith;
      in_currency = ground arith;
      moved = ap (λ z. z.balance) m.0;
      counted = ground (arith, m.0);
      kept = record {
        id_kept = ap (λ z. z.account_id) m.0;
        tenant_kept = ap (λ z. z.tenant_id) m.0;
        currency_kept = ap (λ z. z.currency) m.0;
        limit_kept = ap (λ z. z.credit_limit) m.0;
      };
      covered = m.1;
    })

-- A posting of a positive amount keeps a solvent account solvent.
pub Posts-Solvent :
    (e : TransactionEntry) (a b : Account) → pos 0 ≤ℤ e.amount → Solvent a → Posts e a b → Solvent b
Posts-Solvent e a b positive s after = solvent_after e.direction refl
  where
    solvent_after : (d : EntryDirection) → e.direction ≡ d → Solvent b
    solvent_after debit q = after.covered q
    solvent_after credit q =
        let grown : b.balance ≡ a.balance +ℤ e.amount = rw q at after.moved in
        rw (after.kept.limit_kept, grown) (omega int_laws)

pub apply_entry-Solvent :
    (e : TransactionEntry) (a b : Account)
    → pos 0 ≤ℤ e.amount
    → Solvent a
    → apply_entry e a ≡ returned b
    → Solvent b
apply_entry-Solvent e a b positive s h = Posts-Solvent e a b positive s (apply_entry-Posts e a b h)
