-- ===== src/Ledger/Totals.antt =====
-- The sum of the balances in a currency, and how storing changed copies of accounts moves it.
use mathlib.Core.Path.{subst}
use mathlib.Core.Logic.{if_pos, if_neg}
use hexastack.Base.{
  String, ◌≡◌, refl, sym, ap, ◌∙◌, if◌then◌else◌, same_str, none, some, [], ◌∷◌, All, arith,
}
use hexastack.Base.Int.{ℤ, pos, ◌+ℤ◌, int_laws}
use hexastack.Dict.{lookup, insert, values, Distinct, string_key, lookup-insert_ne}
use hexastack.Ledger.Account.{Account}
use hexastack.Ledger.Repository.{Storage, store_all}

-- What an account adds to the sum of a currency.
abbrev pub held : String → Account → ℤ
held curr a = if same_str a.currency curr then a.balance else pos 0

abbrev pub total : String → Storage → ℤ
total curr [] = pos 0
total curr ((id, a) ∷ s) = held curr a +ℤ total curr s

pub total-insert :
    (curr k : String) (old new : Account) (s : Storage)
    → lookup k s ≡ some old
    → total curr (insert k new s) +ℤ held curr old ≡ total curr s +ℤ held curr new
total-insert curr k old new [] e = absurd (ground arith)
total-insert curr k old new ((j, a) ∷ s) e = elim (string_key.dec k j) [
  | yes p ↦ let same : a ≡ old = ground arith in rw (if_pos _ p, same) (omega int_laws)
  | no n ↦ rw (if_neg _ n) (grind (int_laws, total-insert curr k old new s))
]

-- The same accounts under the same keys, with other balances perhaps.
pub record SameHolder (a b : Account) : Type 0 where
  pub same_id : b.account_id ≡ a.account_id
  pub same_currency : b.currency ≡ a.currency

abbrev pub Aligned : Storage → Storage → Type 0
Aligned [] [] = Unit
Aligned [] (y ∷ ys) = ⊥
Aligned (x ∷ xs) [] = ⊥
Aligned ((j, a) ∷ xs) ((k, b) ∷ ys) = (j ≡ k) × SameHolder a b × Aligned xs ys

-- Every entry stands under the identifier of its account.
abbrev pub Keyed : Storage → Type 0
Keyed s = All (λ e. e.1.account_id ≡ e.0) s

-- Every entry is what `s` has under its key.
abbrev pub LoadedFrom : Storage → Storage → Type 0
LoadedFrom s d = All (λ e. lookup e.0 s ≡ some e.1) d

LoadedFrom-insert :
    (k : String) (b : Account) (s d : Storage)
    → lookup k d ≡ none
    → LoadedFrom s d
    → LoadedFrom (insert k b s) d
LoadedFrom-insert k b s [] h f = tt
LoadedFrom-insert k b s ((j, a) ∷ d) h f = (
  lookup-insert_ne j k b s (λ p. ground arith) ∙ f.0,
  LoadedFrom-insert k b s d (ground arith) f.1,
)

add_across : (t x i y a s b : ℤ) → t +ℤ x ≡ i +ℤ y → i +ℤ a ≡ s +ℤ b → t +ℤ (a +ℤ x) ≡ s +ℤ (b +ℤ y)
add_across t x i y a s b h k = grind int_laws

-- Storing changed copies moves the sum by what their own sum has moved.
pub total-store_all :
    (curr : String) (loaded changed s : Storage)
    → Aligned loaded changed
    → Distinct loaded
    → Keyed loaded
    → LoadedFrom s loaded
    → total curr (store_all (values changed) s) +ℤ total curr loaded
      ≡ total curr s +ℤ total curr changed
total-store_all curr [] [] s a u k f = refl
total-store_all curr [] (y ∷ ys) s a u k f = elim a [ ]
total-store_all curr (x ∷ xs) [] s a u k f = elim a [ ]
total-store_all curr ((j, a) ∷ xs) ((i, b) ∷ ys) s al u k f =
    let id : b.account_id ≡ j = al.1.same_id ∙ k.0 in
    let step = total-insert curr j a b s f.0 in
    let rest =
      total-store_all curr xs ys (insert j b s) al.2 u.1 k.1 (LoadedFrom-insert j b s xs u.0 f.1) in
    subst
      (λ z.
        total curr (store_all (values ys) (insert z b s)) +ℤ (held curr a +ℤ total curr xs)
        ≡ total curr s +ℤ (held curr b +ℤ total curr ys))
      (sym id) (add_across _ _ _ _ _ _ _ rest step)

pub Aligned-refl : (s : Storage) → Aligned s s
Aligned-refl [] = tt
Aligned-refl ((k, a) ∷ s) = (refl, record { same_id = refl; same_currency = refl }, Aligned-refl s)

-- A changed copy of an account takes the place of the account.
pub Aligned-insert :
    (k : String) (a b : Account) (loaded changed : Storage)
    → Aligned loaded changed
    → lookup k changed ≡ some a
    → SameHolder a b
    → Aligned loaded (insert k b changed)
Aligned-insert k a b [] [] al e h = absurd (ground arith)
Aligned-insert k a b [] (y ∷ ys) al e h = elim al [ ]
Aligned-insert k a b (x ∷ xs) [] al e h = elim al [ ]
Aligned-insert k a b ((j, c) ∷ xs) ((i, d) ∷ ys) al e h = elim (string_key.dec k i) [
  | yes p ↦
      let same : d ≡ a = ground arith in
      rw (if_pos _ p) (
        al.0 ∙ sym p,
        record {
          same_id = h.same_id ∙ ap (λ z. z.account_id) (sym same) ∙ al.1.same_id;
          same_currency = h.same_currency ∙ ap (λ z. z.currency) (sym same) ∙ al.1.same_currency;
        },
        al.2,
      )
  | no n ↦ rw (if_neg _ n) (al.0, al.1, Aligned-insert k a b xs ys al.2 (ground arith) h)
]
