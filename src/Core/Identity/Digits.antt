-- ===== src/Core/Identity/Digits.antt =====
-- The digits of a number, read back as the number.
use mathlib.Core.List.{reverse, reverse-append}
use mathlib.Core.Path.{subst}
use hexastack.Base.{
  ℕ, zero, suc, ◌+◌, ◌-◌, ◌*◌, ◌/◌, ◌%◌, ◌≤◌, ◌<◌, Bool, true, false, ◌&&◌, Option, none, some, [],
  ◌∷◌, ◌++◌, ltb, ◌==◌, length, ◌≡◌, refl, ap, ◌∙◌, inl, inr, Bool-cases, arith,
}
use hexastack.Base.Text.{Text}
use hexastack.Base.Outcome.{returned}
use hexastack.Core.Identity.{
  char_at, find_index, chars_of, int_to_base62, read_from, base62_to_int, IdObfuscator, repeat,
  padded,
}

-- The test that a character of the alphabet is found at its own index.
abbrev is_at : ℕ → Option ℕ → Bool
is_at i none = false
is_at i (some j) = j == i

is_at-eq : (i : ℕ) (o : Option ℕ) → is_at i o ≡ true → o ≡ some i
is_at-eq i none h = absurd (ground arith)
is_at-eq i (some j) h = ap some (ground arith)

abbrev all_below : (ℕ → Bool) → ℕ → Bool
all_below t zero = true
all_below t (suc n) = t n && all_below t n

below : (t : ℕ → Bool) (n i : ℕ) → all_below t n ≡ true → i < n → t i ≡ true
below t zero i h l = absurd (ground arith)
below t (suc n) i h l = elim (Bool-cases (i == n)) [
  | inl e ↦ subst (λ k. t k ≡ true) {x = n} (ground arith) (ground arith)
  | inr e ↦ below t n i (ground arith) (ground arith)
]

find_index-char_at : (i : ℕ) → i < 62 → find_index (char_at i) ≡ some i
unfolding find_index char_at
find_index-char_at i l =
    is_at-eq i (find_index (char_at i)) (below (λ k. is_at k (find_index (char_at k))) 62 i refl l)

read_char :
    (num i : ℕ) (s : Text) → i < 62 → read_from num (char_at i ∷ s) ≡ read_from (num * 62 + i) s
read_char num i s l = rw (find_index-char_at i l) refl

-- The loop keeps the number that is read.
read_from-chars_of :
    (fuel current : ℕ) (chars : Text)
    → current ≤ fuel
    → read_from 0 (reverse (chars_of fuel current chars)) ≡ read_from current (reverse chars)
unfolding chars_of
read_from-chars_of zero current chars l = ap (λ n. read_from n (reverse chars)) (omega arith)
read_from-chars_of (suc fuel) current chars l = elim (Bool-cases (current == 0)) [
  | inl e ↦ rw e (ap (λ n. read_from n (reverse chars)) (ground arith))
  | inr e ↦ rw e (
      read_from-chars_of fuel (current / 62) (chars ++ char_at (current % 62) ∷ []) (ground arith)
      ∙ ap (read_from (current / 62)) (reverse-append chars (char_at (current % 62) ∷ []))
      ∙ read_char (current / 62) (current % 62) (reverse chars) (ground arith)
      ∙ ap (λ n. read_from n (reverse chars)) (ground arith))
]

pub read_from-int_to_base62 : (num : ℕ) → base62_to_int (int_to_base62 num) ≡ returned num
read_from-int_to_base62 num = elim (Bool-cases (num == 0)) [
  | inl e ↦ rw e (read_char 0 0 [] (ground arith) ∙ ap returned (ground arith))
  | inr e ↦ rw e (read_from-chars_of num num [] (ground arith))
]

-- Leading zeros do not count.
read_from-repeat : (k : ℕ) (s : Text) → base62_to_int (repeat k (char_at 0) ++ s) ≡ base62_to_int s
read_from-repeat zero s = refl
read_from-repeat (suc k) s =
    read_char 0 0 (repeat k (char_at 0) ++ s) (ground arith) ∙ read_from-repeat k s

pub read_padded :
    (o : IdObfuscator) (num : ℕ) → base62_to_int (padded o (int_to_base62 num)) ≡ returned num
read_padded o num = elim (Bool-cases (ltb (length (int_to_base62 num)) o.min_length)) [
  | inl e ↦ rw e (
      read_from-repeat (o.min_length - length (int_to_base62 num)) (int_to_base62 num)
      ∙ read_from-int_to_base62 num)
  | inr e ↦ rw e (read_from-int_to_base62 num)
]
