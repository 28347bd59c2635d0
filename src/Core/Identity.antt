-- ===== src/Core/Identity.antt =====
-- packages/hexastack_core/src/hexastack_core/adapters/identity/in_memory.py. Tokens are ASCII texts.
pub mod Digits
pub mod Tokens
mod Tests
use mathlib.Core.List.{reverse}
use mathlib.Core.Option
use hexastack.Base.{
  ℕ, zero, suc, ◌+◌, ◌-◌, ◌*◌, ◌/◌, ◌%◌, Bool, true, false, not, ◌&&◌, Option, none, some, List, [],
  ◌∷◌, ◌++◌, ltb, ◌==◌, length, drop, get_elem?, if◌then◌else◌,
}
use hexastack.Base.Int.{ℤ, pos, negsuc}
use hexastack.Base.Text.{Text, codes, split}
use hexastack.Base.Outcome.{Outcome, returned, raised, value_error, ◌>>=◌, required, raise_if, Done}

-- `_BASE62_ALPHABET`
abbrev pub alphabet : Text
alphabet = codes "0123456789abcdefghijklmnopqrstuvwxyzABCDEFGHIJKLMNOPQRSTUVWXYZ"

-- `_BASE62_ALPHABET[i]`, for an index in range.
abbrev or_zero : Option ℕ → ℕ
or_zero none = 0
or_zero (some c) = c

unfoldable pub char_at : ℕ → ℕ
char_at i = or_zero (get_elem? alphabet i)

-- `s.find(c)` for one character; `none` is -1.
abbrev find : ℕ → Text → Option ℕ
find c [] = none
find c (d ∷ s) = let later = Option.map suc (find c s) in if c == d then some 0 else later

-- `_BASE62_ALPHABET.find(c)`
unfoldable pub find_index : ℕ → Option ℕ
find_index c = find c alphabet

-- The `while` of `_int_to_base62`, on fuel: each round divides a number that is not 0.
unfoldable pub chars_of : ℕ → ℕ → Text → Text
chars_of zero current chars = chars
chars_of (suc fuel) current chars =
    let more = chars_of fuel (current / 62) (chars ++ char_at (current % 62) ∷ []) in
    if current == 0 then chars else more

abbrev pub int_to_base62 : ℕ → Text
int_to_base62 num = if num == 0 then char_at 0 ∷ [] else reverse (chars_of num num [])

-- The loop of `_base62_to_int`, with the number so far.
abbrev pub read_from : ℕ → Text → Outcome ℕ
read_from num [] = returned num
read_from num (c ∷ token) = do
  idx ← required value_error (find_index c)
  read_from (num * 62 + idx) token

abbrev pub base62_to_int : Text → Outcome ℕ
base62_to_int token = read_from 0 token

-- `InMemoryIdObfuscator`
pub record IdObfuscator : Type 0 where
  pub min_length : ℕ
  pub prefix : Text

unfoldable pub init : ℤ → Text → Outcome IdObfuscator
init (pos min_length) prefix = returned (record { min_length = min_length; prefix = prefix })
init (negsuc n) prefix = raised value_error

abbrev pub repeat : ℕ → ℕ → Text
repeat zero c = []
repeat (suc n) c = c ∷ repeat n c

-- `s.rjust(width, c)`
abbrev pub rjust : ℕ → ℕ → Text → Text
rjust width c s = repeat (width - length s) c ++ s

abbrev pub padded : IdObfuscator → Text → Text
padded o b62 = if ltb (length b62) o.min_length then rjust o.min_length (char_at 0) b62 else b62

unfoldable pub encode : ℤ → IdObfuscator → Outcome Text
unfolding chars_of
encode (negsuc n) o = raised value_error
encode (pos number) o = returned (o.prefix ++ padded o (int_to_base62 number))

-- `s.startswith(p)`
abbrev pub startswith : Text → Text → Bool
startswith [] s = true
startswith (c ∷ p) [] = false
startswith (c ∷ p) (d ∷ s) = c == d && startswith p s

abbrev pub empty_text : Text → Bool
empty_text [] = true
empty_text (c ∷ s) = false

-- Every text starts with an empty prefix.
unfoldable pub decode : Text → IdObfuscator → Outcome ℕ
decode token o = do
  _ ← raise_if (empty_text token) value_error
  _ ← raise_if (not (startswith o.prefix token)) value_error
  base62_to_int (drop (length o.prefix) token)

-- The comprehensions of `encode_many` and `decode_many`: the first exception ends them.
abbrev pub each {ℓ κ} : {A : Type ℓ} {B : Type κ} → (A → Outcome B) → List A → Outcome (List B)
each f [] = returned []
each f (a ∷ rest) = do b ← f a; bs ← each f rest; returned (b ∷ bs)

-- `"-".join(parts)`
abbrev pub join_dash : List Text → Text
join_dash [] = []
join_dash (p ∷ []) = p
join_dash (p ∷ q ∷ ps) = p ++ b'-' ∷ join_dash (q ∷ ps)

unfoldable pub encode_many : List ℤ → IdObfuscator → Outcome Text
unfolding encode
encode_many [] o = raised value_error
encode_many (n ∷ ns) o = do parts ← each (λ k. encode k o) (n ∷ ns); returned (join_dash parts)

unfoldable pub decode_many : Text → IdObfuscator → Outcome (List ℕ)
unfolding decode split
decode_many [] o = raised value_error
decode_many (c ∷ token) o = each (λ part. decode part o) (split b'-' (c ∷ token))
