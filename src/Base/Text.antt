-- ===== src/Base/Text.antt =====
-- What the code uses of Python's `str` and `int`, over ASCII texts as lists of their codes.
use Prim.Native.Char.{code}
use Prim.Native.Nat.{ℕ, zero, suc, ◌+◌, ◌-◌, ◌*◌}
use Prim.Native.String.{String}
use mathlib.Core.Bool.{Bool, true, false, not, ◌&&◌, ◌||◌}
use mathlib.Core.List.{List, [], ◌∷◌, ◌++◌, reverse}
use mathlib.Core.Option.{Option, none, some}
use mathlib.Core.Path.{◌≡◌, refl}
use mathlib.Core.Logic.{◌≢◌}
use native.Mathlib.Decide.{ℕ_discrete}
use native.Mathlib.Omega.{arith}
use mathlib.Core.Option
use hexastack.Base.Tests.{leb, ◌==◌, if◌then◌else◌}
use hexastack.Base.Int.{ℤ, pos, negsuc}

abbrev pub Text : Type 0
Text = List ℕ

abbrev pub codes : String → Text
codes String.[] = []
codes (String.◌∷◌ c s) = code c ∷ codes s

-- `s == t`
abbrev pub same : Text → Text → Bool
same [] [] = true
same [] (d ∷ t) = false
same (c ∷ s) [] = false
same (c ∷ s) (d ∷ t) = c == d && same s t

pub same_refl : (s : Text) → same s s ≡ true
same_refl [] = refl
same_refl (c ∷ s) = ground (arith, same_refl s)

abbrev pub is_digit : ℕ → Bool
is_digit c = leb b'0' c && leb c b'9'

-- `str.isspace` of one ASCII character.
abbrev pub is_space : ℕ → Bool
is_space c = c == 32 || (leb 9 c && leb c 13) || (leb 28 c && leb c 31)

unfoldable pub lstrip : Text → Text
lstrip [] = []
lstrip (c ∷ s) = if is_space c then lstrip s else c ∷ s

-- `s.strip()`
unfoldable pub strip : Text → Text
unfolding lstrip
strip s = reverse (lstrip (reverse (lstrip s)))

abbrev pub lower_char : ℕ → ℕ
lower_char c = if leb b'A' c && leb c b'Z' then c + 32 else c

-- `s.lower()`
abbrev pub lower : Text → Text
lower [] = []
lower (c ∷ s) = lower_char c ∷ lower s

abbrev pub onto_first : ℕ → List Text → List Text
onto_first c [] = (c ∷ []) ∷ []
onto_first c (p ∷ ps) = (c ∷ p) ∷ ps

-- `s.split(sep)` at a separator of one character.
unfoldable pub split : ℕ → Text → List Text
split sep [] = [] ∷ []
split sep (c ∷ s) = let rest = split sep s in if c == sep then [] ∷ rest else onto_first c rest

-- `s.removesuffix(c)` for a suffix of one character.
unfoldable pub removesuffix : ℕ → Text → Text
removesuffix c [] = []
removesuffix c (x ∷ []) = if x == c then [] else x ∷ []
removesuffix c (x ∷ y ∷ s) = x ∷ removesuffix c (y ∷ s)

-- The digits of `int(s)`, with single underscores between them; `need` says that a digit must come.
unfoldable pub digits : Bool → ℕ → Text → Option ℕ
digits need acc [] = if need then none else some acc
digits need acc (c ∷ s) =
    let more = digits false (acc * 10 + (c - b'0')) s in
    let under = digits true acc s in
    if is_digit c then more else if c == b'_' && not need then under else none

abbrev pub neg : ℕ → ℤ
neg zero = pos 0
neg (suc n) = negsuc n

signed : Text → Option ℤ
unfolding digits
signed [] = none
signed (c ∷ s) =
    if c == b'-'
    then Option.map neg (digits true 0 s)
    else if c == b'+'
    then Option.map pos (digits true 0 s)
    else Option.map pos (digits true 0 (c ∷ s))

-- `int(s)`; `none` is a `ValueError`.
unfoldable pub int : Text → Option ℤ
unfolding signed strip
int s = signed (strip s)

-- `s.replace(c, by)` for one character.
unfoldable pub replace_char : ℕ → Text → Text → Text
replace_char c by [] = []
replace_char c by (d ∷ s) =
    let rest = replace_char c by s in if d == c then by ++ rest else d ∷ rest

-- `s.replace(c + d, by)` for two characters, from the left and without overlaps.
unfoldable pub replace_pair : ℕ → ℕ → Text → Text → Text
replace_pair c d by [] = []
replace_pair c d by (x ∷ []) = x ∷ []
replace_pair c d by (x ∷ y ∷ s) =
    let found = by ++ replace_pair c d by s in
    let next = x ∷ replace_pair c d by (y ∷ s) in if x == c && y == d then found else next

-- `all` of the characters are digits; `str.isdigit` wants one at least.
unfoldable pub all_digits : Text → Bool
all_digits [] = true
all_digits (c ∷ s) = is_digit c && all_digits s

abbrev pub isdigit : Text → Bool
isdigit [] = false
isdigit (c ∷ s) = all_digits (c ∷ s)

pub nil-ne-cons : (c : ℕ) (s : Text) → [] ≢ c ∷ s
nil-ne-cons c s p = ground arith

pub cons-ne-nil : (c : ℕ) (s : Text) → c ∷ s ≢ []
cons-ne-nil c s p = ground arith

pub head-eq : {c d : ℕ} {s t : Text} → c ∷ s ≡ d ∷ t → c ≡ d
head-eq p = ground arith

pub tail-eq : {c d : ℕ} {s t : Text} → c ∷ s ≡ d ∷ t → s ≡ t
tail-eq p = ground arith

-- Texts are compared by their characters.
unfoldable pub Text_discrete : Discrete Text
Text_discrete [] [] = yes refl
Text_discrete [] (d ∷ t) = no (nil-ne-cons d t)
Text_discrete (c ∷ s) [] = no (cons-ne-nil c s)
Text_discrete (c ∷ s) (d ∷ t) = elim (ℕ_discrete c d) [
  | no n ↦ no λ p. n (head-eq p)
  | yes p ↦ elim (Text_discrete s t) [ no n ↦ no λ q. n (tail-eq q) | yes q ↦ yes λ i. p i ∷ q i ]
]
