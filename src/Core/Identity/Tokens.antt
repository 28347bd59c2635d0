-- ===== src/Core/Identity/Tokens.antt =====
-- Tokens of the obfuscator that are read back.
use hexastack.Base.{
  ℕ, ◌+◌, ◌-◌, ◌*◌, true, false, Option, none, some, List, [], ◌∷◌, ◌++◌, map, ltb, ◌==◌, length,
  drop, ◌≡◌, ◌≢◌, refl, ap, ◌∙◌, inl, inr, All, Bool-cases, arith,
}
use hexastack.Base.Int.{pos}
use hexastack.Base.Text.{Text, split}
use hexastack.Base.Outcome.{returned, value_error, ◌>>=◌, required, bind-elim}
use hexastack.Core.Identity.Digits.{read_from-int_to_base62, read_padded}
use hexastack.Core.Identity.{
  char_at, find_index, int_to_base62, read_from, base62_to_int, IdObfuscator, repeat, padded,
  encode, startswith, empty_text, decode, each, join_dash, encode_many, decode_many,
}

startswith-append : (p s : Text) → startswith p (p ++ s) ≡ true
startswith-append [] s = refl
startswith-append (c ∷ p) s = ground (arith, startswith-append p s)

drop-append : (p s : Text) → drop (length p) (p ++ s) ≡ s
drop-append [] s = refl
drop-append (c ∷ p) s = drop-append p s

-- What `encode` returns.
abbrev token_of : IdObfuscator → ℕ → Text
token_of o n = o.prefix ++ padded o (int_to_base62 n)

append_not_empty : (p s : Text) → empty_text s ≡ false → empty_text (p ++ s) ≡ false
append_not_empty [] s h = h
append_not_empty (c ∷ p) s h = refl

read_not_empty :
    (s : Text) (n : ℕ) → read_from 0 s ≡ returned n → n == 0 ≡ false → empty_text s ≡ false
read_not_empty [] n h k = absurd (ground arith)
read_not_empty (c ∷ s) n h k = refl

int_to_base62_not_empty : (num : ℕ) → empty_text (int_to_base62 num) ≡ false
int_to_base62_not_empty num = elim (Bool-cases (num == 0)) [
  | inl e ↦ rw e refl
  | inr e ↦ read_not_empty (int_to_base62 num) num (read_from-int_to_base62 num) e
]

padded_not_empty :
    (o : IdObfuscator) (b : Text) → empty_text b ≡ false → empty_text (padded o b) ≡ false
padded_not_empty o b h = elim (Bool-cases (ltb (length b) o.min_length)) [
  | inl e ↦ rw e (append_not_empty (repeat (o.min_length - length b) (char_at 0)) b h)
  | inr e ↦ rw e h
]

decode-append :
    (o : IdObfuscator) (b : Text) (n : ℕ)
    → empty_text b ≡ false
    → base62_to_int b ≡ returned n
    → decode (o.prefix ++ b) o ≡ returned n
unfolding decode
decode-append o b n h k =
    rw (append_not_empty o.prefix b h, startswith-append o.prefix b, drop-append o.prefix b) k

decode-token_of : (o : IdObfuscator) (n : ℕ) → decode (token_of o n) o ≡ returned n
decode-token_of o n =
    decode-append o (padded o (int_to_base62 n)) n
      (padded_not_empty o (int_to_base62 n) (int_to_base62_not_empty n)) (read_padded o n)

-- A number that is not negative has a token, and the token is read back as the number, whatever the
-- prefix and the least length are.
pub decode-encode : (o : IdObfuscator) (n : ℕ) → encode (pos n) o >>= (λ t. decode t o) ≡ returned n
unfolding encode
decode-encode o n = decode-token_of o n

-- A text without the separator of composite tokens.
abbrev pub Plain : Text → Type 0
Plain s = All (λ c. c == b'-' ≡ false) s

split-Plain : (s : Text) → Plain s → split b'-' s ≡ s ∷ []
unfolding split
split-Plain [] h = refl
split-Plain (x ∷ s) h = rw (h.0, split-Plain s h.1) refl

split-append : (s t : Text) → Plain s → split b'-' (s ++ b'-' ∷ t) ≡ s ∷ split b'-' t
unfolding split
split-append [] t h = refl
split-append (x ∷ s) t h = rw (h.0, split-append s t h.1) refl

required-none : (o : Option ℕ) (idx : ℕ) → o ≡ none → required value_error o ≢ returned idx
required-none none idx e p = ground arith
required-none (some i) idx e p = ground arith

-- What is read as a number has no separator.
find_index-dash : find_index b'-' ≡ none
unfolding find_index
find_index-dash = refl

not_dash : (c idx : ℕ) → required value_error (find_index c) ≡ returned idx → c == b'-' ≡ false
not_dash c idx p = elim (Bool-cases (c == b'-')) [
  | inl e ↦
      absurd (required-none (find_index c) idx (ap find_index (ground arith) ∙ find_index-dash) p)
  | inr e ↦ e
]

read-Plain : (num : ℕ) (s : Text) {n : ℕ} → read_from num s ≡ returned n → Plain s
read-Plain num [] h = tt
read-Plain num (c ∷ s) h =
    bind-elim (required value_error (find_index c)) (λ idx. read_from (num * 62 + idx) s) h
      (λ idx p q. (not_dash c idx p, read-Plain (num * 62 + idx) s q))

append-Plain : (s t : Text) → Plain s → Plain t → Plain (s ++ t)
append-Plain [] t h k = k
append-Plain (c ∷ s) t h k = (h.0, append-Plain s t h.1 k)

token_of-Plain : (o : IdObfuscator) (n : ℕ) → Plain o.prefix → Plain (token_of o n)
token_of-Plain o n h =
    append-Plain o.prefix (padded o (int_to_base62 n)) h
      (read-Plain 0 (padded o (int_to_base62 n)) (read_padded o n))

split-join_dash :
    (o : IdObfuscator) (n : ℕ) (ns : List ℕ)
    → Plain o.prefix
    → split b'-' (join_dash (map (token_of o) (n ∷ ns))) ≡ map (token_of o) (n ∷ ns)
split-join_dash o n [] h = split-Plain (token_of o n) (token_of-Plain o n h)
split-join_dash o n (m ∷ ns) h =
    split-append (token_of o n) (join_dash (map (token_of o) (m ∷ ns))) (token_of-Plain o n h)
    ∙ ap (◌∷◌ (token_of o n)) (split-join_dash o m ns h)

each-encode :
    (o : IdObfuscator) (ns : List ℕ)
    → each (λ k. encode k o) (map pos ns) ≡ returned (map (token_of o) ns)
unfolding encode
each-encode o [] = refl
each-encode o (n ∷ ns) = rw (each-encode o ns) refl

each-decode :
    (o : IdObfuscator) (ns : List ℕ) → each (λ t. decode t o) (map (token_of o) ns) ≡ returned ns
each-decode o [] = refl
each-decode o (n ∷ ns) = rw (decode-token_of o n, each-decode o ns) refl

encode_many-eq :
    (o : IdObfuscator) (n : ℕ) (ns : List ℕ)
    → encode_many (map pos (n ∷ ns)) o ≡ returned (join_dash (map (token_of o) (n ∷ ns)))
unfolding encode_many
encode_many-eq o n ns = rw (each-encode o (n ∷ ns)) refl

join_not_empty :
    (o : IdObfuscator) (n : ℕ) (ns : List ℕ)
    → empty_text (join_dash (map (token_of o) (n ∷ ns))) ≡ false
join_not_empty o n [] =
    append_not_empty o.prefix (padded o (int_to_base62 n))
      (padded_not_empty o (int_to_base62 n) (int_to_base62_not_empty n))
join_not_empty o n (m ∷ ns) =
    append_not_empty (token_of o n) (b'-' ∷ join_dash (map (token_of o) (m ∷ ns))) refl

decode_many-eq :
    (o : IdObfuscator) (t : Text)
    → empty_text t ≡ false
    → decode_many t o ≡ each (λ part. decode part o) (split b'-' t)
unfolding decode_many
decode_many-eq o [] h = absurd (ground arith)
decode_many-eq o (c ∷ t) h = refl

-- Where the prefix has no dash, the composite token of numbers that are not negative, one at least, is
-- read back as the numbers, in their order.
pub decode_many-encode_many :
    (o : IdObfuscator) (n : ℕ) (ns : List ℕ)
    → Plain o.prefix
    → encode_many (map pos (n ∷ ns)) o >>= (λ t. decode_many t o) ≡ returned (n ∷ ns)
decode_many-encode_many o n ns h =
    let t = join_dash (map (token_of o) (n ∷ ns)) in
    ap (λ m. m >>= (λ t. decode_many t o)) (encode_many-eq o n ns)
    ∙ decode_many-eq o t (join_not_empty o n ns)
    ∙ ap (each (λ part. decode part o)) (split-join_dash o n ns h)
    ∙ each-decode o (n ∷ ns)
