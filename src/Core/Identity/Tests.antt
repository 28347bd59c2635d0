-- ===== src/Core/Identity/Tests.antt =====
-- Tokens of an obfuscator, and the theorems on them at concrete numbers.
use hexastack.Base.{◌≡◌, refl, [], ◌∷◌}
use hexastack.Base.Int.{pos, negsuc}
use hexastack.Base.Text.{codes, split}
use hexastack.Base.Outcome.{returned, raised, value_error, ◌>>=◌}
use hexastack.Core.Identity.{
  IdObfuscator, init, char_at, find_index, chars_of, encode, decode, encode_many, decode_many,
}
use hexastack.Core.Identity.Tokens.{decode-encode, decode_many-encode_many}

program : Unit {0}
unfolding init char_at find_index chars_of encode decode encode_many decode_many split
program = tt

abbrev plain : IdObfuscator
plain = record { min_length = 4; prefix = codes "it_" }

abbrev dashed : IdObfuscator
dashed = record { min_length = 0; prefix = codes "it-" }

negative_length : init (negsuc 0) [] ≡ raised value_error
unfolding program
negative_length = refl

large_number : encode (pos 3905) plain ≡ returned (codes "it_010Z")
unfolding program
large_number = refl

several_numbers : encode_many (pos 61 ∷ pos 0 ∷ []) plain ≡ returned (codes "it_000Z-it_0000")
unfolding program
several_numbers = refl

negative_number : encode_many (pos 1 ∷ negsuc 0 ∷ []) plain ≡ raised value_error
unfolding program
negative_number = refl

other_prefix : decode (codes "x_1") plain ≡ raised value_error
unfolding program
other_prefix = refl

no_token : decode_many [] plain ≡ raised value_error
unfolding program
no_token = refl

-- With a dash in the prefix, a token of several numbers is not read back.
dash_in_prefix :
    encode_many (pos 1 ∷ []) dashed >>= (λ t. decode_many t dashed) ≡ raised value_error
unfolding program
dash_in_prefix = refl

decode-encode_example : encode (pos 3905) plain >>= (λ t. decode t plain) ≡ returned 3905
decode-encode_example = decode-encode plain 3905

decode_many-encode_many_example :
    encode_many (pos 61 ∷ pos 0 ∷ []) plain >>= (λ t. decode_many t plain) ≡ returned (61 ∷ 0 ∷ [])
decode_many-encode_many_example =
    decode_many-encode_many plain 61 (0 ∷ []) (refl, (refl, (refl, tt)))
