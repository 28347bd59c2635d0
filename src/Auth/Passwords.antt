-- ===== src/Auth/Passwords.antt =====
-- `PasswordHasherPort` of packages/hexastack_auth/src/hexastack_auth/ports/password.py as an interface, and
-- `InMemoryPasswordHasher` of adapters/in_memory.py. A password is the text of its characters.
use hexastack.Base.{Bool, true, false, ◌≡◌, refl, [], ◌∷◌, ◌++◌}
use hexastack.Base.Text.{Text, codes, same, same_refl}

-- `bool(s)` of a text.
abbrev pub is_nonempty : Text → Bool
is_nonempty [] = false
is_nonempty (c ∷ s) = true

-- The port: a password that was hashed is verified, and no hash is empty.
pub record PasswordHasher : Type 0 where
  pub hash_password : Text → Text
  pub verify_password : Text → Text → Bool
  pub verifies : (p : Text) → verify_password p (hash_password p) ≡ true
  pub hashed : (p : Text) → is_nonempty (hash_password p) ≡ true

abbrev in_memory_hash : Text → Text
in_memory_hash plain = codes "mock_hash:" ++ plain

abbrev in_memory_verify : Text → Text → Bool
in_memory_verify plain hashed = same hashed (in_memory_hash plain)

unfoldable pub in_memory_hasher : PasswordHasher
in_memory_hasher = record {
  hash_password = in_memory_hash;
  verify_password = in_memory_verify;
  verifies = λ p. same_refl (in_memory_hash p);
  hashed = λ p. refl;
}
