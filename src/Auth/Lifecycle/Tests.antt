-- ===== src/Auth/Lifecycle/Tests.antt =====
-- Runs of the account handlers with the hasher in memory, and their theorems at concrete calls.
use text.Mathlib.TextEquality.{eq_iff}
use hexastack.Base.{
  ℕ, ℕ_discrete, String, String_discrete, Bool, true, false, ◌≡◌, ◌≢◌, refl, none, List, [], ◌∷◌,
  arith, if◌then◌else◌,
}
use hexastack.Base.Text.{codes, strip, lstrip, Text_discrete}
use hexastack.Base.Outcome.{
  Outcome, returned, raised, interrupted, invalid_token, account_inactive, invalid_credentials,
}
use hexastack.Auth.Passwords.{in_memory_hasher}
use hexastack.Auth.Users.{User, save, normal, store_token, consume_token, get_by_email}
use hexastack.Auth.Users.Index.{Indexed, empty-Indexed}
use hexastack.Auth.Lifecycle.{
  Handlers, Accounts, RegisterUserCommand, OAuthLoginCommand, saved, registered, register_user,
  verify_email, request_password_reset, reset_password, authenticate_user, update_user_role,
  oauth_login,
}
use hexastack.Auth.Lifecycle.Calls.{
  Call, registering, verifying, requesting, logging_in, step, run, run-Indexed,
}
use hexastack.Auth.Lifecycle.Single.{Refused, redeemed-Refused}
use hexastack.Auth.Lifecycle.Logins.{reset_password-authenticate, oauth_login-again}

program : Unit {0}
unfolding String_discrete ℕ_discrete Text_discrete strip lstrip save store_token consume_token saved
    register_user verify_email request_password_reset reset_password authenticate_user
    update_user_role oauth_login step run in_memory_hasher
program = tt

abbrev handlers : Handlers
handlers = record { hasher = in_memory_hasher; token_lifetime = 60 }

abbrev empty : Accounts
empty = record {
  users = record { users_by_id = []; users_by_email = []; oauth_index = [] };
  tokens = [];
}

abbrev join : String → String → RegisterUserCommand
join email password = record {
  email = codes email;
  password = codes password;
  roles = [];
  is_active = true;
  is_verified = false;
}

abbrev github : OAuthLoginCommand
github = record { provider = codes "GitHub"; account_id = codes "7"; user_email = codes "b@x" }

abbrev calls : List (ℕ × Call)
calls =
    (1, registering (join "A@x " "p") "u1" "t1")
    ∷ (2, verifying "t1")
    ∷ (3, requesting (codes "a@X") "t2")
    ∷ (4, logging_in github "u2" "l1")
    ∷ []

abbrev later : Accounts
later = run handlers calls empty

abbrev is_ok {ℓ} : {A : Type ℓ} → Outcome A → Bool
is_ok (returned a) = true
is_ok (raised e) = false
is_ok interrupted = false

-- The registered address is found in any spelling; a token is refused when it is used twice, when it is
-- of the other kind and at its expiry.
logins :
    (is_ok (authenticate_user handlers 5 (codes " a@X") (codes "p") later) ≡ true)
    × (authenticate_user handlers 5 (codes "a@x") (codes "q") later ≡ raised invalid_credentials)
    × ((verify_email handlers 5 "t1" later).0 ≡ raised invalid_token)
    × ((verify_email handlers 5 "t2" later).0 ≡ raised invalid_token)
    × ((reset_password handlers 63 "t2" (codes "n") later).0 ≡ raised invalid_token)
    × (is_ok (reset_password handlers 62 "t2" (codes "n") later).0 ≡ true)
unfolding program
logins = (refl, refl, refl, refl, refl, refl)

u1-ne-empty : ◌≢◌ {A = String} "u1" ""
u1-ne-empty p = ground (arith, eq_iff "u1" "")

u2-ne-empty : ◌≢◌ {A = String} "u2" ""
u2-ne-empty p = ground (arith, eq_iff "u2" "")

run-Indexed_example : Indexed later.users
unfolding program
run-Indexed_example =
    run-Indexed handlers calls empty ((u1-ne-empty, refl), (tt, (tt, ((u2-ne-empty, refl), tt))))
      empty-Indexed

t1-ne-t2 : ◌≢◌ {A = String} "t1" "t2"
t1-ne-t2 p = ground (arith, eq_iff "t1" "t2")

redeemed-Refused_example :
    let b =
      run handlers
        ((3, requesting (codes "a@x") "t2") ∷ [])
        (step handlers 2 (verifying "t1") empty) in
    Refused handlers 9 (verify_email handlers 9 "t1" b) b
    × Refused handlers 9 (reset_password handlers 9 "t1" (codes "n") b) b
redeemed-Refused_example =
    redeemed-Refused handlers "t1" (codes "n") 2 9 (verifying "t1")
      ((3, requesting (codes "a@x") "t2") ∷ []) empty refl (t1-ne-t2, tt)

abbrev the : Outcome User → User
the (returned u) = u
the (raised e) = registered handlers 0 (join "" "") ""
the interrupted = registered handlers 0 (join "" "") ""

abbrev renewed : User
renewed = the (reset_password handlers 62 "t2" (codes "n") later).0

reset_works : (reset_password handlers 62 "t2" (codes "n") later).0 ≡ returned renewed
unfolding program
reset_works = refl

same_address : normal (codes " a@X") ≡ normal renewed.email
unfolding program
same_address = refl

reset_password-authenticate_example :
    let b = (reset_password handlers 62 "t2" (codes "n") later).1 in
    (authenticate_user handlers 70 (codes " a@X") (codes "n") b
      ≡ (if renewed.is_active then returned renewed else raised account_inactive))
    × (authenticate_user handlers 70 (codes " a@X") (codes "o") b ≡ (
        if renewed.is_active
        then (if handlers.hasher.verify_password
              (codes "o")
              (handlers.hasher.hash_password (codes "n"))
            then returned renewed
            else raised invalid_credentials)
        else raised account_inactive))
reset_password-authenticate_example =
    reset_password-authenticate handlers 62 70 "t2" (codes "n") (codes "o") (codes " a@X") later
      renewed run-Indexed_example reset_works same_address

new_address : get_by_email (codes "c@x") later.users ≡ none
unfolding program
new_address = refl

c_same : normal (codes "C@x") ≡ normal (codes "c@x")
unfolding program
c_same = refl

oauth_login-again_example :
    let (o, b) = oauth_login handlers 8 github "u2" "l1" empty in
    oauth_login handlers 9 github "u1" "l2" b ≡ (o, b)
oauth_login-again_example =
    oauth_login-again handlers 8 9 github github "u2" "l1" "u1" "l2" empty empty-Indexed u2-ne-empty
      refl refl
