-- ===== src/Auth/Lifecycle.antt =====
-- packages/hexastack_auth/src/hexastack_auth/adapters/handlers.py: `UserLifecycleHandlers` over the
-- repository and the token store in memory. `now` is the time, the same throughout a call; fresh
-- identifiers and tokens are arguments.
pub mod Calls
pub mod Single
pub mod Logins
mod Tests
use hexastack.Base.{
  ℕ, ◌+◌, String, Bool, true, false, not, if◌then◌else◌, Option, none, some, List, [], ◌∷◌, ◌++◌,
}
use hexastack.Base.Text.{Text}
use hexastack.Base.Outcome.{
  Outcome, returned, raised, raise_if, required, ◌>>=◌, user_already_exists, user_not_found,
  invalid_token, invalid_credentials, account_inactive,
}
use hexastack.Auth.Passwords.{PasswordHasher, is_nonempty}
use hexastack.Auth.Users.{
  TokenType, email_verification, password_reset, OAuthAccount, VerificationToken, User,
  UserRepository, TokenStore, get_by_id, get_by_email, get_by_oauth, save, stamped, store_token,
  consume_token,
}

-- The parameters of `__init__`, and the state that the handlers work on.
pub record Handlers : Type 0 where
  pub hasher : PasswordHasher
  pub token_lifetime : ℕ

pub record Accounts : Type 0 where
  pub users : UserRepository
  pub tokens : TokenStore

pub record RegisterUserCommand : Type 0 where
  pub email : Text
  pub password : Text
  pub roles : List String
  pub is_active : Bool
  pub is_verified : Bool

pub record OAuthLoginCommand : Type 0 where
  pub provider : Text
  pub account_id : Text
  pub user_email : Text

-- `return self.user_repository.save(user)`
unfoldable pub saved : ℕ → User → Accounts → Outcome User × Accounts
saved now u a = (returned (stamped now u), record a { users = save now u a.users })

-- The default of `User.roles`.
abbrev default_roles : List String
default_roles = "user" ∷ []

module _ (h : Handlers) (now : ℕ) where
  abbrev pub registered : RegisterUserCommand → String → User
  registered cmd id = record {
    email = cmd.email;
    id = id;
    hashed_password = some (h.hasher.hash_password cmd.password);
    roles = cmd.roles;
    is_active = cmd.is_active;
    is_verified = cmd.is_verified;
    created_at = now;
    updated_at = now;
    oauth_accounts = [];
  }

  abbrev issued : String → String → TokenType → VerificationToken
  issued token user_id kind = record {
    token = token;
    user_id = user_id;
    token_type = kind;
    expires_at = now + h.token_lifetime;
  }

  abbrev register_in :
      Option User
      → RegisterUserCommand
      → String
      → String
      → Accounts
      → Outcome (User × String) × Accounts
  register_in (some existing) cmd id token a = (raised user_already_exists, a)
  register_in none cmd id token a = (
    returned (stamped now (registered cmd id), token),
    record {
      users = save now (registered cmd id) a.users;
      tokens = store_token (issued token id email_verification) a.tokens;
    },
  )

  -- `id` and `token` are the fresh identifier and the fresh token.
  unfoldable pub register_user :
      RegisterUserCommand → String → String → Accounts → Outcome (User × String) × Accounts
  register_user cmd id token a = register_in (get_by_email cmd.email a.users) cmd id token a

  abbrev pub with_user : Option User → (User → User) → Accounts → Outcome User × Accounts
  with_user none change a = (raised user_not_found, a)
  with_user (some u) change a = saved now (change u) a

  abbrev pub same_type : TokenType → TokenType → Bool
  same_type email_verification email_verification = true
  same_type password_reset password_reset = true
  same_type email_verification password_reset = false
  same_type password_reset email_verification = false

  -- What `verify_email` and `reset_password` do with the token that they have consumed.
  abbrev pub redeem :
      TokenType
      → (User → User)
      → Option VerificationToken × TokenStore
      → UserRepository
      → Outcome User × Accounts
  redeem kind change (none, tokens) users =
      (raised invalid_token, record { users = users; tokens = tokens })
  redeem kind change (some t, tokens) users =
      let a : Accounts = record { users = users; tokens = tokens } in
      if not (same_type t.token_type kind)
      then (raised invalid_token, a)
      else with_user (get_by_id t.user_id users) change a

  abbrev pub verified : User → User
  verified u = record u { is_verified = true }

  unfoldable pub verify_email : String → Accounts → Outcome User × Accounts
  verify_email token a =
      redeem email_verification verified (consume_token now token a.tokens) a.users

  abbrev reset_for : Option User → String → Accounts → Option String × Accounts
  reset_for none token a = (none, a)
  reset_for (some u) token a =
      (some token, record a { tokens = store_token (issued token u.id password_reset) a.tokens })

  unfoldable pub request_password_reset : Text → String → Accounts → Option String × Accounts
  request_password_reset email token a = reset_for (get_by_email email a.users) token a

  abbrev pub with_password : Text → User → User
  with_password p u = record u { hashed_password = some (h.hasher.hash_password p) }

  unfoldable pub reset_password : String → Text → Accounts → Outcome User × Accounts
  reset_password token new_password a =
      redeem password_reset (with_password new_password) (consume_token now token a.tokens) a.users

  -- `not user.hashed_password`
  abbrev no_password : Option Text → Bool
  no_password none = true
  no_password (some hashed) = not (is_nonempty hashed)

  abbrev matches : Text → Option Text → Bool
  matches p none = false
  matches p (some hashed) = h.hasher.verify_password p hashed

  abbrev pub check_user : Text → User → Outcome User
  check_user password u = raise_if (no_password u.hashed_password) invalid_credentials >>= λ _.
      raise_if (not u.is_active) account_inactive >>= λ _.
      raise_if (not (matches password u.hashed_password)) invalid_credentials >>= λ _. returned u

  unfoldable pub authenticate_user : Text → Text → Accounts → Outcome User
  authenticate_user email password a =
      required invalid_credentials (get_by_email email a.users) >>= check_user password

  unfoldable pub update_user_role : String → List String → Accounts → Outcome User × Accounts
  update_user_role id roles a = with_user (get_by_id id a.users) (λ u. record u { roles = roles }) a

  abbrev pub provisioned : OAuthLoginCommand → String → User
  provisioned cmd id = record {
    email = cmd.user_email;
    id = id;
    hashed_password = none;
    roles = default_roles;
    is_active = true;
    is_verified = true;
    created_at = now;
    updated_at = now;
    oauth_accounts = [];
  }

  abbrev pub linked : OAuthLoginCommand → String → User → User
  linked cmd link u = record u {
    oauth_accounts =
        u.oauth_accounts
        ++ record {
          provider = cmd.provider;
          account_id = cmd.account_id;
          user_id = u.id;
          id = link;
          account_email = some cmd.user_email;
        }
          ∷ [];
  }

  -- The login without a linked account: by e-mail, or with a user that is saved first.
  abbrev link_user :
      Option User → OAuthLoginCommand → String → String → Accounts → Outcome User × Accounts
  link_user (some u) cmd id link a = saved now (linked cmd link u) a
  link_user none cmd id link a =
      let new = provisioned cmd id in
      saved now (linked cmd link (stamped now new)) (record a { users = save now new a.users })

  abbrev login_in :
      Option User → OAuthLoginCommand → String → String → Accounts → Outcome User × Accounts
  login_in (some existing) cmd id link a = (returned existing, a)
  login_in none cmd id link a = link_user (get_by_email cmd.user_email a.users) cmd id link a

  -- `id` and `link` are the identifiers of a new user and of the new link.
  unfoldable pub oauth_login :
      OAuthLoginCommand → String → String → Accounts → Outcome User × Accounts
  oauth_login cmd id link a =
      login_in (get_by_oauth cmd.provider cmd.account_id a.users) cmd id link a
