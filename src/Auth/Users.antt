-- ===== src/Auth/Users.antt =====
-- packages/hexastack_auth/src/hexastack_auth/domain/user.py and adapters/user_repository.py. A handler that
-- changes a stored user saves it before it ends, so a changed user is written back by `save`. The time is
-- an argument, the same throughout a call.
pub mod Index
use hexastack.Base.{
  ℕ, String, Bool, true, false, not, if◌then◌else◌, same_str, Option, none, some, List, [], ◌∷◌,
  leb,
}
use hexastack.Base.Text.{Text, strip, lower}
use hexastack.Dict.{Dict, lookup, insert, erase, string_key, text_key, pair_key}

pub data TokenType : Type 0 where
  email_verification password_reset : TokenType

pub record OAuthAccount : Type 0 where
  pub provider : Text
  pub account_id : Text
  pub user_id : String
  pub id : String
  pub account_email : Option Text

pub record VerificationToken : Type 0 where
  pub token : String
  pub user_id : String
  pub token_type : TokenType
  pub expires_at : ℕ

pub record User : Type 0 where
  pub email : Text
  pub id : String
  pub hashed_password : Option Text
  pub roles : List String
  pub is_active : Bool
  pub is_verified : Bool
  pub created_at : ℕ
  pub updated_at : ℕ
  pub oauth_accounts : List OAuthAccount

abbrev pub is_expired : ℕ → VerificationToken → Bool
is_expired now t = leb t.expires_at now

-- `InMemoryUserRepository`
pub record UserRepository : Type 0 where
  pub users_by_id : Dict String User
  pub users_by_email : Dict Text String
  pub oauth_index : Dict (Text × Text) String

-- `email.lower().strip()`
abbrev pub normal : Text → Text
normal email = strip (lower email)

abbrev pub get_by_id : String → UserRepository → Option User
get_by_id id r = lookup id r.users_by_id

-- `self._users_by_id.get(user_id) if user_id else None`
abbrev pub user_of : Option String → UserRepository → Option User
user_of none r = none
user_of (some id) r = if same_str id "" then none else lookup id r.users_by_id

abbrev pub get_by_email : Text → UserRepository → Option User
get_by_email email r = user_of (lookup (normal email) r.users_by_email) r

abbrev pub oauth_key : Text → Text → Text × Text
oauth_key provider account_id = (lower provider, account_id)

abbrev pub get_by_oauth : Text → Text → UserRepository → Option User
get_by_oauth provider account_id r =
    user_of (lookup (oauth_key provider account_id) r.oauth_index) r

-- The loop of `save` over the linked accounts.
abbrev pub link_all :
    List OAuthAccount → String → Dict (Text × Text) String → Dict (Text × Text) String
link_all [] id d = d
link_all (acc ∷ rest) id d = link_all rest id (insert (oauth_key acc.provider acc.account_id) id d)

-- `save` returns the user with the time of the update.
abbrev pub stamped : ℕ → User → User
stamped now u = record u { updated_at = now }

unfoldable pub save : ℕ → User → UserRepository → UserRepository
save now u r = record {
  users_by_id = insert u.id (stamped now u) r.users_by_id;
  users_by_email = insert (normal u.email) u.id r.users_by_email;
  oauth_index = link_all u.oauth_accounts u.id r.oauth_index;
}

-- The loop of `delete` over the linked accounts.
abbrev unlink_all : List OAuthAccount → Dict (Text × Text) String → Dict (Text × Text) String
unlink_all [] d = d
unlink_all (acc ∷ rest) d = unlink_all rest (erase (oauth_key acc.provider acc.account_id) d)

abbrev delete_found : Option User → String → UserRepository → Bool × UserRepository
delete_found none id r = (false, r)
delete_found (some u) id r = (
  true,
  record {
    users_by_id = erase id r.users_by_id;
    users_by_email = erase (normal u.email) r.users_by_email;
    oauth_index = unlink_all u.oauth_accounts r.oauth_index;
  },
)

unfoldable pub delete : String → UserRepository → Bool × UserRepository
delete id r = delete_found (lookup id r.users_by_id) id r

-- `_tokens` of `InMemoryTokenStore`
abbrev pub TokenStore : Type 0
TokenStore = Dict String VerificationToken

unfoldable pub store_token : VerificationToken → TokenStore → TokenStore
store_token t s = insert t.token t s

abbrev get_found :
    ℕ → String → Option VerificationToken → TokenStore → Option VerificationToken × TokenStore
get_found now token none s = (none, s)
get_found now token (some stored) s =
    if is_expired now stored then (none, erase token s) else (some stored, s)

pub get_token : ℕ → String → TokenStore → Option VerificationToken × TokenStore
get_token now token s = get_found now token (lookup token s) s

abbrev pub unexpired : ℕ → Option VerificationToken → Option VerificationToken
unexpired now none = none
unexpired now (some stored) = if is_expired now stored then none else some stored

unfoldable pub consume_token : ℕ → String → TokenStore → Option VerificationToken × TokenStore
consume_token now token s = (unexpired now (lookup token s), erase token s)
