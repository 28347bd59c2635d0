-- ===== src/Auth/Lifecycle/Logins.antt =====
-- What lets a user in.
use mathlib.Core.Path.{subst}
use hexastack.Base.{
  ℕ, String, not, if◌then◌else◌, ◌≡◌, ◌≢◌, refl, sym, ap, ◌∙◌, inl, inr, Option, none, some, List,
  [], ◌∷◌, ◌++◌, arith, Option-cases, Bool-cases,
}
use hexastack.Base.Text.{Text, lower}
use hexastack.Base.Outcome.{
  returned, raised, account_inactive, invalid_credentials, user_already_exists,
}
use hexastack.Dict.{Dict, lookup, insert, string_key, text_key, pair_key, lookup-insert_self}
use hexastack.Auth.Users.{
  TokenType, password_reset, OAuthAccount, VerificationToken, User, UserRepository, TokenStore,
  get_by_id, get_by_email, get_by_oauth, oauth_key, user_of, link_all, save, stamped, normal,
  consume_token,
}
use hexastack.Auth.Users.Index.{Indexed, get_by_email-listed, get_by_email-Indexed}
use hexastack.Auth.Lifecycle.{
  Handlers, Accounts, RegisterUserCommand, OAuthLoginCommand, saved, registered, register_user,
  authenticate_user, check_user, reset_password, oauth_login, provisioned, linked, with_user,
  redeem, same_type, with_password,
}

-- A user that was saved is found by every spelling of the address.
get_by_email-save :
    (now : ℕ) (email : Text) (u : User) (r : UserRepository)
    → u.id ≢ ""
    → normal email ≡ normal u.email
    → get_by_email email (save now u r) ≡ some (stamped now u)
unfolding save
get_by_email-save now email u r n e =
    get_by_email-listed email u.id (stamped now u) (save now u r) n
      (subst (λ z. lookup z (insert (normal u.email) u.id r.users_by_email) ≡ some u.id) (sym e)
        (lookup-insert_self (normal u.email) u.id r.users_by_email))
      (lookup-insert_self u.id (stamped now u) r.users_by_id)

module _ (h : Handlers) (now : ℕ) where
  -- A stored user with this password is let in exactly if it is active.
  check_user-password :
      (p : Text) (u : User)
      → u.hashed_password ≡ some (h.hasher.hash_password p)
      → check_user h now p u ≡ (if u.is_active then returned u else raised account_inactive)
  check_user-password p u e = elim (Bool-cases u.is_active) [
    | inl q ↦ rw (e, h.hasher.hashed p, h.hasher.verifies p, q) refl
    | inr q ↦ rw (e, h.hasher.hashed p, h.hasher.verifies p, q) refl
  ]

  -- With any password, the hasher decides.
  check_user-any :
      (p q : Text) (u : User)
      → u.hashed_password ≡ some (h.hasher.hash_password p)
      → check_user h now q u ≡ (
          if u.is_active
          then (if h.hasher.verify_password q (h.hasher.hash_password p)
              then returned u
              else raised invalid_credentials)
          else raised account_inactive)
  check_user-any p q u e =
      let checked = h.hasher.verify_password q (h.hasher.hash_password p) in
      elim (Bool-cases u.is_active) [
        | inr no_ ↦ rw (e, h.hasher.hashed p, no_) refl
        | inl yes_ ↦ elim (Bool-cases checked) [
          | inl v ↦ rw (e, h.hasher.hashed p, yes_, v) refl
          | inr v ↦ rw (e, h.hasher.hashed p, yes_, v) refl
        ]
      ]

  authenticate_user-any :
      (email p q : Text) (u : User) (a : Accounts)
      → get_by_email email a.users ≡ some u
      → u.hashed_password ≡ some (h.hasher.hash_password p)
      → authenticate_user h now email q a ≡ (
          if u.is_active
          then (if h.hasher.verify_password q (h.hasher.hash_password p)
              then returned u
              else raised invalid_credentials)
          else raised account_inactive)
  unfolding authenticate_user
  authenticate_user-any email p q u a found e = rw found (check_user-any p q u e)

  authenticate_user-found :
      (email p : Text) (u : User) (a : Accounts)
      → get_by_email email a.users ≡ some u
      → u.hashed_password ≡ some (h.hasher.hash_password p)
      → authenticate_user h now email p a
        ≡ (if u.is_active then returned u else raised account_inactive)
  unfolding authenticate_user
  authenticate_user-found email p u a found e = rw found (check_user-password p u e)

  -- What a redemption that returns has done.
  record Redeemed (change : User → User) (users : UserRepository) (u : User) (b : Accounts)
      : Type 0 where
    target : String
    before : User
    stored : lookup target users.users_by_id ≡ some before
    result : u ≡ stamped now (change before)
    after : b.users ≡ save now (change before) users

  with_user-Redeemed :
      (id : String) (o : Option User) (change : User → User) (a : Accounts) (u : User)
      → lookup id a.users.users_by_id ≡ o
      → (with_user h now o change a).0 ≡ returned u
      → Redeemed change a.users u (with_user h now o change a).1
  unfolding saved
  with_user-Redeemed id none change a u f e = absurd (ground arith)
  with_user-Redeemed id (some v) change a u f e = record {
    target = id;
    before = v;
    stored = f;
    result = ground arith;
    after = refl;
  }

  redeem-Redeemed :
      (kind : TokenType) (change : User → User) (t : Option VerificationToken × TokenStore)
      (users : UserRepository) (u : User)
      → (redeem h now kind change t users).0 ≡ returned u
      → Redeemed change users u (redeem h now kind change t users).1
  redeem-Redeemed kind change (none, tokens) users u e = absurd (ground arith)
  redeem-Redeemed kind change (some t, tokens) users u e =
      elim (Bool-cases (not (same_type h now t.token_type kind))) [
        | inl q ↦ absurd (ground arith)
        | inr q ↦
            let a : Accounts = record { users = users; tokens = tokens } in
            rw q (
              with_user-Redeemed t.user_id (get_by_id t.user_id users) change a u refl
                (ground arith))
      ]

-- When a password reset on an indexed repository returns a user, then in the state that the reset leaves,
-- before any other call, an attempt to log in with any spelling of the user's address depends on the new
-- password alone. An active user is let in by the new password and by any other that the hasher verifies
-- against the new one's hash; every other password, an old one too, gives `InvalidCredentialsError`. A user
-- who is not active gets `AccountInactiveError` by any password.
pub reset_password-authenticate :
    (h : Handlers) (now later : ℕ) (token : String) (p q email : Text) (a : Accounts) (u : User)
    → Indexed a.users
    → (reset_password h now token p a).0 ≡ returned u
    → normal email ≡ normal u.email
    → let b = (reset_password h now token p a).1 in
      (authenticate_user h later email p b
        ≡ (if u.is_active then returned u else raised account_inactive))
      × (authenticate_user h later email q b ≡ (
          if u.is_active
          then (if h.hasher.verify_password q (h.hasher.hash_password p)
              then returned u
              else raised invalid_credentials)
          else raised account_inactive))
unfolding reset_password
reset_password-authenticate h now later token p q email a u x e s =
    let change = with_password h now p in
    let d =
      redeem-Redeemed h now password_reset change (consume_token now token a.tokens) a.users u e in
    let v = change d.before in
    let own = x.owns d.target d.before d.stored in
    let saved_user : get_by_email email (save now v a.users) ≡ some (stamped now v) =
      get_by_email-save now email v a.users (λ z. own.nonempty (sym own.own_id ∙ z))
        (s ∙ ap (λ z. normal z.email) d.result) in
    let b = (reset_password h now token p a).1 in
    let found = ap (get_by_email email) d.after ∙ saved_user ∙ ap some (sym d.result) in
    let hashed = ap (λ z. z.hashed_password) d.result in
    (
      authenticate_user-found h later email p u b found hashed,
      authenticate_user-any h later email p q u b found hashed,
    )

register_user_taken :
    (h : Handlers) (now : ℕ) (cmd : RegisterUserCommand) (id token : String) (u : User)
    (a : Accounts)
    → get_by_email cmd.email a.users ≡ some u
    → register_user h now cmd id token a ≡ (raised user_already_exists, a)
unfolding register_user
register_user_taken h now cmd id token u a e = rw e refl

-- Once a registration under a non-empty identifier has returned, the password with any spelling of the
-- address lets the user in if the account is active, and a registration with any spelling of that
-- address raises `UserAlreadyExistsError` and changes nothing.
register_user-authenticate :
    (h : Handlers) (now now' : ℕ) (cmd cmd' : RegisterUserCommand) (id token id' token' : String)
    (a : Accounts)
    → id ≢ ""
    → get_by_email cmd.email a.users ≡ none
    → normal cmd'.email ≡ normal cmd.email
    → let u = registered h now cmd id in
      let b = (register_user h now cmd id token a).1 in
      ((register_user h now cmd id token a).0 ≡ returned (u, token))
      × (authenticate_user h now' cmd'.email cmd.password b
          ≡ (if cmd.is_active then returned u else raised account_inactive))
      × (register_user h now' cmd' id' token' b ≡ (raised user_already_exists, b))
unfolding register_user
register_user-authenticate h now now' cmd cmd' id token id' token' a n e s =
    let u = registered h now cmd id in
    let found = get_by_email-save now cmd'.email u a.users n s in
    rw e (
      refl,
      authenticate_user-found h now' cmd'.email cmd.password u _ found refl,
      register_user_taken h now' cmd' id' token' u _ found,
    )

link_all-last :
    (accs : List OAuthAccount) (acc : OAuthAccount) (id : String) (d : Dict (Text × Text) String)
    → lookup (oauth_key acc.provider acc.account_id) (link_all (accs ++ acc ∷ []) id d) ≡ some id
link_all-last [] acc id d = lookup-insert_self (oauth_key acc.provider acc.account_id) id d
link_all-last (x ∷ accs) acc id d =
    link_all-last accs acc id (insert (oauth_key x.provider x.account_id) id d)

user_of_nonempty :
    (now : ℕ) (u : User) (r : UserRepository)
    → u.id ≢ ""
    → user_of (some u.id) (save now u r) ≡ some (stamped now u)
unfolding save
user_of_nonempty now u r n = ground (arith, lookup-insert_self u.id (stamped now u) r.users_by_id)

-- A user that was saved with a new last account is found by it.
get_by_oauth-save :
    (h : Handlers) (now : ℕ) (cmd : OAuthLoginCommand) (link : String) (u : User)
    (r : UserRepository)
    → u.id ≢ ""
    → get_by_oauth cmd.provider cmd.account_id (save now (linked h now cmd link u) r)
      ≡ some (stamped now (linked h now cmd link u))
unfolding save
get_by_oauth-save h now cmd link u r n =
    rw (link_all-last u.oauth_accounts _ u.id r.oauth_index)
      (user_of_nonempty now (linked h now cmd link u) r n)

oauth_login_known :
    (h : Handlers) (now : ℕ) (cmd cmd' : OAuthLoginCommand) (id link : String) (u : User)
    (a : Accounts)
    → lower cmd'.provider ≡ lower cmd.provider
    → cmd'.account_id ≡ cmd.account_id
    → get_by_oauth cmd.provider cmd.account_id a.users ≡ some u
    → oauth_login h now cmd' id link a ≡ (returned u, a)
unfolding oauth_login
oauth_login_known h now cmd cmd' id link u a p q e =
    let same_key : oauth_key cmd'.provider cmd'.account_id ≡ oauth_key cmd.provider cmd.account_id =
      λ i. (p i, q i) in
    let found : get_by_oauth cmd'.provider cmd'.account_id a.users ≡ some u =
      ap (λ z. user_of (lookup z a.users.oauth_index) a.users) same_key ∙ e in
    rw found refl

-- Whatever the first login found, a second one with the same provider, in any case, and the same account
-- gives the same user and changes nothing, if the repository is indexed and a new user's identifier is
-- not empty.
pub oauth_login-again :
    (h : Handlers) (now now' : ℕ) (cmd cmd' : OAuthLoginCommand) (id link id' link' : String)
    (a : Accounts)
    → Indexed a.users
    → id ≢ ""
    → lower cmd'.provider ≡ lower cmd.provider
    → cmd'.account_id ≡ cmd.account_id
    → let (o, b) = oauth_login h now cmd id link a in oauth_login h now' cmd' id' link' b ≡ (o, b)
unfolding oauth_login saved
oauth_login-again h now now' cmd cmd' id link id' link' a x n p q =
    elim (Option-cases (get_by_oauth cmd.provider cmd.account_id a.users)) [
      | inr (u, e) ↦ rw e (oauth_login_known h now' cmd cmd' id' link' u a p q e)
      | inl e ↦ elim (Option-cases (get_by_email cmd.user_email a.users)) [
        | inr (u, f) ↦
            let stored = (get_by_email-Indexed a.users x cmd.user_email u f).0 in
            rw (e, f)
              (oauth_login_known h now' cmd cmd' id' link' _ _ p q
                (get_by_oauth-save h now cmd link u a.users (x.owns u.id u stored).nonempty))
        | inl f ↦
            let new = provisioned h now cmd id in
            rw (e, f)
              (oauth_login_known h now' cmd cmd' id' link' _ _ p q
                (get_by_oauth-save h now cmd link (stamped now new) (save now new a.users) n))
      ]
    ]
