-- ===== src/Auth/Lifecycle/Calls.antt =====
-- Sequences of calls: the repository stays indexed.
use mathlib.Core.Path.{subst}
use hexastack.Base.{
  ℕ, String, not, ◌≡◌, ◌≢◌, refl, sym, ap, ◌∙◌, inl, inr, Option, none, some, List, [], ◌∷◌,
  Option-cases, Bool-cases,
}
use hexastack.Base.Text.{Text}
use hexastack.Dict.{lookup, string_key, text_key, lookup-insert_self}
use hexastack.Auth.Users.{
  TokenType, VerificationToken, User, UserRepository, TokenStore, get_by_id, get_by_email,
  get_by_oauth, save, stamped, normal, consume_token,
}
use hexastack.Auth.Users.Index.{
  Indexed, save-Indexed, save_new-Indexed, get_by_email-Indexed, get_by_email_unlisted,
}
use hexastack.Auth.Lifecycle.{
  Handlers, Accounts, RegisterUserCommand, OAuthLoginCommand, saved, registered, register_user,
  verify_email, request_password_reset, reset_password, update_user_role, oauth_login, provisioned,
  linked, with_user, redeem, same_type,
}

-- A call of a handler that may change the state, with the fresh values that it draws.
pub data Call : Type 0 where
  registering : RegisterUserCommand → String → String → Call
  verifying : String → Call
  requesting : Text → String → Call
  resetting : String → Text → Call
  assigning : String → List String → Call
  logging_in : OAuthLoginCommand → String → String → Call

module _ (h : Handlers) where
  unfoldable pub step : ℕ → Call → Accounts → Accounts
  step now (registering cmd id token) a = (register_user h now cmd id token a).1
  step now (verifying token) a = (verify_email h now token a).1
  step now (requesting email token) a = (request_password_reset h now email token a).1
  step now (resetting token p) a = (reset_password h now token p a).1
  step now (assigning id roles) a = (update_user_role h now id roles a).1
  step now (logging_in cmd id link) a = (oauth_login h now cmd id link a).1

  unfoldable pub run : List (ℕ × Call) → Accounts → Accounts
  unfolding step
  run [] a = a
  run ((now, c) ∷ cs) a = run cs (step now c a)

  -- The identifier that a call may give to a new user is not in use.
  abbrev IsUnused : String → Accounts → Type 0
  IsUnused id a = (id ≢ "") × (lookup id a.users.users_by_id ≡ none)

  abbrev pub IsFresh : Call → Accounts → Type 0
  IsFresh (registering cmd id token) a = IsUnused id a
  IsFresh (logging_in cmd id link) a = IsUnused id a
  IsFresh (verifying token) a = Unit
  IsFresh (requesting email token) a = Unit
  IsFresh (resetting token p) a = Unit
  IsFresh (assigning id roles) a = Unit

  abbrev pub AllFresh : List (ℕ × Call) → Accounts → Type 0
  AllFresh [] a = Unit
  AllFresh ((now, c) ∷ cs) a = IsFresh c a × AllFresh cs (step now c a)

module _ (h : Handlers) where
  -- A change that keeps the identifier and the address.
  record KeepsKeys (change : User → User) : Type 0 where
    id_kept : (u : User) → (change u).id ≡ u.id
    email_kept : (u : User) → (change u).email ≡ u.email

  with_user-Indexed :
      (now : ℕ) (id : String) (change : User → User) (a : Accounts)
      → KeepsKeys change
      → Indexed a.users
      → Indexed (with_user h now (get_by_id id a.users) change a).1.users
  unfolding saved
  with_user-Indexed now id change a k x = elim (Option-cases (lookup id a.users.users_by_id)) [
    | inl e ↦ rw e x
    | inr (u, e) ↦ rw e (
        let own = (x.owns id u e).own_id in
        save-Indexed a.users x now (change u) u
          (subst (λ z. lookup z a.users.users_by_id ≡ some u) (sym (k.id_kept u ∙ own)) e)
          (ap normal (k.email_kept u)))
  ]

  redeem-Indexed :
      (now : ℕ) (kind : TokenType) (change : User → User)
      (t : Option VerificationToken × TokenStore) (users : UserRepository)
      → KeepsKeys change
      → Indexed users
      → Indexed (redeem h now kind change t users).1.users
  redeem-Indexed now kind change (none, tokens) users k x = x
  redeem-Indexed now kind change (some t, tokens) users k x =
      elim (Bool-cases (not (same_type h now t.token_type kind))) [
        | inl e ↦ rw e x
        | inr e ↦
            rw e (
              with_user-Indexed now t.user_id change (record { users = users; tokens = tokens }) k
                x)
      ]

  register_user-Indexed :
      (now : ℕ) (cmd : RegisterUserCommand) (id token : String) (a : Accounts)
      → IsUnused h id a
      → Indexed a.users
      → Indexed (register_user h now cmd id token a).1.users
  unfolding register_user
  register_user-Indexed now cmd id token a f x =
      elim (Option-cases (get_by_email cmd.email a.users)) [
        | inl e ↦ rw e (
            save_new-Indexed a.users x now (registered h now cmd id) f.1 f.0
              (get_by_email_unlisted a.users x cmd.email e))
        | inr (u, e) ↦ rw e x
      ]

  new_stored :
      (now : ℕ) (u : User) (r : UserRepository)
      → lookup u.id (save now u r).users_by_id ≡ some (stamped now u)
  unfolding save
  new_stored now u r = lookup-insert_self u.id (stamped now u) r.users_by_id

  oauth_login-Indexed :
      (now : ℕ) (cmd : OAuthLoginCommand) (id link : String) (a : Accounts)
      → IsUnused h id a
      → Indexed a.users
      → Indexed (oauth_login h now cmd id link a).1.users
  unfolding oauth_login saved
  oauth_login-Indexed now cmd id link a f x =
      elim (Option-cases (get_by_oauth cmd.provider cmd.account_id a.users)) [
        | inr (u, e) ↦ rw e x
        | inl e ↦ elim (Option-cases (get_by_email cmd.user_email a.users)) [
          | inr (u, q) ↦
              rw (e, q)
                (save-Indexed a.users x now (linked h now cmd link u) u
                  (get_by_email-Indexed a.users x cmd.user_email u q).0 refl)
          | inl q ↦
              let new = provisioned h now cmd id in
              let x' =
                save_new-Indexed a.users x now new f.1 f.0
                  (get_by_email_unlisted a.users x cmd.user_email q) in
              rw (e, q)
                (save-Indexed (save now new a.users) x' now
                  (linked h now cmd link (stamped now new)) (stamped now new)
                  (new_stored now new a.users) refl)
        ]
      ]

  request_users :
      (now : ℕ) (email : Text) (token : String) (a : Accounts)
      → Indexed a.users
      → Indexed (request_password_reset h now email token a).1.users
  unfolding request_password_reset
  request_users now email token a x = elim (Option-cases (get_by_email email a.users)) [
    | inl e ↦ rw e x
    | inr (u, e) ↦ rw e x
  ]

  step-Indexed :
      (now : ℕ) (c : Call) (a : Accounts)
      → IsFresh h c a
      → Indexed a.users
      → Indexed (step h now c a).users
  unfolding step verify_email reset_password update_user_role
  step-Indexed now (registering cmd id token) a f x = register_user-Indexed now cmd id token a f x
  step-Indexed now (verifying token) a f x =
      redeem-Indexed now _ _ (consume_token now token a.tokens) a.users
        (record { id_kept = λ u. refl; email_kept = λ u. refl }) x
  step-Indexed now (requesting email token) a f x = request_users now email token a x
  step-Indexed now (resetting token p) a f x =
      redeem-Indexed now _ _ (consume_token now token a.tokens) a.users
        (record { id_kept = λ u. refl; email_kept = λ u. refl }) x
  step-Indexed now (assigning id roles) a f x =
      with_user-Indexed now id _ a (record { id_kept = λ u. refl; email_kept = λ u. refl }) x
  step-Indexed now (logging_in cmd id link) a f x = oauth_login-Indexed now cmd id link a f x

  -- If no call gives a new user an identifier that is empty or in use, then after any sequence of calls
  -- from an indexed repository the stored users and the index of addresses agree: a stored user is found
  -- by its address, and an address leads to a stored user that has it.
  pub run-Indexed :
      (cs : List (ℕ × Call)) (a : Accounts)
      → AllFresh h cs a
      → Indexed a.users
      → Indexed (run h cs a).users
  unfolding run
  run-Indexed [] a f x = x
  run-Indexed ((now, c) ∷ cs) a f x =
      run-Indexed cs (step h now c a) f.1 (step-Indexed now c a f.0 x)
