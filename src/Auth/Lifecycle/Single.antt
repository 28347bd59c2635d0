-- ===== src/Auth/Lifecycle/Single.antt =====
-- A token is good for one call.
use mathlib.Core.Path.{subst}
use hexastack.Base.{
  ℕ, String, String_discrete, not, ◌≡◌, ◌≢◌, refl, sym, ap, ◌∙◌, inl, inr, Option, none, some, List,
  [], ◌∷◌, Option-cases, Bool-cases,
}
use hexastack.Base.Text.{Text}
use hexastack.Base.Outcome.{Outcome, raised, invalid_token}
use hexastack.Dict.{lookup, erase, string_key, lookup-insert_ne, lookup-erase_self, lookup-erase_ne}
use hexastack.Auth.Users.{
  TokenType, VerificationToken, User, UserRepository, TokenStore, get_by_id, get_by_email,
  get_by_oauth, consume_token, store_token,
}
use hexastack.Auth.Lifecycle.{
  Handlers, Accounts, RegisterUserCommand, OAuthLoginCommand, saved, register_user, verify_email,
  request_password_reset, reset_password, update_user_role, oauth_login, with_user, redeem,
  same_type,
}
use hexastack.Auth.Lifecycle.Calls.{
  Call, registering, verifying, requesting, resetting, assigning, logging_in, step, run,
}

-- The call does not draw the token anew.
abbrev pub NotIssued : String → Call → Type 0
NotIssued t (registering cmd id token) = t ≢ token
NotIssued t (requesting email token) = t ≢ token
NotIssued t (verifying token) = Unit
NotIssued t (resetting token p) = Unit
NotIssued t (assigning id roles) = Unit
NotIssued t (logging_in cmd id link) = Unit

abbrev pub NeverIssued : String → List (ℕ × Call) → Type 0
NeverIssued t [] = Unit
NeverIssued t ((now, c) ∷ cs) = NotIssued t c × NeverIssued t cs

-- The call redeems the token.
abbrev pub Redeems : String → Call → Type 0
Redeems t (verifying token) = t ≡ token
Redeems t (resetting token p) = t ≡ token
Redeems t (registering cmd id token) = ⊥
Redeems t (requesting email token) = ⊥
Redeems t (assigning id roles) = ⊥
Redeems t (logging_in cmd id link) = ⊥

abbrev Spent : String → Accounts → Type 0
Spent t a = lookup t a.tokens ≡ none

erase-Spent :
    (t token : String) (d : TokenStore) → lookup t d ≡ none → lookup t (erase token d) ≡ none
erase-Spent t token d s = elim (String_discrete t token) [
  | yes p ↦ subst (λ z. lookup z (erase token d) ≡ none) (sym p) (lookup-erase_self token d)
  | no n ↦ lookup-erase_ne t token d n ∙ s
]

module _ (h : Handlers) (now : ℕ) where
  with_user-tokens :
      (o : Option User) (change : User → User) (a : Accounts)
      → (with_user h now o change a).1.tokens ≡ a.tokens
  unfolding saved
  with_user-tokens none change a = refl
  with_user-tokens (some u) change a = refl

  redeem-tokens :
      (kind : TokenType) (change : User → User) (t : Option VerificationToken × TokenStore)
      (users : UserRepository)
      → (redeem h now kind change t users).1.tokens ≡ t.1
  redeem-tokens kind change (none, tokens) users = refl
  redeem-tokens kind change (some t, tokens) users =
      elim (Bool-cases (not (same_type h now t.token_type kind))) [
        | inl e ↦ rw e refl
        | inr e ↦ rw e (
            with_user-tokens (get_by_id t.user_id users) change
              (record { users = users; tokens = tokens }))
      ]

  oauth_login-tokens :
      (cmd : OAuthLoginCommand) (id link : String) (a : Accounts)
      → (oauth_login h now cmd id link a).1.tokens ≡ a.tokens
  unfolding oauth_login saved
  oauth_login-tokens cmd id link a =
      elim (Option-cases (get_by_oauth cmd.provider cmd.account_id a.users)) [
        | inr (u, e) ↦ rw e refl
        | inl e ↦ elim (Option-cases (get_by_email cmd.user_email a.users)) [
          | inr (u, q) ↦ rw (e, q) refl
          | inl q ↦ rw (e, q) refl
        ]
      ]

  register_user-Spent :
      (t : String) (cmd : RegisterUserCommand) (id token : String) (a : Accounts)
      → t ≢ token
      → Spent t a
      → Spent t (register_user h now cmd id token a).1
  unfolding register_user store_token
  register_user-Spent t cmd id token a n s = elim (Option-cases (get_by_email cmd.email a.users)) [
    | inl e ↦ rw e (lookup-insert_ne t token _ a.tokens n ∙ s)
    | inr (u, e) ↦ rw e s
  ]

  request_password_reset-Spent :
      (t : String) (email : Text) (token : String) (a : Accounts)
      → t ≢ token
      → Spent t a
      → Spent t (request_password_reset h now email token a).1
  unfolding request_password_reset store_token
  request_password_reset-Spent t email token a n s =
      elim (Option-cases (get_by_email email a.users)) [
        | inl e ↦ rw e s
        | inr (u, e) ↦ rw e (lookup-insert_ne t token _ a.tokens n ∙ s)
      ]

  step-Spent :
      (t : String) (c : Call) (a : Accounts) → NotIssued t c → Spent t a → Spent t (step h now c a)
  unfolding step verify_email reset_password update_user_role consume_token
  step-Spent t (registering cmd id token) a n s = register_user-Spent t cmd id token a n s
  step-Spent t (verifying token) a n s =
      ap (lookup t) (redeem-tokens _ _ (consume_token now token a.tokens) a.users)
      ∙ erase-Spent t token a.tokens s
  step-Spent t (requesting email token) a n s = request_password_reset-Spent t email token a n s
  step-Spent t (resetting token p) a n s =
      ap (lookup t) (redeem-tokens _ _ (consume_token now token a.tokens) a.users)
      ∙ erase-Spent t token a.tokens s
  step-Spent t (assigning id roles) a n s =
      ap (lookup t) (with_user-tokens (get_by_id id a.users) _ a) ∙ s
  step-Spent t (logging_in cmd id link) a n s = ap (lookup t) (oauth_login-tokens cmd id link a) ∙ s

  redeemed-Spent : (t : String) (c : Call) (a : Accounts) → Redeems t c → Spent t (step h now c a)
  unfolding step verify_email reset_password consume_token
  redeemed-Spent t (verifying token) a p =
      ap (lookup t) (redeem-tokens _ _ (consume_token now token a.tokens) a.users)
      ∙ subst (λ z. lookup z (erase token a.tokens) ≡ none) (sym p)
          (lookup-erase_self token a.tokens)
  redeemed-Spent t (resetting token q) a p =
      ap (lookup t) (redeem-tokens _ _ (consume_token now token a.tokens) a.users)
      ∙ subst (λ z. lookup z (erase token a.tokens) ≡ none) (sym p)
          (lookup-erase_self token a.tokens)
  redeemed-Spent t (registering cmd id token) a p = elim p [ ]
  redeemed-Spent t (requesting email token) a p = elim p [ ]
  redeemed-Spent t (assigning id roles) a p = elim p [ ]
  redeemed-Spent t (logging_in cmd id link) a p = elim p [ ]

  -- A call that is refused leaves the users alone.
  abbrev pub Refused : Outcome User × Accounts → Accounts → Type 0
  Refused (o, b) a = (o ≡ raised invalid_token) × (b.users ≡ a.users)

  Spent-Refused :
      (t : String) (p : Text) (a : Accounts)
      → Spent t a
      → Refused (verify_email h now t a) a × Refused (reset_password h now t p a) a
  unfolding verify_email reset_password consume_token
  Spent-Refused t p a s = rw s ((refl, refl), (refl, refl))

run-Spent :
    (h : Handlers) (t : String) (cs : List (ℕ × Call)) (a : Accounts)
    → NeverIssued t cs
    → Spent t a
    → Spent t (run h cs a)
unfolding run
run-Spent h t [] a n s = s
run-Spent h t ((now, c) ∷ cs) a n s =
    run-Spent h t cs (step h now c a) n.1 (step-Spent h now t c a n.0 s)

-- Once a call has tried to redeem a token, whether or not it was refused, no later call verifies an
-- address or resets a password by it, at any time and after any calls that do not draw the same token
-- again: both raise `InvalidTokenError` and leave the users alone.
pub redeemed-Refused :
    (h : Handlers) (t : String) (p : Text) (now now' : ℕ) (c : Call) (cs : List (ℕ × Call))
    (a : Accounts)
    → Redeems t c
    → NeverIssued t cs
    → let b = run h cs (step h now c a) in
      Refused h now' (verify_email h now' t b) b × Refused h now' (reset_password h now' t p b) b
redeemed-Refused h t p now now' c cs a r n =
    Spent-Refused h now' t p (run h cs (step h now c a))
      (run-Spent h t cs (step h now c a) n (redeemed-Spent h now t c a r))
