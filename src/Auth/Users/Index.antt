-- ===== src/Auth/Users/Index.antt =====
-- The index of e-mail addresses agrees with the stored users.
use mathlib.Core.Path.{subst}
use hexastack.Base.{
  ℕ, String, ◌≡◌, ◌≢◌, refl, sym, ap, ◌∙◌, ◌⊎◌, inl, inr, none, some, [], arith, Option-cases,
}
use hexastack.Base.Text.{Text}
use hexastack.Dict.{
  Dict, Key, lookup, insert, string_key, text_key, lookup-insert_self, lookup-insert_ne,
}
use hexastack.Auth.Users.{User, UserRepository, normal, get_by_email, save, stamped}

-- A stored user has its own identifier, which is not empty, and is found by its address.
pub record Owns (r : UserRepository) (id : String) (u : User) : Type 0 where
  pub own_id : u.id ≡ id
  pub nonempty : id ≢ ""
  pub listed : lookup (normal u.email) r.users_by_email ≡ some id

-- An address that is listed is that of a stored user.
pub record Indexed (r : UserRepository) : Type 0 where
  pub owns : (id : String) (u : User) → lookup id r.users_by_id ≡ some u → Owns r id u
  pub points :
      (e : Text) (id : String)
      → lookup e r.users_by_email ≡ some id
      → (u : User) × (lookup id r.users_by_id ≡ some u) × (normal u.email ≡ e)

pub lookup-insert_cases {ℓ} :
    {K V : Type ℓ} ⦃key : Key K⦄ (j k : K) (v : V) (d : Dict K V)
    → ((j ≡ k) × (lookup j (insert k v d) ≡ some v))
      ⊎ ((j ≢ k) × (lookup j (insert k v d) ≡ lookup j d))
lookup-insert_cases ⦃key⦄ j k v d = elim (key.dec j k) [
  | yes p ↦
      inl (p, subst (λ z. lookup z (insert k v d) ≡ some v) (sym p) (lookup-insert_self k v d))
  | no n ↦ inr (n, lookup-insert_ne j k v d n)
]

pub some-eq {ℓ} : {A : Type ℓ} {a b : A} → some a ≡ some b → a ≡ b
some-eq h = ground arith

pub empty-Indexed : Indexed (record { users_by_id = []; users_by_email = []; oauth_index = [] })
empty-Indexed = record {
  owns = λ id u h. absurd (ground arith);
  points = λ e id h. absurd (ground arith);
}

-- In an indexed repository an address that is listed is found.
pub get_by_email-listed :
    (email : Text) (id : String) (u : User) (r : UserRepository)
    → id ≢ ""
    → lookup (normal email) r.users_by_email ≡ some id
    → lookup id r.users_by_id ≡ some u
    → get_by_email email r ≡ some u
get_by_email-listed email id u r n e f = rw e (ground arith)

module _ (r : UserRepository) (x : Indexed r) where
  -- A user that is found by address is stored under its identifier, with that address.
  pub get_by_email-Indexed :
      (email : Text) (u : User)
      → get_by_email email r ≡ some u
      → (lookup u.id r.users_by_id ≡ some u) × (normal u.email ≡ normal email)
  get_by_email-Indexed email u h = elim (Option-cases (lookup (normal email) r.users_by_email)) [
    | inl e ↦ absurd (ground arith)
    | inr (id, e) ↦
        let found : lookup id r.users_by_id ≡ some u = ground arith in
        let (v, stored, same) = x.points (normal email) id e in
        let same_user : v ≡ u = some-eq (sym stored ∙ found) in
        (
          subst (λ z. lookup z r.users_by_id ≡ some u) (sym (x.owns id u found).own_id) found,
          ap (λ z. normal z.email) (sym same_user) ∙ same,
        )
  ]

  -- An address that is not found is not listed.
  pub get_by_email_unlisted :
      (email : Text) → get_by_email email r ≡ none → lookup (normal email) r.users_by_email ≡ none
  get_by_email_unlisted email h = elim (Option-cases (lookup (normal email) r.users_by_email)) [
    | inl e ↦ e
    | inr (id, e) ↦
        let (v, stored, same) = x.points (normal email) id e in
        let found = get_by_email-listed email id v r (x.owns id v stored).nonempty e stored in
        absurd (ground arith)
  ]

  -- Saving a changed copy of a stored user under the same address.
  pub save-Indexed :
      (now : ℕ) (u v : User)
      → lookup u.id r.users_by_id ≡ some v
      → normal u.email ≡ normal v.email
      → Indexed (save now u r)
  unfolding save
  save-Indexed now u v stored same = record {
    owns = λ id w h. owner id w h;
    points = λ e id h. target e id h;
  }
    where
      old : Owns r u.id v
      old = x.owns u.id v stored

      listed : lookup (normal u.email) r.users_by_email ≡ some u.id
      listed = ap (λ z. lookup z r.users_by_email) same ∙ old.listed

      kept :
          (e : Text)
          → lookup e (insert (normal u.email) u.id r.users_by_email) ≡ lookup e r.users_by_email
      kept e = elim (lookup-insert_cases e (normal u.email) u.id r.users_by_email) [
        | inl p ↦ p.1 ∙ sym (ap (λ z. lookup z r.users_by_email) p.0 ∙ listed)
        | inr q ↦ q.1
      ]

      owner :
          (id : String) (w : User)
          → lookup id (insert u.id (stamped now u) r.users_by_id) ≡ some w
          → Owns (save now u r) id w
      owner id w h = elim (lookup-insert_cases id u.id (stamped now u) r.users_by_id) [
        | inl p ↦
            subst (λ z. Owns (save now u r) z w) (sym p.0)
              (subst (Owns (save now u r) u.id) (some-eq (sym p.1 ∙ h)) (record {
                own_id = refl;
                nonempty = old.nonempty;
                listed = kept (normal u.email) ∙ listed;
              }))
        | inr q ↦
            let o = x.owns id w (sym q.1 ∙ h) in
            record {
              own_id = o.own_id;
              nonempty = o.nonempty;
              listed = kept (normal w.email) ∙ o.listed;
            }
      ]

      target :
          (e : Text) (id : String)
          → lookup e (insert (normal u.email) u.id r.users_by_email) ≡ some id
          → (w : User) × (lookup id (insert u.id (stamped now u) r.users_by_id) ≡ some w)
            × (normal w.email ≡ e)
      target e id h =
          let (w, f, s) = x.points e id (sym (kept e) ∙ h) in
          elim (lookup-insert_cases id u.id (stamped now u) r.users_by_id) [
            | inl p ↦
                let here : w ≡ v =
                  some-eq (sym f ∙ ap (λ z. lookup z r.users_by_id) p.0 ∙ stored) in
                (stamped now u, p.1, same ∙ ap (λ z. normal z.email) (sym here) ∙ s)
            | inr q ↦ (w, q.1 ∙ f, s)
          ]

  -- Saving a new user under an address that is not listed.
  pub save_new-Indexed :
      (now : ℕ) (u : User)
      → lookup u.id r.users_by_id ≡ none
      → u.id ≢ ""
      → lookup (normal u.email) r.users_by_email ≡ none
      → Indexed (save now u r)
  unfolding save
  save_new-Indexed now u fresh nonempty unlisted = record {
    owns = λ id w h. owner id w h;
    points = λ e id h. target e id h;
  }
    where
      owner :
          (id : String) (w : User)
          → lookup id (insert u.id (stamped now u) r.users_by_id) ≡ some w
          → Owns (save now u r) id w
      owner id w h = elim (lookup-insert_cases id u.id (stamped now u) r.users_by_id) [
        | inl p ↦
            subst (λ z. Owns (save now u r) z w) (sym p.0)
              (subst (Owns (save now u r) u.id) (some-eq (sym p.1 ∙ h)) (record {
                own_id = refl;
                nonempty = nonempty;
                listed = lookup-insert_self (normal u.email) u.id r.users_by_email;
              }))
        | inr q ↦
            let o = x.owns id w (sym q.1 ∙ h) in
            elim (lookup-insert_cases (normal w.email) (normal u.email) u.id r.users_by_email) [
              | inl p ↦
                  let clash = sym (ap (λ z. lookup z r.users_by_email) p.0 ∙ unlisted) ∙ o.listed in
                  absurd (ground arith)
              | inr e ↦ record { own_id = o.own_id; nonempty = o.nonempty; listed = e.1 ∙ o.listed }
            ]
      ]

      target :
          (e : Text) (id : String)
          → lookup e (insert (normal u.email) u.id r.users_by_email) ≡ some id
          → (w : User) × (lookup id (insert u.id (stamped now u) r.users_by_id) ≡ some w)
            × (normal w.email ≡ e)
      target e id h = elim (lookup-insert_cases e (normal u.email) u.id r.users_by_email) [
        | inl p ↦
            let own : u.id ≡ id = some-eq (sym p.1 ∙ h) in
            (
              stamped now u,
              subst
                  (λ z. lookup z (insert u.id (stamped now u) r.users_by_id) ≡ some (stamped now u))
                  own (lookup-insert_self u.id (stamped now u) r.users_by_id),
              sym p.0,
            )
        | inr q ↦
            let (w, f, s) = x.points e id (sym q.1 ∙ h) in
            elim (lookup-insert_cases id u.id (stamped now u) r.users_by_id) [
              | inl p ↦
                  let clash = sym (ap (λ z. lookup z r.users_by_id) p.0 ∙ fresh) ∙ f in
                  absurd (ground arith)
              | inr d ↦ (w, d.1 ∙ f, s)
            ]
      ]
