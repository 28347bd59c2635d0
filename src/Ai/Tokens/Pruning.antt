-- ===== src/Ai/Tokens/Pruning.antt =====
-- `prune_messages` as a whole, and two of its strategies compared.
use mathlib.Core.List.{append-nil}
use hexastack.Base.{
  ℕ, zero, suc, ◌-◌, ◌≤◌, ◌<◌, Bool, true, false, if◌then◌else◌, List, [], ◌∷◌, ◌++◌, map, leb, ltb,
  length, drop, keep, ◌≡◌, refl, sym, ap, ◌∙◌, ◌⊎◌, inl, inr, All, keep-append, Bool-cases, arith,
  leb→le,
}
use hexastack.Base.Text.{Text}
use hexastack.Base.Outcome.{Outcome, returned, raised, token_limit_exceeded}
use hexastack.Ai.Tokens.{
  ChatMessage, RawMessage, PruneStrategy, normalize_message, is_system, is_conversation, last,
  count_messages_tokens, fits, prune_oldest_first, keep_last, prune_keep_last_n, sys_tokens,
  over_budget, prune_normalized, prune_messages,
}
use hexastack.Ai.Tokens.Budget.{prune_by-Gives}

keep-true {ℓ} :
    {A : Type ℓ} (p : A → Bool) (xs : List A) → All (λ x. p x ≡ true) xs → keep p xs ≡ xs
keep-true p [] h = refl
keep-true p (x ∷ xs) h = rw (h.0) (ap (◌∷◌ x) (keep-true p xs h.1))

keep-false {ℓ} :
    {A : Type ℓ} (p : A → Bool) (xs : List A) → All (λ x. p x ≡ false) xs → keep p xs ≡ []
keep-false p [] h = refl
keep-false p (x ∷ xs) h = rw (h.0) (keep-false p xs h.1)

kept {ℓ} : {A : Type ℓ} (p : A → Bool) (xs : List A) → All (λ x. p x ≡ true) (keep p xs)
kept p [] = tt
kept p (x ∷ xs) = elim (Bool-cases (p x)) [ inl e ↦ rw e (e, kept p xs) | inr e ↦ rw e (kept p xs) ]

not_system : (ms : List ChatMessage) → All (λ m. is_system m ≡ false) (keep is_conversation ms)
not_system [] = tt
not_system (m ∷ ms) = elim (Bool-cases (is_system m)) [
  | inl e ↦ rw e (not_system ms)
  | inr e ↦ rw e (e, not_system ms)
]

-- The system messages that are protected.
abbrev pub protected : Bool → List ChatMessage → List ChatMessage
protected true ms = keep is_system ms
protected false ms = []

-- Within the budget, with the protected messages.
abbrev pub Within : (Text → ℕ) → ℕ → Bool → List ChatMessage → List ChatMessage → Type 0
Within encoded max_tokens preserve_system ms out =
    (count_messages_tokens encoded out ≤ max_tokens)
    × (protected preserve_system out ≡ protected preserve_system ms)

module _ (encoded : Text → ℕ) (max_tokens : ℕ) where
  abbrev pub Cases : Bool → List ChatMessage → Outcome (List ChatMessage) → Type 0
  Cases preserve_system ms o =
      ((o ≡ raised token_limit_exceeded)
        × (max_tokens < sys_tokens encoded (protected preserve_system ms)))
      ⊎ ((out : List ChatMessage) × (o ≡ returned out)
          × Within encoded max_tokens preserve_system ms out)

  system_fits :
      (sys : List ChatMessage)
      → ltb max_tokens (sys_tokens encoded sys) ≡ false
      → fits encoded max_tokens sys sys ≡ true
  unfolding count_messages_tokens
  system_fits [] h = ground arith
  system_fits (m ∷ sys) h = ground arith

  over_budget-preserving :
      (strategy : PruneStrategy) (ms : List ChatMessage)
      → Cases true ms
          (over_budget encoded max_tokens strategy (keep is_system ms) (keep is_conversation ms))
  over_budget-preserving strategy ms =
      elim (Bool-cases (ltb max_tokens (sys_tokens encoded (keep is_system ms)))) [
        | inl e ↦ rw e (inl (refl, ground arith))
        | inr e ↦
            let sys = keep is_system ms in
            let (out, o, p) =
              prune_by-Gives encoded max_tokens sys (λ m. is_system m ≡ false) (system_fits sys e)
                (λ m t h. h) strategy (keep is_conversation ms) (not_system ms) in
            let same_system : keep is_system out ≡ keep is_system ms =
              ap (keep is_system) p.split
              ∙ keep-append is_system sys p.suffix
              ∙ ap (λ z. keep is_system sys ++ z) (keep-false is_system p.suffix p.of_kind)
              ∙ append-nil (keep is_system sys)
              ∙ keep-true is_system sys (kept is_system ms) in
            rw e (
              inr (
                out,
                o,
                (leb→le (count_messages_tokens encoded out) max_tokens p.fitting, same_system),
              ))
      ]

  over_budget-bare :
      (strategy : PruneStrategy) (ms : List ChatMessage)
      → Cases false ms (over_budget encoded max_tokens strategy [] ms)
  over_budget-bare strategy ms = elim (Bool-cases (ltb max_tokens 3)) [
    | inl e ↦ rw e (inl (refl, ground arith))
    | inr e ↦
        let (out, o, p) =
          prune_by-Gives encoded max_tokens [] (λ m. Unit {0}) (system_fits [] e) (λ m t h. tt)
            strategy ms (all_units ms) in
        rw e (inr (out, o, (leb→le (count_messages_tokens encoded out) max_tokens p.fitting, refl)))
  ]
    where
      all_units : (xs : List ChatMessage) → All (λ m. Unit {0}) xs
      all_units [] = tt
      all_units (x ∷ xs) = (tt, all_units xs)

  -- By every strategy, pruning either raises `TokenLimitExceededError`, and then the protected system
  -- messages alone, or the framing of a conversation without any, are above the budget; or it returns
  -- messages that are within the budget, with the protected system messages, all and in their order.
  pub prune_messages-Cases :
      (strategy : PruneStrategy) (preserve_system : Bool) (messages : List RawMessage)
      → Cases preserve_system
          (map normalize_message messages)
          (prune_messages encoded max_tokens strategy preserve_system messages)
  unfolding prune_messages
  prune_messages-Cases strategy preserve_system messages =
      normalized strategy preserve_system (map normalize_message messages)
    where
      normalized :
          (strategy : PruneStrategy) (preserve : Bool) (ms : List ChatMessage)
          → Cases preserve ms (prune_normalized encoded max_tokens strategy preserve ms)
      normalized strategy preserve ms =
          elim (Bool-cases (leb (count_messages_tokens encoded ms) max_tokens)) [
            | inl e ↦
                rw e
                  (inr (ms, refl, (leb→le (count_messages_tokens encoded ms) max_tokens e, refl)))
            | inr e ↦ rw e (by_flag preserve)
          ]
        where
          by_flag :
              (preserve : Bool)
              → Cases preserve ms (
                  if preserve
                  then over_budget encoded max_tokens strategy
                      (keep is_system ms)
                      (keep is_conversation ms)
                  else over_budget encoded max_tokens strategy [] ms)
          by_flag true = over_budget-preserving strategy ms
          by_flag false = over_budget-bare strategy ms

drop-cons {ℓ} :
    {A : Type ℓ} (i : ℕ) (xs : List A) → i < length xs → (x : A) × (drop i xs ≡ x ∷ drop (suc i) xs)
drop-cons zero [] h = absurd (omega arith)
drop-cons zero (x ∷ xs) h = (x, refl)
drop-cons (suc i) [] h = absurd (omega arith)
drop-cons (suc i) (x ∷ xs) h = drop-cons i xs (omega arith)

drop-length {ℓ} : {A : Type ℓ} (xs : List A) → drop (length xs) xs ≡ []
drop-length [] = refl
drop-length (x ∷ xs) = drop-length xs

module _ (encoded : Text → ℕ) (max_tokens : ℕ) (system_msgs : List ChatMessage) where
  keep_last-prune_oldest_first :
      (conv : List ChatMessage) (n : ℕ)
      → n ≤ length conv
      → keep_last encoded max_tokens system_msgs conv n
        ≡ prune_oldest_first encoded max_tokens system_msgs (last n conv)
  unfolding keep_last prune_oldest_first
  keep_last-prune_oldest_first conv zero h =
      let all_of : length conv - 0 ≡ length conv = omega arith in
      ap (prune_oldest_first encoded max_tokens system_msgs)
        (sym (ap (λ k. drop k conv) all_of ∙ drop-length conv))
  keep_last-prune_oldest_first conv (suc n) h =
      let (m, e) = drop-cons (length conv - suc n) conv (omega arith) in
      let next : suc (length conv - suc n) ≡ length conv - n = omega arith in
      let whole : last (suc n) conv ≡ m ∷ last n conv = e ∙ ap (λ k. m ∷ drop k conv) next in
      elim (Bool-cases (fits encoded max_tokens system_msgs (system_msgs ++ m ∷ last n conv))) [
        | inl q ↦ rw (whole, q) refl
        | inr q ↦ rw (whole, q) (keep_last-prune_oldest_first conv n (omega arith))
      ]

  -- Dropping the oldest messages and keeping the last ones that fit are the same strategy.
  pub prune_keep_last_n-prune_oldest_first :
      (conv : List ChatMessage)
      → prune_keep_last_n encoded max_tokens system_msgs conv
        ≡ prune_oldest_first encoded max_tokens system_msgs conv
  unfolding prune_keep_last_n
  prune_keep_last_n-prune_oldest_first conv =
      let none_dropped : length conv - length conv ≡ 0 = omega arith in
      keep_last-prune_oldest_first conv (length conv) (omega arith)
      ∙ ap (λ k. prune_oldest_first encoded max_tokens system_msgs (drop k conv)) none_dropped
