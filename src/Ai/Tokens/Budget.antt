-- ===== src/Ai/Tokens/Budget.antt =====
-- Pruned conversations are within the budget and keep the system messages.
use mathlib.Core.List.{reverse, append-nil, reverse-cons}
use mathlib.Core.Path.{subst}
use hexastack.Base.{
  ℕ, zero, suc, ◌-◌, ◌<◌, true, some, List, [], ◌∷◌, ◌++◌, ltb, ◌==◌, length, get_elem?, drop, ◌≡◌,
  refl, sym, ap, ◌∙◌, inl, inr, All, All-append, Bool-cases, arith,
}
use hexastack.Base.Text.{Text}
use hexastack.Base.Outcome.{Outcome, returned}
use hexastack.Ai.Tokens.{
  ChatMessage, PruneStrategy, oldest_first, keep_system_and_last_n, trim_token_exact, partial_msg,
  last, count_messages_tokens, fits, prune_oldest_first, keep_last, prune_keep_last_n, intact,
  chosen, trim, trim_oldest, prune_trim_exact, prune_by, words_from,
}
use hexastack.Ai.Tokens.Trimming.{IsCut, searched_ends}

drop-All {ℓ κ} : {A : Type ℓ} (P : A → Type κ) (n : ℕ) (xs : List A) → All P xs → All P (drop n xs)
drop-All P zero xs h = h
drop-All P (suc n) [] h = tt
drop-All P (suc n) (x ∷ xs) h = drop-All P n xs h.1

get_elem?-in {ℓ κ} :
    {A : Type ℓ} (P : A → Type κ) (xs : List A) (i : ℕ)
    → All P xs
    → i < length xs
    → (a : A) × (get_elem? xs i ≡ some a) × P a
get_elem?-in P [] i h b = absurd (omega arith)
get_elem?-in P (x ∷ xs) zero h b = (x, refl, h.0)
get_elem?-in P (x ∷ xs) (suc i) h b = get_elem?-in P xs i h.1 (omega arith)

reverse-All {ℓ κ} : {A : Type ℓ} (P : A → Type κ) (xs : List A) → All P xs → All P (reverse xs)
reverse-All P [] h = tt
reverse-All P (x ∷ xs) h =
    subst (All P) (sym (reverse-cons x xs))
      (All-append P (reverse xs) (x ∷ []) (reverse-All P xs h.1) (h.0, tt))

module _ (encoded : Text → ℕ) (max_tokens : ℕ) (system_msgs : List ChatMessage) where
  -- The system messages with further ones, within the budget.
  pub record Pruned (P : ChatMessage → Type 0) (ms : List ChatMessage) : Type 0 where
    pub suffix : List ChatMessage
    pub split : ms ≡ system_msgs ++ suffix
    pub of_kind : All P suffix
    pub fitting : fits encoded max_tokens system_msgs ms ≡ true

  module _ (P : ChatMessage → Type 0)
      (base : fits encoded max_tokens system_msgs system_msgs ≡ true) where
    nothing_more : Pruned P system_msgs
    nothing_more = record {
      suffix = [];
      split = sym (append-nil system_msgs);
      of_kind = tt;
      fitting = base;
    }

    prune_oldest_first-Pruned :
        (ms : List ChatMessage)
        → All P ms
        → Pruned P (prune_oldest_first encoded max_tokens system_msgs ms)
    unfolding prune_oldest_first
    prune_oldest_first-Pruned [] h = nothing_more
    prune_oldest_first-Pruned (m ∷ ms) h =
        elim (Bool-cases (fits encoded max_tokens system_msgs (system_msgs ++ m ∷ ms))) [
          | inl e ↦ rw e (record { suffix = m ∷ ms; split = refl; of_kind = h; fitting = e })
          | inr e ↦ rw e (prune_oldest_first-Pruned ms h.1)
        ]

    keep_last-Pruned :
        (conv : List ChatMessage) (n : ℕ)
        → All P conv
        → Pruned P (keep_last encoded max_tokens system_msgs conv n)
    unfolding keep_last
    keep_last-Pruned conv zero h = nothing_more
    keep_last-Pruned conv (suc n) h =
        elim (Bool-cases (fits encoded max_tokens system_msgs (system_msgs ++ last (suc n) conv))) [
          | inl e ↦ rw e (record {
            suffix = last (suc n) conv;
            split = refl;
            of_kind = drop-All P _ conv h;
            fitting = e;
          })
          | inr e ↦ rw e (keep_last-Pruned conv n h)
        ]

    intact-Pruned :
        (rev suf : List ChatMessage)
        → All P rev
        → All P suf
        → fits encoded max_tokens system_msgs (system_msgs ++ suf) ≡ true
        → let kept = intact encoded max_tokens system_msgs rev suf in
          All P kept × (fits encoded max_tokens system_msgs (system_msgs ++ kept) ≡ true)
    unfolding intact
    intact-Pruned [] suf h k f = (k, f)
    intact-Pruned (m ∷ rev) suf h k f =
        elim (Bool-cases (fits encoded max_tokens system_msgs (system_msgs ++ m ∷ suf))) [
          | inl e ↦ rw e (intact-Pruned rev (m ∷ suf) h.1 (h.0, k) e)
          | inr e ↦ rw e (k, f)
        ]

    module _ (cut : (m : ChatMessage) (text : Text) → P m → P (partial_msg m text)) where
      chosen-Pruned :
          (k : ℕ) (best : Text) (oldest : ChatMessage) (suf : List ChatMessage)
          → IsCut encoded max_tokens system_msgs oldest suf (words_from [] oldest.content) k best
          → P oldest
          → All P suf
          → fits encoded max_tokens system_msgs (system_msgs ++ suf) ≡ true
          → Pruned P (chosen encoded max_tokens system_msgs best oldest suf)
      chosen-Pruned k [] oldest suf c p h f = record {
        suffix = suf;
        split = refl;
        of_kind = h;
        fitting = f;
      }
      chosen-Pruned zero (x ∷ best) oldest suf c p h f = absurd (ground arith)
      chosen-Pruned (suc k) (x ∷ best) oldest suf c p h f = record {
        suffix = partial_msg oldest (x ∷ best) ∷ suf;
        split = refl;
        of_kind = (cut oldest (x ∷ best) p, h);
        fitting =
            subst
              (λ z.
                fits encoded max_tokens system_msgs (system_msgs ++ partial_msg oldest z ∷ suf)
                ≡ true)
              (sym c.0) c.1;
      }

      -- The outcome is a pruned conversation.
      abbrev pub Gives : Outcome (List ChatMessage) → Type 0
      Gives o = (ms : List ChatMessage) × (o ≡ returned ms) × Pruned P ms

      trim-Gives :
          (oldest : ChatMessage) (suf : List ChatMessage)
          → P oldest
          → All P suf
          → fits encoded max_tokens system_msgs (system_msgs ++ suf) ≡ true
          → Gives (trim encoded max_tokens system_msgs (some oldest) suf)
      trim-Gives oldest suf p h f =
          let allowance = max_tokens - count_messages_tokens encoded (system_msgs ++ suf) - 4 in
          let words = words_from [] oldest.content in
          let (ended, (k, le, is_cut, full)) =
            searched_ends encoded max_tokens system_msgs oldest suf words in
          elim (Bool-cases (ltb 5 allowance)) [
            | inl e ↦ rw e (_, refl, chosen-Pruned k _ oldest suf is_cut p h f)
            | inr e ↦ rw e (_, refl, chosen-Pruned 0 [] oldest suf refl p h f)
          ]

      trim_oldest-Gives :
          (conv suf : List ChatMessage)
          → All P conv
          → All P suf
          → fits encoded max_tokens system_msgs (system_msgs ++ suf) ≡ true
          → Gives (trim_oldest encoded max_tokens system_msgs conv suf)
      trim_oldest-Gives conv suf h k f = elim (Bool-cases (length conv - length suf == 0)) [
        | inl e ↦ rw e (_, refl, record { suffix = suf; split = refl; of_kind = k; fitting = f })
        | inr e ↦
            let (oldest, at, p) =
              get_elem?-in P conv (length conv - length suf - 1) h (ground arith) in
            rw (e, at) (trim-Gives oldest suf p k f)
      ]

      prune_trim_exact-Gives :
          (conv : List ChatMessage)
          → All P conv
          → Gives (prune_trim_exact encoded max_tokens system_msgs conv)
      unfolding prune_trim_exact
      prune_trim_exact-Gives [] h = (_, refl, nothing_more)
      prune_trim_exact-Gives (m ∷ rest) h =
          elim (Bool-cases (fits encoded max_tokens system_msgs (system_msgs ++ m ∷ rest))) [
            | inl e ↦
                rw e (_, refl, record { suffix = m ∷ rest; split = refl; of_kind = h; fitting = e })
            | inr e ↦
                let none_yet : fits encoded max_tokens system_msgs (system_msgs ++ []) ≡ true =
                  ap (fits encoded max_tokens system_msgs) (append-nil system_msgs) ∙ base in
                let (k, f) =
                  intact-Pruned (reverse (m ∷ rest)) [] (reverse-All P (m ∷ rest) h) tt none_yet in
                rw e (
                  trim_oldest-Gives (m ∷ rest)
                    (intact encoded max_tokens system_msgs (reverse (m ∷ rest)) []) h k f)
          ]

      pub prune_by-Gives :
          (strategy : PruneStrategy) (conv : List ChatMessage)
          → All P conv
          → Gives (prune_by encoded max_tokens system_msgs strategy conv)
      unfolding prune_keep_last_n
      prune_by-Gives trim_token_exact conv h = prune_trim_exact-Gives conv h
      prune_by-Gives keep_system_and_last_n conv h =
          (_, refl, keep_last-Pruned conv (length conv) h)
      prune_by-Gives oldest_first conv h = (_, refl, prune_oldest_first-Pruned conv h)
