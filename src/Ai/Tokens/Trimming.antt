-- ===== src/Ai/Tokens/Trimming.antt =====
-- The binary search for the words that are kept of the message that is cut.
use mathlib.Core.Path.{subst}
use hexastack.Base.{
  ℕ, zero, suc, ◌+◌, ◌-◌, ◌/◌, ◌≤◌, ◌<◌, Bool, true, false, List, [], leb, length, ◌≡◌, refl, ap,
  ◌∙◌, ◌⊎◌, inl, inr, Bool-cases, arith, leb→le,
}
use hexastack.Base.Text.{Text}
use hexastack.Ai.Tokens.{ChatMessage, Search, partial_text, fits_text, round, search, searched}

module _ (encoded : Text → ℕ) (max_tokens : ℕ) (system_msgs : List ChatMessage)
    (oldest : ChatMessage) (suffix_msgs : List ChatMessage) (words : List Text) where
  -- Whether the first `k` words fit.
  abbrev pub fits_words : ℕ → Bool
  fits_words k =
      fits_text encoded max_tokens system_msgs oldest suffix_msgs words (partial_text words k)

  -- The text is that of `k` words, which fit; no text stands for no word.
  abbrev pub IsCut : ℕ → Text → Type 0
  IsCut zero text = text ≡ []
  IsCut (suc k) text = (text ≡ partial_text words (suc k)) × (fits_words (suc k) ≡ true)

  -- One more word does not fit, or there is none.
  abbrev pub IsFull : ℕ → Type 0
  IsFull k = (k ≡ length words) ⊎ (fits_words (k + 1) ≡ false)

  -- `low` is one above the words known to fit, `high` the last number of words not known to be too many.
  record Inv (s : Search) : Type 0 where
    found : ℕ
    low_at : s.low ≡ suc found
    bounded : found ≤ s.high
    within : s.high ≤ length words
    cut : IsCut found s.best_text
    full : IsFull s.high

  partial_text-IsCut : (k : ℕ) → 0 < k → fits_words k ≡ true → IsCut k (partial_text words k)
  partial_text-IsCut zero p e = absurd (omega arith)
  partial_text-IsCut (suc k) p e = (refl, e)

  round-Inv :
      (s : Search)
      → Inv s
      → leb s.low s.high ≡ true
      → let next = round encoded max_tokens system_msgs oldest suffix_msgs words s in
        Inv next × (next.high + 1 - next.low < s.high + 1 - s.low)
  round-Inv s v t =
      let mid = (s.low + s.high) / 2 in
      let some_words : s.low ≤ s.high = leb→le s.low s.high t in
      let at = v.low_at in
      let last_mid : mid - 1 + 1 ≡ mid = omega arith in
      elim (Bool-cases (fits_words mid)) [
        | inl e ↦ rw e (
          record {
            found = mid;
            low_at = omega arith;
            bounded = omega arith;
            within = v.within;
            cut = partial_text-IsCut mid (omega arith) e;
            full = v.full;
          },
          omega arith,
        )
        | inr e ↦ rw e (
          record {
            found = v.found;
            low_at = v.low_at;
            bounded = omega (arith, v.bounded);
            within = omega (arith, v.within);
            cut = v.cut;
            full = inr (ap fits_words last_mid ∙ e);
          },
          omega arith,
        )
      ]

  search-Inv :
      (fuel : ℕ) (s : Search)
      → s.high + 1 - s.low < fuel
      → Inv s
      → let t = search encoded max_tokens system_msgs oldest suffix_msgs words fuel s in
        Inv t × (leb t.low t.high ≡ false)
  unfolding search
  search-Inv zero s f v = absurd (omega arith)
  search-Inv (suc fuel) s f v = elim (Bool-cases (leb s.low s.high)) [
    | inr e ↦ rw e (v, e)
    | inl e ↦
        let (v', less) = round-Inv s v e in
        rw e (
          search-Inv fuel (round encoded max_tokens system_msgs oldest suffix_msgs words s)
            (omega (arith, less, f)) v')
  ]

  ended_at :
      (s : Search)
      → Inv s
      → leb s.low s.high ≡ false
      → (k : ℕ) × (k ≤ length words) × IsCut k s.best_text × IsFull k
  ended_at s v e =
      let past : s.high ≡ v.found = ground (arith, v.bounded, v.low_at) in
      (v.found, omega (arith, v.bounded, v.within), v.cut, subst IsFull past v.full)

  -- The search ends by its test, `low > high`, within the fuel that it is given, one more than the words.
  -- It has found a number of words for which the cut message fits, or none, such that one more word
  -- does not fit or there is no more, and its text is that of these words.
  pub searched_ends :
      let s = searched encoded max_tokens system_msgs oldest suffix_msgs words in
      (leb s.low s.high ≡ false) × ((k : ℕ) × (k ≤ length words) × IsCut k s.best_text × IsFull k)
  searched_ends =
      let start : Search = record { low = 1; high = length words; best_text = [] } in
      let begins : Inv start = record {
        found = 0;
        low_at = refl;
        bounded = omega arith;
        within = omega arith;
        cut = refl;
        full = inl refl;
      } in
      let (v, ended) = search-Inv (length words + 1) start (omega arith) begins in
      (ended, ended_at _ v ended)
