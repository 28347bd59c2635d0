-- ===== src/Ai/Tokens.antt =====
-- packages/hexastack_ai/src/hexastack_ai/adapters/tokens.py and `ChatMessage` of domain/tokens.py. Budgets
-- are not negative. The values of metadata are opaque numbers; texts are ASCII.
pub mod Budget
pub mod Trimming
pub mod Pruning
mod Tests
use hexastack.Base.{
  ℕ, zero, suc, ◌+◌, ◌-◌, ◌/◌, Bool, true, false, not, ◌&&◌, if◌then◌else◌, Option, none, some,
  List, [], ◌∷◌, ◌++◌, map, leb, ltb, ◌==◌, length, get_elem?, take, drop, keep, String,
}
use mathlib.Core.List.{reverse}
use hexastack.Base.Text.{Text, codes, same, is_space}
use hexastack.Base.Outcome.{Outcome, returned, raised, token_limit_exceeded, index_error}
use hexastack.Dict.{Dict}

pub record ChatMessage : Type 0 where
  pub role : Text
  pub content : Text
  pub name : Option Text
  pub metadata : Dict String ℕ

-- A message as it is given: an entity, or a dict with some of the keys.
pub data RawMessage : Type 0 where
  entity : ChatMessage → RawMessage
  mapping : Option Text → Option Text → Option Text → Option (Dict String ℕ) → RawMessage

abbrev or_else {ℓ} : {A : Type ℓ} → A → Option A → A
or_else d none = d
or_else d (some a) = a

unfoldable pub normalize_message : RawMessage → ChatMessage
normalize_message (entity m) = m
normalize_message (mapping role content name metadata) = record {
  role = or_else (codes "user") role;
  content = or_else [] content;
  name = name;
  metadata = or_else [] metadata;
}

pub data PruneStrategy : Type 0 where
  oldest_first keep_system_and_last_n trim_token_exact : PruneStrategy

abbrev pub is_system : ChatMessage → Bool
is_system m = same m.role (codes "system")

abbrev pub is_conversation : ChatMessage → Bool
is_conversation m = not (is_system m)

-- `s.split()`, where `word` is the word begun.
abbrev flush : Text → List Text
flush [] = []
flush (c ∷ word) = (c ∷ word) ∷ []

unfoldable pub words_from : Text → Text → List Text
words_from word [] = flush word
words_from word (c ∷ s) =
    let ended = flush word ++ words_from [] s in
    let more = words_from (word ++ c ∷ []) s in if is_space c then ended else more

-- `" ".join(words)`
abbrev pub join : List Text → Text
join [] = []
join (w ∷ []) = w
join (w ∷ v ∷ rest) = w ++ b' ' ∷ join (v ∷ rest)

-- The prefix of a text that the search tries.
abbrev pub partial_text : List Text → ℕ → Text
partial_text words mid = join (take mid words) ++ codes "..."

-- A message cut to a text, without its metadata.
abbrev pub partial_msg : ChatMessage → Text → ChatMessage
partial_msg m text = record { role = m.role; content = text; name = m.name; metadata = [] }

-- `xs[-count:]` for a positive count.
abbrev pub last {ℓ} : {A : Type ℓ} → ℕ → List A → List A
last count xs = drop (length xs - count) xs

-- The variables of the search in `_prune_trim_exact`.
pub record Search : Type 0 where
  pub low : ℕ
  pub high : ℕ
  pub best_text : Text

-- `encoded` gives the tokens of a text that is not empty: what the tokenizer of the model counts, with
-- its calibration.
module _ (encoded : Text → ℕ) where
  abbrev pub count_tokens : Text → ℕ
  count_tokens [] = 0
  count_tokens (c ∷ s) = encoded (c ∷ s)

  abbrev name_tokens : Option Text → ℕ
  name_tokens none = 0
  name_tokens (some name) = 1 + count_tokens name

  abbrev message_tokens : ChatMessage → ℕ
  message_tokens m = 3 + count_tokens m.role + count_tokens m.content + name_tokens m.name

  abbrev sum_tokens : List ChatMessage → ℕ
  sum_tokens [] = 0
  sum_tokens (m ∷ ms) = message_tokens m + sum_tokens ms

  unfoldable pub count_messages_tokens : List ChatMessage → ℕ
  count_messages_tokens [] = 0
  count_messages_tokens (m ∷ ms) = sum_tokens (m ∷ ms) + 3

  module _ (max_tokens : ℕ) (system_msgs : List ChatMessage) where
    abbrev pub fits : List ChatMessage → Bool
    fits ms = leb (count_messages_tokens ms) max_tokens

    unfoldable pub prune_oldest_first : List ChatMessage → List ChatMessage
    prune_oldest_first [] = system_msgs
    prune_oldest_first (m ∷ rest) =
        let fewer = prune_oldest_first rest in
        if fits (system_msgs ++ m ∷ rest) then system_msgs ++ m ∷ rest else fewer

    -- The loop over the counts, from the greatest one.
    unfoldable pub keep_last : List ChatMessage → ℕ → List ChatMessage
    keep_last conversation zero = system_msgs
    keep_last conversation (suc count) =
        let fewer = keep_last conversation count in
        let candidate = system_msgs ++ last (suc count) conversation in
        if fits candidate then candidate else fewer

    unfoldable pub prune_keep_last_n : List ChatMessage → List ChatMessage
    unfolding keep_last
    prune_keep_last_n conversation = keep_last conversation (length conversation)

    -- The loop over the reversed conversation.
    unfoldable pub intact : List ChatMessage → List ChatMessage → List ChatMessage
    intact [] suffix_msgs = suffix_msgs
    intact (m ∷ rest) suffix_msgs =
        let more = intact rest (m ∷ suffix_msgs) in
        if fits (system_msgs ++ m ∷ suffix_msgs) then more else suffix_msgs

    -- The `while` of the search, on fuel: one round, and all of them.
    module _ (oldest : ChatMessage) (suffix_msgs : List ChatMessage) (words : List Text) where
      abbrev pub fits_text : Text → Bool
      fits_text text = fits (system_msgs ++ partial_msg oldest text ∷ suffix_msgs)

      abbrev pub round : Search → Search
      round s =
          let mid = (s.low + s.high) / 2 in
          if fits_text (partial_text words mid)
          then record { low = mid + 1; high = s.high; best_text = partial_text words mid }
          else record { low = s.low; high = mid - 1; best_text = s.best_text }

      unfoldable pub search : ℕ → Search → Search
      search zero s = s
      search (suc fuel) s = let next = search fuel (round s) in if leb s.low s.high then next else s

      abbrev pub searched : Search
      searched = search (length words + 1) (record { low = 1; high = length words; best_text = [] })

    abbrev chosen : Text → ChatMessage → List ChatMessage → List ChatMessage
    chosen [] oldest suffix_msgs = system_msgs ++ suffix_msgs
    chosen (c ∷ text) oldest suffix_msgs =
        system_msgs ++ partial_msg oldest (c ∷ text) ∷ suffix_msgs

    -- `best_text` where the allowance is too small for a search.
    abbrev best_for : ChatMessage → List ChatMessage → Text
    best_for oldest suffix_msgs =
        let allowance = max_tokens - count_messages_tokens (system_msgs ++ suffix_msgs) - 4 in
        let words = words_from [] oldest.content in
        if ltb 5 allowance then (searched oldest suffix_msgs words).best_text else []

    -- `none` is an index out of range.
    abbrev trim : Option ChatMessage → List ChatMessage → Outcome (List ChatMessage)
    trim none suffix_msgs = raised index_error
    trim (some oldest) suffix_msgs =
        returned (chosen (best_for oldest suffix_msgs) oldest suffix_msgs)

    abbrev trim_oldest : List ChatMessage → List ChatMessage → Outcome (List ChatMessage)
    trim_oldest conversation suffix_msgs =
        let remaining_count = length conversation - length suffix_msgs in
        if remaining_count == 0
        then returned (system_msgs ++ suffix_msgs)
        else trim (get_elem? conversation (remaining_count - 1)) suffix_msgs

    unfoldable pub prune_trim_exact : List ChatMessage → Outcome (List ChatMessage)
    unfolding search words_from intact
    prune_trim_exact [] = returned system_msgs
    prune_trim_exact (m ∷ rest) =
        let conversation = m ∷ rest in
        if fits (system_msgs ++ conversation)
        then returned (system_msgs ++ conversation)
        else trim_oldest conversation (intact (reverse conversation) [])

    abbrev pub prune_by : PruneStrategy → List ChatMessage → Outcome (List ChatMessage)
    prune_by trim_token_exact conversation = prune_trim_exact conversation
    prune_by keep_system_and_last_n conversation = returned (prune_keep_last_n conversation)
    prune_by oldest_first conversation = returned (prune_oldest_first conversation)

  -- `self.count_messages_tokens(system_msgs, model=model) if system_msgs else 3`
  abbrev pub sys_tokens : List ChatMessage → ℕ
  sys_tokens [] = 3
  sys_tokens (m ∷ ms) = count_messages_tokens (m ∷ ms)

  abbrev pub over_budget :
      ℕ → PruneStrategy → List ChatMessage → List ChatMessage → Outcome (List ChatMessage)
  over_budget max_tokens strategy system_msgs conversation =
      if ltb max_tokens (sys_tokens system_msgs)
      then raised token_limit_exceeded
      else prune_by max_tokens system_msgs strategy conversation

  abbrev pub prune_normalized :
      ℕ → PruneStrategy → Bool → List ChatMessage → Outcome (List ChatMessage)
  prune_normalized max_tokens strategy preserve_system ms =
      if leb (count_messages_tokens ms) max_tokens
      then returned ms
      else if preserve_system
      then over_budget max_tokens strategy (keep is_system ms) (keep is_conversation ms)
      else over_budget max_tokens strategy [] ms

  -- Without messages there is nothing to prune: `[]` counts 0 tokens.
  unfoldable pub prune_messages :
      ℕ → PruneStrategy → Bool → List RawMessage → Outcome (List ChatMessage)
  prune_messages max_tokens strategy preserve_system messages =
      prune_normalized max_tokens strategy preserve_system (map normalize_message messages)
