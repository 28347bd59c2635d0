-- ===== src/Ai/Tokens/Tests.antt =====
-- Pruning with a tokenizer that counts characters.
use hexastack.Base.{ℕ, ◌≤◌, true, false, ◌≡◌, refl, none, some, List, [], ◌∷◌, length, leb, map}
use hexastack.Base.Text.{Text, codes}
use hexastack.Base.Outcome.{returned, raised, token_limit_exceeded}
use hexastack.Ai.Tokens.{
  ChatMessage, RawMessage, entity, mapping, oldest_first, trim_token_exact, normalize_message,
  count_messages_tokens, prune_oldest_first, prune_keep_last_n, intact, search, searched,
  words_from, prune_trim_exact, prune_messages,
}
use hexastack.Ai.Tokens.Trimming.{IsCut, IsFull, searched_ends}
use hexastack.Ai.Tokens.Pruning.{Cases, prune_messages-Cases, prune_keep_last_n-prune_oldest_first}

abbrev said : List ℕ → List ℕ → ChatMessage
said role content = record { role = role; content = content; name = none; metadata = [] }

abbrev system : ChatMessage
system = said (codes "system") (codes "be brief")

abbrev long : ChatMessage
long = said (codes "user") (codes "one two three four five six")

abbrev short : ChatMessage
short = said (codes "user") (codes "hi")

abbrev talk : List RawMessage
talk =
    mapping none (some (codes "one two three four five six")) none none
    ∷ entity system
    ∷ entity short
    ∷ []

prune_runs :
    (prune_messages length 50 oldest_first true talk ≡ returned (system ∷ short ∷ []))
    × (prune_messages length 54 trim_token_exact true talk
        ≡ returned (system ∷ said (codes "user") (codes "one two three...") ∷ short ∷ []))
    × (prune_messages length 19 oldest_first true talk ≡ raised token_limit_exceeded)
    × (prune_messages length 90 oldest_first true talk ≡ returned (long ∷ system ∷ short ∷ []))
unfolding prune_messages count_messages_tokens prune_oldest_first prune_trim_exact search words_from
    intact normalize_message
prune_runs = (refl, refl, refl, refl)

prune_messages-Cases_example :
    Cases length 54 true
      (map normalize_message talk)
      (prune_messages length 54 trim_token_exact true talk)
prune_messages-Cases_example = prune_messages-Cases length 54 trim_token_exact true talk

prune_keep_last_n-prune_oldest_first_example :
    prune_keep_last_n length 50 (system ∷ []) (long ∷ short ∷ [])
    ≡ prune_oldest_first length 50 (system ∷ []) (long ∷ short ∷ [])
prune_keep_last_n-prune_oldest_first_example =
    prune_keep_last_n-prune_oldest_first length 50 (system ∷ []) (long ∷ short ∷ [])

abbrev words : List Text
words = codes "one" ∷ codes "two" ∷ codes "three" ∷ []

searched_ends_example :
    let s = searched length 54 (system ∷ []) long (short ∷ []) words in
    (leb s.low s.high ≡ false)
    × ((k : ℕ) × (k ≤ length words)
        × IsCut length 54 (system ∷ []) long (short ∷ []) words k s.best_text
        × IsFull length 54 (system ∷ []) long (short ∷ []) words k)
searched_ends_example = searched_ends length 54 (system ∷ []) long (short ∷ []) words
