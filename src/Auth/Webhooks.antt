-- ===== src/Auth/Webhooks.antt =====
-- packages/hexastack_auth/src/hexastack_auth/adapters/webhook.py: the verifiers that compare a hexadecimal
-- digest. Headers are ASCII; times are whole seconds.
pub mod Replays
mod Tests
use hexastack.Base.{
  ℕ, zero, suc, ◌+◌, ◌-◌, ◌*◌, ◌/◌, ◌%◌, Bool, true, false, not, ◌&&◌, ◌||◌, Option, none, some,
  List, [], ◌∷◌, ◌++◌, ltb, ◌==◌, length, drop, if◌then◌else◌,
}
use hexastack.Base.Int.{ℤ, pos, negsuc, pos_part, neg_part, ltb_ℤ, ◌-ℤ◌}
use hexastack.Base.Text.{Text, codes, same, strip, lstrip, lower, split, int}
use hexastack.Base.Outcome.{
  Outcome, returned, raised, invalid_webhook_signature, webhook_replay, ◌>>=◌, required, raise_if,
  Done,
}
use hexastack.Core.Identity.{startswith}

abbrev pub Headers : Type 0
Headers = List (Text × Text)

-- `_get_header`
unfoldable pub get_header : Headers → Text → Option Text
get_header [] name = none
get_header ((k, v) ∷ headers) name =
    let later = get_header headers name in if same (lower k) (lower name) then some v else later

-- `sig[len(prefix):]` where the signature has the prefix.
abbrev without_prefix : Text → Text → Text
without_prefix prefix sig = if startswith prefix sig then drop (length prefix) sig else sig

-- `s.split("=", 1)`, where it has two parts.
abbrev with_char : ℕ → Option (Text × Text) → Option (Text × Text)
with_char c none = none
with_char c (some (key, val)) = some (c ∷ key, val)

unfoldable split_once : Text → Option (Text × Text)
split_once [] = none
split_once (c ∷ s) =
    let later = with_char c (split_once s) in if c == b'=' then some ([], s) else later

-- The variables of the loop over the items of a `Stripe-Signature`.
pub record Parsed : Type 0 where
  pub timestamp : Option ℤ
  pub v1_signatures : List Text

abbrev or_kept : Option ℤ → Option ℤ → Option ℤ
or_kept kept none = kept
or_kept kept (some t) = some t

abbrev read_pair : Text → Text → Parsed → Parsed
read_pair key val p =
    if same key (codes "t")
    then record p { timestamp = or_kept p.timestamp (int val) }
    else if same key (codes "v1")
    then record p { v1_signatures = p.v1_signatures ++ val ∷ [] }
    else p

abbrev read_item : Option (Text × Text) → Parsed → Parsed
read_item none p = p
read_item (some (key, val)) p = read_pair (strip key) (strip val) p

unfoldable read_items : List Text → Parsed → Parsed
unfolding split_once
read_items [] p = p
read_items (item ∷ items) p = read_items items (read_item (split_once (strip item)) p)

unfoldable pub parse_signature : Text → Parsed
unfolding read_items
parse_signature raw_sig =
    read_items (split b',' raw_sig) (record { timestamp = none; v1_signatures = [] })

-- `str(n)`, on fuel above the number of digits.
unfoldable decimal : ℕ → ℕ → Text
decimal zero n = []
decimal (suc fuel) n =
    let front = decimal fuel (n / 10) in
    if ltb n 10 then (b'0' + n) ∷ [] else front ++ (b'0' + n % 10) ∷ []

unfoldable pub str : ℤ → Text
unfolding decimal
str (pos n) = decimal (n + 1) n
str (negsuc n) = b'-' ∷ decimal (n + 2) (n + 1)

abbrev pub distance : ℕ → ℤ → ℕ
distance now timestamp = pos_part (pos now -ℤ timestamp) + neg_part (pos now -ℤ timestamp)

abbrev pub any_same : Text → List Text → Bool
any_same expected [] = false
any_same expected (s ∷ sigs) = same s expected || any_same expected sigs

abbrev pub is_nil : List Text → Bool
is_nil [] = true
is_nil (x ∷ xs) = false

-- `digest` is the hexadecimal HMAC-SHA256 of a payload under a secret.
module _ (digest : Text → List ℕ → Text) where
  unfoldable pub verify_hmac : Text → Text → List ℕ → Headers → Text → Outcome Bool
  verify_hmac header_name prefix payload headers secret = do
    raw_sig ← required invalid_webhook_signature (get_header headers header_name)
    _ ←
        raise_if (not (same (without_prefix prefix (strip raw_sig)) (digest secret payload)))
          invalid_webhook_signature
    returned true

  unfoldable pub verify_github : List ℕ → Headers → Text → Outcome Bool
  verify_github payload headers secret = do
    raw_sig ← required invalid_webhook_signature (get_header headers (codes "X-Hub-Signature-256"))
    _ ← raise_if (not (startswith (codes "sha256=") (strip raw_sig))) invalid_webhook_signature
    _ ←
        raise_if (not (same (drop 7 (strip raw_sig)) (digest secret payload)))
          invalid_webhook_signature
    returned true

  -- The tests of the age and of the signatures.
  abbrev pub check_stripe : ℤ → ℕ → List ℕ → Text → List Text → ℤ → Outcome Bool
  check_stripe tolerance_seconds now payload secret v1_signatures timestamp = do
    _ ←
        raise_if
          (ltb_ℤ (pos 0) tolerance_seconds
            && ltb_ℤ tolerance_seconds (pos (distance now timestamp)))
          webhook_replay
    _ ←
        raise_if (not (any_same (digest secret (str timestamp ++ b'.' ∷ payload)) v1_signatures))
          invalid_webhook_signature
    returned true

  abbrev pub check_parsed : ℤ → ℕ → List ℕ → Text → Parsed → Outcome Bool
  check_parsed tolerance_seconds now payload secret p = do
    timestamp ← required invalid_webhook_signature p.timestamp
    _ ← raise_if (is_nil p.v1_signatures) invalid_webhook_signature
    check_stripe tolerance_seconds now payload secret p.v1_signatures timestamp

  -- `now` is `int(time.time())`.
  unfoldable pub verify_stripe : ℤ → ℕ → List ℕ → Headers → Text → Outcome Bool
  verify_stripe tolerance_seconds now payload headers secret = do
    raw_sig ← required invalid_webhook_signature (get_header headers (codes "Stripe-Signature"))
    check_parsed tolerance_seconds now payload secret (parse_signature raw_sig)
