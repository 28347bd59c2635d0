-- ===== src/Auth/Webhooks/Tests.antt =====
-- Webhooks with a digest that shows its arguments, and the theorem on replays at a concrete request.
use hexastack.Base.{ℕ, suc, ◌+◌, ◌*◌, ◌≤◌, true, ◌≡◌, refl, List, [], ◌∷◌, ◌++◌}
use hexastack.Base.Int.{pos, negsuc, ◌-ℤ◌}
use hexastack.Base.Text.{Text, codes, split, strip, lstrip, int}
use hexastack.Base.Outcome.{returned, raised, invalid_webhook_signature, webhook_replay}
use hexastack.Auth.Webhooks.{
  Headers, get_header, parse_signature, str, verify_hmac, verify_github, verify_stripe,
}
use hexastack.Auth.Webhooks.Replays.{replay_window}

program : Unit {0}
unfolding get_header parse_signature str verify_hmac verify_github verify_stripe split strip lstrip
    int ◌-ℤ◌
program = tt

abbrev digest : Text → List ℕ → Text
digest secret payload = secret ++ payload

abbrev headers : Headers
headers =
    (codes "x-hub-signature-256", codes "sha256=kp ")
    ∷ (codes "STRIPE-Signature", codes "t=100, v1=zz, v1=k100.p")
    ∷ []

printed : str (negsuc 1204) ≡ codes "-1205"
unfolding program
printed = refl

github_accepts : verify_github digest (codes "p") headers (codes "k") ≡ returned true
unfolding program
github_accepts = refl

github_rejects :
    verify_github digest (codes "q") headers (codes "k") ≡ raised invalid_webhook_signature
unfolding program
github_rejects = refl

no_header :
    verify_hmac digest (codes "X-Signature") [] (codes "p") headers (codes "k")
    ≡ raised invalid_webhook_signature
unfolding program
no_header = refl

stripe_accepts : verify_stripe digest (pos 10) 95 (codes "p") headers (codes "k") ≡ returned true
unfolding program
stripe_accepts = refl

stripe_later : verify_stripe digest (pos 10) 110 (codes "p") headers (codes "k") ≡ returned true
unfolding program
stripe_later = refl

stripe_too_late :
    verify_stripe digest (pos 10) 111 (codes "p") headers (codes "k") ≡ raised webhook_replay
unfolding program
stripe_too_late = refl

stripe_other_payload :
    verify_stripe digest (pos 10) 95 (codes "q") headers (codes "k")
    ≡ raised invalid_webhook_signature
unfolding program
stripe_other_payload = refl

replay_window_example : 110 ≤ 95 + 2 * suc 9
replay_window_example =
    replay_window digest 9 95 110 (codes "p") headers (codes "k") stripe_accepts stripe_later
