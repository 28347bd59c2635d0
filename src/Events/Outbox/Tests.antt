-- ===== src/Events/Outbox/Tests.antt =====
-- The theorems at a concrete storage.
use hexastack.Base.{
  ℕ, ◌+◌, ◌≤◌, ◌≡◌, refl, ◌≢◌, String, none, some, List, [], ◌∷◌, All, String_discrete, ltb, length,
}
use hexastack.Base.Int.{pos, negsuc}
use hexastack.Base.Sort.{sort_by}
use hexastack.Dict.{lookup, string_key}
use hexastack.Events.Outbox.{pending, published, OutboxRecord, Storage, is_eligible, fetch_pending}
use hexastack.Events.Outbox.Pending.{IsValid}
use hexastack.Events.Outbox.Oldest.{
  IsStored, IsDue, Ascending, FetchedOrLater, fetch_pending-Oldest,
}
use hexastack.Events.Outbox.Delivery.{fail_times, fail_times-eligible}

abbrev late : OutboxRecord ℕ
late = record {
  id = "late";
  event_type = "Paid";
  source = "hexastack";
  payload = 1;
  status = pending;
  retry_count = 0;
  correlation_id = none;
  tenant_id = none;
  created_at = 20;
  published_at = none;
  last_error = none;
}

abbrev early : OutboxRecord ℕ
early = record late { id = "early"; created_at = 10 }

abbrev storage : Storage ℕ
storage = ("late", late) ∷ ("early", early) ∷ []

fetch_both :
    (fetch_pending (pos 9) storage ≡ early ∷ late ∷ [])
    × (fetch_pending (negsuc 0) storage ≡ early ∷ [])
unfolding fetch_pending sort_by
fetch_both = (refl, refl)

storage-IsValid : IsValid storage
unfolding String_discrete
storage-IsValid = record { distinct = (refl, (refl, tt)); keyed = (refl, (refl, tt)) }

fetch_pending-Oldest_example :
    (length (fetch_pending (pos 1) storage) ≤ 1)
    × All (λ r. IsStored storage r × IsDue r) (fetch_pending (pos 1) storage)
    × Ascending (fetch_pending (pos 1) storage)
    × ((r : OutboxRecord ℕ)
        → IsStored storage r
        → IsDue r
        → FetchedOrLater 1 (fetch_pending (pos 1) storage) r)
fetch_pending-Oldest_example = fetch_pending-Oldest 1 storage storage-IsValid

abbrev errors : List String
errors = "1" ∷ "2" ∷ "3" ∷ "4" ∷ "5" ∷ []

fail_times-eligible_example :
    (r : OutboxRecord ℕ) × (lookup "late" (fail_times "late" errors storage) ≡ some r)
    × (r.retry_count ≡ 0 + length errors)
    × (r.payload ≡ 1)
    × (is_eligible r ≡ ltb (0 + length errors) 5)
unfolding String_discrete
fail_times-eligible_example =
    fail_times-eligible "late" errors storage late refl pending-ne-published
  where
    pending-ne-published : pending ≢ published
    pending-ne-published e = cc e
