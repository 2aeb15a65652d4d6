-- ===== src/SyncCheck/Tests.antt =====
-- A sampled range and a node that syncs, and the theorem about sampling there.
use qrl_tests.Prelude.{ℕ, ◌≤◌, none, some, List, [], ◌∷◌, ◌≡◌, refl, arith, length, true, false}
use qrl_tests.Errors.{ok, fail, plain}
use qrl_tests.SyncCheck.{values_from, sample_step, sampled_range, Poll, wait_for_head, path_text}
use qrl_tests.SyncCheck.Sampling.{BeginsWith, Reaches, sampled_range-Reaches}

sampled :
    sampled_range 3 80
    ≡ some (
        3 ∷ 6 ∷ 9 ∷ 12 ∷ 15 ∷ 18 ∷ 21 ∷ 24 ∷ 27 ∷ 30 ∷ 33 ∷ 36 ∷ 39 ∷ 42 ∷ 45 ∷ 48 ∷ 51 ∷ 54 ∷ 57
        ∷ 60 ∷ 63 ∷ 66 ∷ 69 ∷ 72 ∷ 75 ∷ 78 ∷ 80 ∷ [])
unfolding sampled_range values_from sample_step
sampled = refl

small_step : sample_step 3 80 ≡ 3
unfolding sample_step
small_step = refl

sampled_range-Reaches_example :
    (values : List ℕ) × (sampled_range 3 80 ≡ some values)
    × BeginsWith 3 values
    × Reaches (sample_step 3 80) 80 values
    × (length values ≤ 51)
sampled_range-Reaches_example = sampled_range-Reaches 3 80 (omega arith) (omega (arith, small_step))

abbrev polls : List Poll
polls =
    record { progress = fail (plain "no answer"); optimistic = ok false; has_heads = true }
    ∷ record {
      progress = ok (some (record { highest_block = 9; synced_accounts = 0; synced_storage = 0 }));
      optimistic = ok true;
      has_heads = false;
    }
    ∷ record { progress = ok none; optimistic = ok false; has_heads = true }
    ∷ []

synced :
    wait_for_head polls "imported" "synced"
    ≡ some (record { path = record { downloaded = true; snap = false }; optimistic = true })
unfolding wait_for_head
synced = refl

full_sync : path_text (record { downloaded = true; snap = false }) ≡ "full sync over devp2p"
unfolding path_text
full_sync = refl
