-- ===== src/SyncCheck.antt =====
-- e2e/internal/synccheck/synccheck.go: what is sampled of a chain, how a node reached the head, and
-- how the blocks of two nodes are compared.
pub mod Sampling
mod Tests
use qrl_tests.Prelude.{
  ℕ, zero, suc, ◌+◌, ◌-◌, ◌/◌, ◌%◌, ◌^◌, max, String, Bool, true, false, ◌&&◌, ◌||◌, not, Option,
  none, some, List, [], ◌∷◌, ltb, if◌then◌else◌, is_some,
}
use qrl_tests.Prelude.Text.{codes, contains_text}
use qrl_tests.Errors.{Fault, Result, ok, fail}

abbrev pub compared_samples : ℕ
compared_samples = 25

-- The loop of sampledRange on words of 64 bits, with the last value behind it; `none` is a loop that
-- has not ended after `rounds` rounds.
unfoldable pub values_from : ℕ → ℕ → ℕ → ℕ → Option (List ℕ)
values_from zero value last step = none
values_from (suc rounds) value last step =
    let later = values_from rounds ((value + step) % 2 ^ 64) last step in
    if ltb value last
    then (elim later [ none ↦ none | some values ↦ some (value ∷ values) ])
    else some (last ∷ [])

unfoldable pub sample_step : ℕ → ℕ → ℕ
sample_step first last = max ((last - first) / compared_samples) 1

-- sampledRange
unfoldable pub sampled_range : ℕ → ℕ → Option (List ℕ)
sampled_range first last =
    if ltb last first then some [] else values_from 51 first last (sample_step first last)

pub record SyncPath : Type 0 where
  pub downloaded : Bool
  pub snap : Bool

pub record Sync : Type 0 where
  pub path : SyncPath
  pub optimistic : Bool

-- path.String()
unfoldable pub path_text : SyncPath → String
path_text path =
    if path.snap
    then "snap sync"
    else if path.downloaded
    then "full sync over devp2p"
    else "payload by payload"

pub record Progress : Type 0 where
  pub highest_block : ℕ
  pub synced_accounts : ℕ
  pub synced_storage : ℕ

-- What the node answers in one poll: its progress if it reports one, whether it is optimistic, and
-- whether both heads are those of the source.
pub record Poll : Type 0 where
  pub progress : Result (Option Progress)
  pub optimistic : Result Bool
  pub has_heads : Bool

unfoldable pub with_progress : Option Progress → Sync → Sync
with_progress none sync = sync
with_progress (some progress) sync = record sync {
  path = record {
    downloaded = sync.path.downloaded || ltb 0 progress.highest_block;
    snap = sync.path.snap || ltb 0 progress.synced_accounts || ltb 0 progress.synced_storage;
  };
}

-- One poll: what has been seen by its end, and whether every expectation of it held. A call that
-- fails ends the poll.
unfoldable pub observe : Poll → Sync → Sync × Bool
unfolding with_progress
observe poll sync = elim poll.progress [
  | fail e ↦ (sync, false)
  | ok progress ↦ elim poll.optimistic [
    | fail e ↦ (with_progress progress sync, false)
    | ok optimistic ↦ (
      record (with_progress progress sync) { optimistic = sync.optimistic || optimistic },
      poll.has_heads,
    )
  ]
]

-- The polls before the deadline; `none` if none of them held.
unfoldable pub poll_until : List Poll → Sync → Option Sync
unfolding observe
poll_until [] sync = none
poll_until (poll ∷ rest) sync =
    let seen = observe poll sync in
    let later = poll_until rest seen.0 in if seen.1 then some seen.0 else later

abbrev pub says : String → String → Bool
says log line = contains_text (codes log) (codes line)

abbrev pub nothing_seen : Sync
nothing_seen = record { path = record { downloaded = false; snap = false }; optimistic = false }

-- WaitForHead, with the two logs that are read after it
unfoldable pub wait_for_head : List Poll → String → String → Option Sync
unfolding poll_until contains_text
wait_for_head polls execution_log beacon_log = elim (poll_until polls nothing_seen) [
  | none ↦ none
  | some sync ↦ some (record {
    path = record {
      downloaded = sync.path.downloaded || says execution_log "Block synchronisation started";
      snap = sync.path.snap || says execution_log "Syncing: state download in progress";
    };
    optimistic = sync.optimistic || says beacon_log "optimistic block";
  })
]

-- What a beacon node answers for the block at a slot: a header, that there is none, or an error.
pub data BlockAnswer {ℓ} (Header : Type ℓ) : Type ℓ where
  header : Header → BlockAnswer Header
  not_found : BlockAnswer Header
  unanswered : BlockAnswer Header

module _ {ℓ} {Header : Type ℓ} (same : Header → Header → Bool) where
  -- expectSameBlockAtSlot, as the test that it makes of the answers of the node and of the source
  unfoldable pub expect_same_block : BlockAnswer Header → BlockAnswer Header → Bool
  expect_same_block not_found not_found = true
  expect_same_block _ not_found = false
  expect_same_block (header on_node) (header on_source) = same on_node on_source
  expect_same_block _ _ = false

  -- expectNoOtherBlockAtSlot
  unfoldable pub expect_no_other_block : BlockAnswer Header → BlockAnswer Header → Bool
  expect_no_other_block not_found _ = true
  expect_no_other_block (header on_node) (header on_source) = same on_node on_source
  expect_no_other_block _ _ = false
