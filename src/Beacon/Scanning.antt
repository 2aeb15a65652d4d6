-- ===== src/Beacon/Scanning.antt =====
-- What the scan for a reward has read when it ends.
use qrl_tests.Errors.{Result, ok, fail, Result-cases}
use qrl_tests.Beacon.Types.{AttestationReward, epoch_of}
use qrl_tests.Beacon.Rewards.{BeaconNode, attestation_reward, rewards_available, scan_from, scan}
use qrl_tests.Prelude.{
  ℕ, zero, suc, ◌+◌, ◌<◌, ◌≤◌, ◌%◌, ◌^◌, Bool, true, false, ◌≡◌, arith, Bool-cases, inl, inr, ◌==◌,
  subst,
}

module _ (node : BeaconNode) (slots_per_epoch : ℕ) (matches : AttestationReward → Bool)
    (index : ℕ) where
  -- An epoch whose reward was read and does not match.
  abbrev pub IsPassedOver : ℕ → Type 0
  IsPassedOver epoch =
      (reward : AttestationReward) × (attestation_reward node epoch index ≡ ok reward)
      × (matches reward ≡ false)

  -- What a scan says of the epoch that it ends at: its reward is available and matches, it could not
  -- be read, or it is not available.
  abbrev pub EndsAt : ℕ → ℕ → Result Bool → Type 0
  EndsAt head epoch (ok true) =
      (rewards_available slots_per_epoch head epoch ≡ true)
      × ((reward : AttestationReward) × (attestation_reward node epoch index ≡ ok reward)
          × (matches reward ≡ true))
  EndsAt head epoch (ok false) = rewards_available slots_per_epoch head epoch ≡ false
  EndsAt head epoch (fail e) =
      (rewards_available slots_per_epoch head epoch ≡ true)
      × (attestation_reward node epoch index ≡ fail e)

  pub record Scanned (head from : ℕ) (ended : ℕ × Result Bool) : Type 0 where
    pub onward : from ≤ ended.0
    pub passed_over : (k : ℕ) → from ≤ k → k < ended.0 → IsPassedOver k
    pub ends : EndsAt head ended.0 ended.1

  -- Without a wrap, no epoch after the head's has its rewards.
  unavailable :
      (head epoch : ℕ)
      → epoch + 2 < 2 ^ 64
      → epoch_of slots_per_epoch head < epoch + 1
      → rewards_available slots_per_epoch head epoch ≡ false
  unfolding rewards_available
  unavailable head epoch small late =
      let same : (epoch + 2) % 2 ^ 64 ≡ epoch + 2 = omega arith in rw same (ground arith)

  available :
      (head epoch : ℕ)
      → epoch + 2 < 2 ^ 64
      → rewards_available slots_per_epoch head epoch ≡ true
      → epoch + 2 ≤ epoch_of slots_per_epoch head
  unfolding rewards_available
  available head epoch small there =
      let same : (epoch + 2) % 2 ^ 64 ≡ epoch + 2 = omega arith in ground (arith, same, there)

  -- A scan that ends where it starts.
  ends_here :
      (head next : ℕ) (result : Result Bool)
      → EndsAt head next result
      → Scanned head next (next, result)
  ends_here head next result ends = record {
    onward = omega arith;
    passed_over = λ k from before. absurd (omega arith);
    ends = ends;
  }

  one_more :
      (head next : ℕ) (ended : ℕ × Result Bool)
      → IsPassedOver next
      → Scanned head (next + 1) ended
      → Scanned head next ended
  one_more head next ended here later = record {
    onward = omega (arith, later.onward);
    passed_over = λ k from before. elim (Bool-cases (k == next)) [
      | inl same ↦ subst IsPassedOver (ground (arith, same)) here
      | inr other ↦ later.passed_over k (ground (arith, other, from)) before
    ];
    ends = later.ends;
  }

  scan_from-Scanned :
      (head rounds next : ℕ)
      → next + 2 < 2 ^ 64
      → epoch_of slots_per_epoch head + 3 < 2 ^ 64
      → epoch_of slots_per_epoch head < next + rounds
      → Scanned head next (scan_from node slots_per_epoch matches index head rounds next)
  unfolding scan_from
  scan_from-Scanned head zero next small bound enough =
      ends_here head next (ok false) (unavailable head next small (omega arith))
  scan_from-Scanned head (suc rounds) next small bound enough =
      elim (Bool-cases (rewards_available slots_per_epoch head next)) [
        | inr none_yet ↦ rw none_yet (ends_here head next (ok false) none_yet)
        | inl there ↦ elim (Result-cases (attestation_reward node next index)) [
          | inr (fault, e) ↦ rw (there, e) (ends_here head next (fail fault) (there, e))
          | inl (reward, e) ↦ elim (Bool-cases (matches reward)) [
            | inl found ↦
                rw (there, e, found) (ends_here head next (ok true) (there, (reward, e, found)))
            | inr differs ↦
                let reached = available head next small there in
                rw (there, e, differs)
                  (one_more head next _ (reward, e, differs)
                    (scan_from-Scanned head rounds (next + 1) (omega (arith, reached)) bound
                      (omega (arith, enough))))
          ]
        ]
      ]

  -- A scan at a head ends at the first epoch from the scanner's next one on whose reward matches; or
  -- at one whose reward cannot be read, which a retry reads again; or at one whose rewards are not
  -- available yet. It has read every epoch before, and none matches. Epochs are far below 2 ^ 64.
  pub scan-Scanned :
      (head next : ℕ)
      → node.head_slot ≡ ok head
      → next + 2 < 2 ^ 64
      → epoch_of slots_per_epoch head + 3 < 2 ^ 64
      → Scanned head next (scan node slots_per_epoch matches index next)
  unfolding scan
  scan-Scanned head next e small bound =
      let loop : scan_from node slots_per_epoch matches index head
            (epoch_of slots_per_epoch head + 1) next
          ≡ scan node slots_per_epoch matches index next =
        ground (arith, e) in
      subst (Scanned head next) loop
        (scan_from-Scanned head (epoch_of slots_per_epoch head + 1) next small bound (omega arith))
