-- ===== src/Beacon/Types.antt =====
-- e2e/internal/beacon/types.go, and the timing of e2e/internal/chaininfo/info.go.
use qrl_tests.Prelude.{
  ℕ, ◌+◌, ◌-◌, ◌*◌, ◌/◌, ◌%◌, ◌^◌, String, Bool, false, ◌&&◌, Option, none, some, List, [], ◌∷◌,
  length, get_elem?, ltb, ◌==◌, if◌then◌else◌,
}
use qrl_tests.Prelude.Int.{ℤ}

pub record BlockHeader : Type 0 where
  pub slot : ℕ
  pub root : String

-- The validators that attest at one slot, in aggregation bit order.
pub record Committee : Type 0 where
  pub index : ℕ
  pub slot : ℕ
  pub validators : List ℕ

pub record AttestationReward : Type 0 where
  pub validator_index : ℕ
  pub head : ℤ
  pub target : ℤ
  pub source : ℤ

-- chain.Epoch(slot); a chain has at least one slot in an epoch.
unfoldable pub epoch_of : ℕ → ℕ → ℕ
epoch_of slots_per_epoch slot = slot / slots_per_epoch

-- bits.Len8: the number of bits that a byte needs
abbrev pub bits_len8 : ℕ → ℕ
bits_len8 byte =
    if ltb byte 1
    then 0
    else if ltb byte 2
    then 1
    else if ltb byte 4
    then 2
    else if ltb byte 8
    then 3
    else if ltb byte 16
    then 4
    else if ltb byte 32
    then 5
    else if ltb byte 64
    then 6
    else if ltb byte 128
    then 7
    else 8

-- The last byte, and 0 for none.
abbrev pub last_byte : List ℕ → ℕ
last_byte [] = 0
last_byte (byte ∷ []) = byte
last_byte (byte ∷ next ∷ rest) = last_byte (next ∷ rest)

-- bitlistLen: an empty list and a last byte of 0 both have length 0.
unfoldable pub bitlist_len : List ℕ → ℕ
bitlist_len bitlist =
    if last_byte bitlist == 0
    then 0
    else (length bitlist - 1) * 8 + bits_len8 (last_byte bitlist) - 1

-- aggregation[position/8] & (1<<(position%8)) != 0, where the index is in range
abbrev pub bit_of : ℕ → Option ℕ → Bool
bit_of position none = false
bit_of position (some byte) = (byte / 2 ^ (position % 8)) % 2 == 1

-- attestation.Includes(position)
unfoldable pub includes : List ℕ → ℕ → Bool
unfolding bitlist_len
includes aggregation position =
    ltb position (bitlist_len aggregation) && bit_of position (get_elem? aggregation (position / 8))
