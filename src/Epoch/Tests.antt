-- ===== src/Epoch/Tests.antt =====
-- Runs of the model of packages/shared/src/epoch.ts, and its theorem at those inputs.
use aurka.Prelude.{ℕ, zero, suc, ◌≡◌, refl, ok, List, [], ◌∷◌, ◌++◌}
use aurka.Prelude.Text.{codes}
use aurka.Financial.Integer.{text, bigint, to_uint256}
use aurka.Prelude.Int.{pos}
use aurka.Price.{is_hex_of}
use aurka.Slots.{
  byte_digits, bytes_to_hex, hex_to_bytes, padded_hex, bytes32_slot, uint_slot, address_slot,
}
use aurka.Epoch.{CapacityEpoch, hash_identifier, token_id, epoch_slots}
use aurka.Epoch.Commitment.{AreSameEpoch, epoch_slots-AreSameEpoch}
use aurka.Settlement.Samples.{constant_hash, epoch}

abbrev repeat : ℕ → ℕ → List ℕ
repeat zero b = []
repeat (suc n) b = b ∷ repeat n b

abbrev small_slot : ℕ → List ℕ
small_slot b = repeat 31 0 ++ (b ∷ [])

abbrev hash_slot : List ℕ
hash_slot = repeat 32 171

abbrev slots : List (List ℕ)
slots =
    hash_slot
    ∷ hash_slot
    ∷ hash_slot
    ∷ hash_slot
    ∷ hash_slot
    ∷ hash_slot
    ∷ small_slot 1
    ∷ hash_slot
    ∷ hash_slot
    ∷ small_slot 200
    ∷ small_slot 1
    ∷ small_slot 204
    ∷ []

-- The same epoch with its nonce as a string, and after some consumption.
abbrev consumed_epoch : CapacityEpoch
consumed_epoch = record epoch { policy_nonce = text (codes "1"); consumed_before = bigint (pos 70) }

slots_run : epoch_slots constant_hash epoch ≡ ok slots
unfolding epoch_slots hash_identifier bytes_to_hex byte_digits bytes32_slot is_hex_of hex_to_bytes
    token_id uint_slot to_uint256 padded_hex address_slot
slots_run = refl

consumed_slots_run : epoch_slots constant_hash consumed_epoch ≡ ok slots
unfolding epoch_slots hash_identifier bytes_to_hex byte_digits bytes32_slot is_hex_of hex_to_bytes
    token_id uint_slot to_uint256 padded_hex address_slot
consumed_slots_run = refl

epoch_slots-AreSameEpoch_example : AreSameEpoch constant_hash epoch consumed_epoch
epoch_slots-AreSameEpoch_example =
    epoch_slots-AreSameEpoch constant_hash epoch consumed_epoch slots_run consumed_slots_run refl
