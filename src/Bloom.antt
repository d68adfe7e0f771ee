-- ===== src/Bloom.antt =====
-- The node-ID occupancy filter of cy/cy.c: bloom64_set, bloom64_get, bloom64_purge.
pub mod Bits
pub mod Population
mod Tests
use cy.Prelude.{ℕ, zero, suc, ◌+◌, ◌*◌, ◌/◌, ◌%◌, ◌^◌, Bool, true, false, ltb, ◌==◌, if◌then◌else◌}
use cy.Node.{Bloom64, update}

-- (word & (1ULL << index)) != 0
unfoldable pub test_bit : ℕ → ℕ → Bool
test_bit word zero = word % 2 == 1
test_bit word (suc index) = test_bit (word / 2) index

-- word | (1ULL << index)
unfoldable pub set_bit : ℕ → ℕ → ℕ
set_bit word index = if test_bit word index then word else word + 2 ^ index

unfoldable pub bloom64_get : Bloom64 → ℕ → Bool
bloom64_get bloom value =
    let index = value % bloom.n_bits in test_bit (bloom.storage (index / 64)) (index % 64)

unfoldable pub bloom64_set : Bloom64 → ℕ → Bloom64
bloom64_set bloom value =
    let index = value % bloom.n_bits in
    if test_bit (bloom.storage (index / 64)) (index % 64) then bloom else record bloom {
      storage =
          update bloom.storage (index / 64) (set_bit (bloom.storage (index / 64)) (index % 64));
      popcount = bloom.popcount + 1;
    }

-- The loop over the words.
unfoldable pub clear_words : ℕ → (ℕ → ℕ) → ℕ → ℕ
clear_words count storage i = if ltb i count then 0 else storage i

unfoldable pub bloom64_purge : Bloom64 → Bloom64
bloom64_purge bloom = record bloom {
  storage = clear_words ((bloom.n_bits + 63) / 64) bloom.storage;
  popcount = 0;
}
