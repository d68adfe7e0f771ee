-- ===== src/Bloom/Tests.antt =====
-- A filter of 128 bits.
use cy.Prelude.{◌%◌, ◌≤◌, ◌≡◌, refl, ◌||◌, ◌==◌, arith}
use cy.Node.{Bloom64}
use cy.Bloom.{bloom64_get, bloom64_set, bloom64_purge, test_bit}
use cy.Bloom.Bits.{bloom64_get-bloom64_set}
use cy.Bloom.Population.{count_bits, WellCounted, bloom64_set-WellCounted}

abbrev empty_filter : Bloom64
empty_filter = record { n_bits = 128; popcount = 0; storage = λ i. 0 }

empty-WellCounted : WellCounted empty_filter
unfolding count_bits test_bit
empty-WellCounted = record { filled = omega arith; whole = refl; counted = refl }

bloom64_get-bloom64_set_example :
    bloom64_get (bloom64_set empty_filter 70) 198
    ≡ (70 % 128 == 198 % 128 || bloom64_get empty_filter 198)
bloom64_get-bloom64_set_example = bloom64_get-bloom64_set empty_filter 70 198

bloom64_set-WellCounted_example :
    WellCounted (bloom64_set empty_filter 70)
    × ((bloom64_set empty_filter 70).popcount ≤ 128)
    × WellCounted (bloom64_purge empty_filter)
bloom64_set-WellCounted_example = bloom64_set-WellCounted empty_filter 70 empty-WellCounted
