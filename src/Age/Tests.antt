-- ===== src/Age/Tests.antt =====
-- The properties of ages and arbitration at concrete values.
use cy.Prelude.{◌-◌, ◌^◌, ◌≡◌, refl, false, not, arith}
use cy.Prelude.Int.{pos}
use cy.Age.{count_leading_zeros, log2_floor, left_wins}
use cy.Age.Arbitration.{left_wins-not}

log2_floor_runs : log2_floor 1000 ≡ pos 9
unfolding log2_floor count_leading_zeros
log2_floor_runs = refl

log2_floor_top : log2_floor (2 ^ 64 - 1) ≡ pos 63
unfolding log2_floor count_leading_zeros
log2_floor_top = refl

-- The younger topic loses, although it is pinned and its hash is the smaller one.
pinned_may_lose : left_wins 0 1234 (pos 3) 1_000_000 ≡ false
unfolding left_wins log2_floor count_leading_zeros
pinned_may_lose = refl

left_wins-not_example :
    left_wins 7 9000 (log2_floor 5) 9001 ≡ not (left_wins 5 9001 (log2_floor 7) 9000)
left_wins-not_example = left_wins-not 5 9001 7 9000 (omega arith)
