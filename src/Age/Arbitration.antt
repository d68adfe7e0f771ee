-- ===== src/Age/Arbitration.antt =====
-- left_wins of cy/cy.c, seen from both sides.
use cy.Prelude.{ℕ, ◌≡◌, ◌≢◌, not, arith, ltb, if◌then◌else◌}
use cy.Prelude.Int.{ℤ, pos, negsuc, ltb_ℤ}
use cy.Age.{log2_floor, left_wins, eq_ℤ}

-- Two topics with distinct hashes: one of them wins, whichever of the two does the arbitration, and
-- the other one loses. So both nodes reach one verdict.
pub left_wins-not :
    (a_age a_hash b_age b_hash : ℕ)
    → a_hash ≢ b_hash
    → left_wins b_age b_hash (log2_floor a_age) a_hash
      ≡ not (left_wins a_age a_hash (log2_floor b_age) b_hash)
unfolding left_wins
left_wins-not a_age a_hash b_age b_hash ne = decide (log2_floor a_age) (log2_floor b_age)
  where
    decide :
        (l r : ℤ)
        → (if not (eq_ℤ r l) then ltb_ℤ l r else ltb b_hash a_hash)
          ≡ not (if not (eq_ℤ l r) then ltb_ℤ r l else ltb a_hash b_hash)
    decide (pos l) (pos r) = ground arith
    decide (pos l) (negsuc r) = ground arith
    decide (negsuc l) (pos r) = ground arith
    decide (negsuc l) (negsuc r) = ground arith
