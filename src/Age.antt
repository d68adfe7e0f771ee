-- ===== src/Age.antt =====
-- Topic ages and arbitration, of cy/cy.c: log2_floor, pow2, max_u64, left_wins.
pub mod Log
pub mod Arbitration
mod Tests
use cy.Prelude.{ℕ, zero, suc, ◌+◌, ◌-◌, ◌/◌, ◌^◌, Bool, true, false, not, ltb, ◌==◌, if◌then◌else◌}
use cy.Prelude.Int.{ℤ, pos, negsuc, ltb_ℤ}

-- __builtin_clzll at a positive x below 2 ^ w: the leading zeros of a word of w bits.
unfoldable pub count_leading_zeros : ℕ → ℕ → ℕ
count_leading_zeros zero x = 0
count_leading_zeros (suc w) x =
    if x == 0 then suc w else if x == 1 then w else count_leading_zeros w (x / 2)

-- -1 at zero, so that ages compare linearly.
unfoldable pub log2_floor : ℕ → ℤ
log2_floor x = if x == 0 then negsuc 0 else pos (63 - count_leading_zeros 64 x)

unfoldable pub pow2 : ℤ → ℕ
pow2 (negsuc n) = 0
pow2 (pos n) = if ltb 63 n then 2 ^ 64 - 1 else 2 ^ n

unfoldable pub max_u64 : ℕ → ℕ → ℕ
max_u64 a b = if ltb b a then a else b

unfoldable pub max_i64 : ℤ → ℤ → ℤ
max_i64 a b = if ltb_ℤ b a then a else b

unfoldable pub larger : ℕ → ℕ → ℕ
larger a b = if ltb b a then a else b

unfoldable pub smaller : ℕ → ℕ → ℕ
smaller a b = if ltb a b then a else b

-- Equality of integers, `!=` negated.
unfoldable pub eq_ℤ : ℤ → ℤ → Bool
eq_ℤ (pos a) (pos b) = a == b
eq_ℤ (pos a) (negsuc b) = false
eq_ℤ (negsuc a) (pos b) = false
eq_ℤ (negsuc a) (negsuc b) = a == b

-- The topic of age `l_age` and hash `l_hash` against one whose rounded age and hash are known.
unfoldable pub left_wins : ℕ → ℕ → ℤ → ℕ → Bool
unfolding eq_ℤ
left_wins l_age l_hash r_lage r_hash =
    let l_lage = log2_floor l_age in
    if not (eq_ℤ l_lage r_lage) then ltb_ℤ r_lage l_lage else ltb l_hash r_hash
