-- ===== src/Age/Log.antt =====
-- log2_floor and pow2 of cy/cy.c, and the merge of ages.
use cy.Prelude.{
  ℕ, zero, suc, ◌+◌, ◌*◌, ◌/◌, ◌^◌, ◌≤◌, ◌<◌, ◌≡◌, ◌∙◌, refl, inl, inr, arith, ltb, ◌==◌,
  if◌then◌else◌, Bool-cases,
}
use native.Mathlib.Nat.{pow-suc}
use cy.Prelude.Int.{ℤ, pos, negsuc}
use cy.Age.{count_leading_zeros, log2_floor, pow2, max_u64, max_i64}

pub two_pow_suc : (k : ℕ) → 2 ^ suc k ≡ 2 * 2 ^ k
two_pow_suc k = omega (arith, pow-suc 2 k)

-- Bit e is the highest one of x, in a word of w bits.
record Highest (w x : ℕ) : Type 0 where
  e : ℕ
  place : count_leading_zeros w x + suc e ≡ w
  low : 2 ^ e ≤ x
  high : x < 2 * 2 ^ e

highest : (w x : ℕ) → 0 < x → x < 2 ^ w → Highest w x
unfolding count_leading_zeros
highest zero x p h = absurd (omega (arith, h))
highest (suc w) x p h = elim (Bool-cases (x == 1)) [
  | inl one ↦ record { e = 0; place = ground arith; low = ground arith; high = ground arith }
  | inr more ↦
      let r = highest w (x / 2) (ground arith) (omega (arith, two_pow_suc w)) in
      record {
        e = suc r.e;
        place = ground (arith, r.place);
        low = omega (arith, two_pow_suc r.e, r.low);
        high = omega (arith, two_pow_suc r.e, r.high);
      }
]

-- e is the rounded logarithm of x.
pub record Rounds (x e : ℕ) : Type 0 where
  pub fits : e < 64
  pub low : 2 ^ e ≤ x
  pub high : x < 2 * 2 ^ e

pub log2_floor-Rounds : (x : ℕ) → 0 < x → x < 2 ^ 64 → (e : ℕ) × (log2_floor x ≡ pos e) × Rounds x e
unfolding log2_floor
log2_floor-Rounds x p h =
    let r = highest 64 x p h in
    (
      r.e,
      ground (arith, r.place),
      record { fits = omega (arith, r.place); low = r.low; high = r.high },
    )

two_pow_mono : (a b : ℕ) → a ≤ b → 2 ^ a ≤ 2 ^ b
two_pow_mono a zero h = let e : a ≡ 0 = omega arith in rw e (omega arith)
two_pow_mono a (suc b) h = elim (Bool-cases (a == suc b)) [
  | inl same ↦ let e : a ≡ suc b = ground arith in rw e (omega arith)
  | inr less ↦ omega (arith, two_pow_suc b, two_pow_mono a b (ground arith))
]

-- What rounds to more is more: rounding is monotone.
pub Rounds-le : {x y a b : ℕ} → Rounds x a → Rounds y b → x ≤ y → a ≤ b
Rounds-le {x} {y} {a} {b} r s h = elim (Bool-cases (ltb b a)) [
  | inl more ↦
      absurd (omega (arith, r.low, s.high, two_pow_suc b, two_pow_mono (suc b) a (ground arith)))
  | inr fine ↦ ground arith
]

pub log2_floor_eq : {x e : ℕ} → x < 2 ^ 64 → Rounds x e → log2_floor x ≡ pos e
log2_floor_eq {x} {e} h r =
    let positive : 0 < x = omega (arith, r.low, two_pow_mono 0 e (omega arith)) in
    let (a, eq, s) = log2_floor-Rounds x positive h in
    let le = Rounds-le s r (omega arith) in
    let ge = Rounds-le r s (omega arith) in let same : a ≡ e = omega arith in rw (eq, same)

-- floor(log2(x)): for an age x above zero, pow2 of log2_floor is at most x and more than half of it.
log2_floor_bounds :
    (x : ℕ) → 0 < x → x < 2 ^ 64 → (pow2 (log2_floor x) ≤ x) × (x < 2 * pow2 (log2_floor x))
unfolding pow2
log2_floor_bounds x p h =
    let (e, eq, r) = log2_floor-Rounds x p h in rw eq (ground (arith, r.low, r.high, r.fits))

Rounds-pow2 : (e : ℕ) → e < 64 → Rounds (2 ^ e) e
Rounds-pow2 e h = record {
  fits = h;
  low = omega arith;
  high = omega (arith, two_pow_mono 0 e (omega arith));
}

pow2-lt : (e : ℕ) → e < 64 → 2 ^ e < 2 ^ 64
pow2-lt e h =
    omega (arith, two_pow_suc e, two_pow_mono (suc e) 64 h, two_pow_mono 0 e (omega arith))

-- A rounded age in the range of the gossip message.
abbrev pub IsLogAge : ℤ → Type 0
IsLogAge (pos e) = e < 64
IsLogAge (negsuc n) = n ≡ 0

pow2-pos : (e : ℕ) → e < 64 → pow2 (pos e) ≡ 2 ^ e
unfolding pow2
pow2-pos e h = ground arith

pow2-negsuc : (n : ℕ) → pow2 (negsuc n) ≡ 0
unfolding pow2
pow2-negsuc n = refl

log2_floor-zero : log2_floor 0 ≡ negsuc 0
unfolding log2_floor
log2_floor-zero = refl

-- log2_floor undoes pow2 on every rounded age from -1 to 63.
log2_floor-pow2 : (lage : ℤ) → IsLogAge lage → log2_floor (pow2 lage) ≡ lage
log2_floor-pow2 (negsuc n) h = rw (pow2-negsuc, h) log2_floor-zero
log2_floor-pow2 (pos e) h = rw (pow2-pos e h) (log2_floor_eq (pow2-lt e h) (Rounds-pow2 e h))

merge_old :
    (age e : ℕ)
    → age < 2 ^ 64
    → e < 64
    → 2 ^ e < age
    → log2_floor age ≡ max_i64 (log2_floor age) (pos e)
unfolding max_i64
merge_old age e h fits less =
    let (a, eq, r) = log2_floor-Rounds age (omega arith) h in
    let le = Rounds-le (Rounds-pow2 e fits) r (omega arith) in rw eq (ground arith)

merge_new :
    (age e : ℕ) → age < 2 ^ 64 → e < 64 → age ≤ 2 ^ e → pos e ≡ max_i64 (log2_floor age) (pos e)
unfolding max_i64
merge_new age e h fits less = elim (Bool-cases (age == 0)) [
  | inl none ↦ let z : age ≡ 0 = ground arith in rw (z, log2_floor-zero) (ground arith)
  | inr some ↦
      let (a, eq, r) = log2_floor-Rounds age (ground arith) h in
      let le = Rounds-le r (Rounds-pow2 e fits) less in rw eq (ground arith)
]

merge_never : (age : ℕ) → age < 2 ^ 64 → log2_floor age ≡ max_i64 (log2_floor age) (negsuc 0)
unfolding max_i64
merge_never age h = elim (Bool-cases (age == 0)) [
  | inl none ↦ let z : age ≡ 0 = ground arith in rw (z, log2_floor-zero) refl
  | inr some ↦ let (a, eq, r) = log2_floor-Rounds age (ground arith) h in rw eq (ground arith)
]

-- The merge of a remote age: the rounded age afterwards is the larger one of the local rounded
-- age and the remote one.
log2_floor-max_u64 :
    (age : ℕ) (lage : ℤ)
    → age < 2 ^ 64
    → IsLogAge lage
    → log2_floor (max_u64 age (pow2 lage)) ≡ max_i64 (log2_floor age) lage
unfolding max_u64
log2_floor-max_u64 age (negsuc n) h fits =
    rw (pow2-negsuc, fits)
      (let e : (if ltb 0 age then age else 0) ≡ age = ground arith in rw e (merge_never age h))
log2_floor-max_u64 age (pos e) h fits = rw (pow2-pos e fits) (elim (Bool-cases (ltb (2 ^ e) age)) [
  | inl old ↦ rw old (merge_old age e h fits (ground arith))
  | inr new ↦
      rw new (
        log2_floor_eq (pow2-lt e fits) (Rounds-pow2 e fits) ∙ merge_new age e h fits (ground arith))
])
