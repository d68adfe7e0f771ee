-- ===== src/Bloom/Bits.antt =====
-- Single bits of the words of the filter (bloom64_set and bloom64_get of cy/cy.c).
use cy.Prelude.{
  ℕ, zero, suc, ◌+◌, ◌*◌, ◌/◌, ◌%◌, ◌^◌, ◌≡◌, ◌≢◌, refl, ap, ap₂, sym, ◌∙◌, Bool, true, false, ◌||◌,
  arith, ◌==◌, Bool-cases, inl, inr,
}
use cy.Node.{Bloom64, update}
use cy.Bloom.{test_bit, set_bit, bloom64_get, bloom64_set}

two_pow_suc : (i : ℕ) → 2 ^ suc i ≡ 2 * 2 ^ i
two_pow_suc i = omega arith

half_shift : (w x : ℕ) → (w + 2 * x) / 2 ≡ w / 2 + x
half_shift w x = omega arith

later : (j : ℕ) → (0 == suc j) ≡ false
later j = ground arith

both_later : (i j : ℕ) → (suc i == suc j) ≡ (i == j)
both_later i j = ground arith

-- Adding the power of a bit that is clear changes this bit only.
test_bit-add :
    (w i j : ℕ) → test_bit w i ≡ false → test_bit (w + 2 ^ i) j ≡ (i == j || test_bit w j)
unfolding test_bit
test_bit-add w zero zero h = ground arith
test_bit-add w zero (suc j) h = rw (later j) (ap (λ z. test_bit z j) (ground arith))
test_bit-add w (suc i) zero h = ground (arith, two_pow_suc i)
test_bit-add w (suc i) (suc j) h =
    ap (λ z. test_bit z j) (ap (λ z. (w + z) / 2) (two_pow_suc i) ∙ half_shift w (2 ^ i))
    ∙ test_bit-add (w / 2) i j h
    ∙ ap (λ b. b || test_bit (w / 2) j) (sym (both_later i j))

pub test_bit-set_bit : (w i j : ℕ) → test_bit (set_bit w i) j ≡ (i == j || test_bit w j)
unfolding set_bit
test_bit-set_bit w i j = elim (Bool-cases (test_bit w i)) [
  | inl e ↦ rw e (elim (Bool-cases (i == j)) [
    | inl q ↦ let same : i ≡ j = ground arith in rw q (ap (test_bit w) (sym same) ∙ e)
    | inr q ↦ rw q refl
  ])
  | inr e ↦ rw e (test_bit-add w i j e)
]

-- The bit of an index in the storage of a filter.
abbrev pub bit_at : Bloom64 → ℕ → Bool
bit_at bloom index = test_bit (bloom.storage (index / 64)) (index % 64)

same_place : (i j : ℕ) → i / 64 ≡ j / 64 → (i % 64 == j % 64) ≡ (i == j)
same_place i j h = ground arith

apart_place : (i j : ℕ) → i / 64 ≢ j / 64 → (i == j) ≡ false
apart_place i j h = ground arith

-- A write of one word, seen bit by bit.
bit_at-word :
    (storage : ℕ → ℕ) (k j : ℕ)
    → test_bit (update storage (k / 64) (set_bit (storage (k / 64)) (k % 64)) (j / 64)) (j % 64)
      ≡ (k == j || test_bit (storage (j / 64)) (j % 64))
unfolding update
bit_at-word storage k j = elim (Bool-cases (j / 64 == k / 64)) [
  | inl e ↦
      let same : k / 64 ≡ j / 64 = ground arith in
      rw e (
        test_bit-set_bit (storage (k / 64)) (k % 64) (j % 64)
        ∙ ap₂ (λ b w. b || test_bit (storage w) (j % 64)) (same_place k j same) same)
  | inr e ↦ rw (e, apart_place k j (ground arith)) refl
]

already :
    (storage : ℕ → ℕ) (k j : ℕ)
    → test_bit (storage (k / 64)) (k % 64) ≡ true
    → test_bit (storage (j / 64)) (j % 64) ≡ (k == j || test_bit (storage (j / 64)) (j % 64))
already storage k j e = elim (Bool-cases (k == j)) [
  | inl q ↦
      let same : k ≡ j = ground arith in
      rw q (ap (λ x. test_bit (storage (x / 64)) (x % 64)) (sym same) ∙ e)
  | inr q ↦ rw q refl
]

pub bit_at-bloom64_set :
    (bloom : Bloom64) (value j : ℕ)
    → bit_at (bloom64_set bloom value) j ≡ (value % bloom.n_bits == j || bit_at bloom j)
unfolding bloom64_set
bit_at-bloom64_set bloom value j =
    let k = value % bloom.n_bits in
    elim (Bool-cases (test_bit (bloom.storage (k / 64)) (k % 64))) [
      | inl e ↦ rw e (already bloom.storage k j e)
      | inr e ↦ rw e (bit_at-word bloom.storage k j)
    ]

pub bloom64_set-n_bits :
    (bloom : Bloom64) (value : ℕ) → (bloom64_set bloom value).n_bits ≡ bloom.n_bits
unfolding bloom64_set
bloom64_set-n_bits bloom value = ground arith

-- What a filter holds after a value was added: what it held, and every value that has its place.
pub bloom64_get-bloom64_set :
    (bloom : Bloom64) (value other : ℕ)
    → bloom64_get (bloom64_set bloom value) other
      ≡ (value % bloom.n_bits == other % bloom.n_bits || bloom64_get bloom other)
unfolding bloom64_get
bloom64_get-bloom64_set bloom value other =
    ap (λ n. bit_at (bloom64_set bloom value) (other % n)) (bloom64_set-n_bits bloom value)
    ∙ bit_at-bloom64_set bloom value (other % bloom.n_bits)
