-- ===== src/Bloom/Population.antt =====
-- The population count that bloom64_set and bloom64_purge of cy/cy.c keep.
use cy.Prelude.{
  ℕ, zero, suc, ◌+◌, ◌/◌, ◌%◌, ◌≤◌, ◌<◌, ◌≡◌, refl, ap, sym, ◌∙◌, inl, inr, Bool, true, false, ◌||◌,
  arith, ◌==◌, if◌then◌else◌, Bool-cases, lt→ltb,
}
use cy.Node.{Bloom64}
use cy.Bloom.{test_bit, bloom64_set, bloom64_purge, clear_words}
use cy.Bloom.Bits.{bit_at, bit_at-bloom64_set, bloom64_set-n_bits}

-- The number of set bits below n.
unfoldable pub count_bits : (ℕ → Bool) → ℕ → ℕ
count_bits p zero = 0
count_bits p (suc n) = count_bits p n + (if p n then 1 else 0)

count_bits-congr :
    (p q : ℕ → Bool) (n : ℕ) → ((x : ℕ) → x < n → p x ≡ q x) → count_bits p n ≡ count_bits q n
unfolding count_bits
count_bits-congr p q zero h = refl
count_bits-congr p q (suc n) h =
    let here = h n (omega arith) in
    let rest = count_bits-congr p q n (λ x lt. h x (omega arith)) in rw (here, rest) refl

pub count_bits_le : (p : ℕ → Bool) (n : ℕ) → count_bits p n ≤ n
unfolding count_bits
count_bits_le p zero = omega arith
count_bits_le p (suc n) = ground (arith, count_bits_le p n)

-- One more bit.
count_bits-add :
    (p : ℕ → Bool) (k n : ℕ)
    → p k ≡ false
    → k < n
    → count_bits (λ x. k == x || p x) n ≡ count_bits p n + 1
unfolding count_bits
count_bits-add p k zero h lt = absurd (omega arith)
count_bits-add p k (suc n) h lt = elim (Bool-cases (k == n)) [
  | inl e ↦
      let same : k ≡ n = ground arith in
      let rest =
        count_bits-congr (λ x. k == x || p x) p n
          (λ x below. let other : (k == x) ≡ false = ground arith in rw other refl) in
      let here = ap p (sym same) ∙ h in rw (e, rest, here) (omega arith)
  | inr e ↦ let rest = count_bits-add p k n h (ground arith) in rw (e, rest) (omega arith)
]

count_bits_none : (p : ℕ → Bool) (n : ℕ) → ((x : ℕ) → x < n → p x ≡ false) → count_bits p n ≡ 0
unfolding count_bits
count_bits_none p zero h = refl
count_bits_none p (suc n) h =
    rw (h n (omega arith), count_bits_none p n (λ x lt. h x (omega arith))) refl

-- A filter of whole words whose population count is the number of its set bits.
pub record WellCounted (bloom : Bloom64) : Type 0 where
  pub filled : 0 < bloom.n_bits
  pub whole : bloom.n_bits % 64 ≡ 0
  pub counted : bloom.popcount ≡ count_bits (bit_at bloom) bloom.n_bits

already :
    (bloom : Bloom64) (k x : ℕ)
    → bit_at bloom k ≡ true
    → bit_at bloom x ≡ (k == x || bit_at bloom x)
already bloom k x e = elim (Bool-cases (k == x)) [
  | inl q ↦ let same : k ≡ x = ground arith in rw q (ap (bit_at bloom) (sym same) ∙ e)
  | inr q ↦ rw q refl
]

bit_zero : (i : ℕ) → test_bit 0 i ≡ false
unfolding test_bit
bit_zero zero = refl
bit_zero (suc i) = bit_zero i

bloom64_purge-bit_at :
    (bloom : Bloom64) (x : ℕ) → x < bloom.n_bits → bit_at (bloom64_purge bloom) x ≡ false
unfolding bloom64_purge clear_words
bloom64_purge-bit_at bloom x lt =
    rw (lt→ltb (x / 64) ((bloom.n_bits + 63) / 64) (omega arith)) (bit_zero (x % 64))

bloom64_purge-WellCounted :
    (bloom : Bloom64) → WellCounted bloom → WellCounted (bloom64_purge bloom)
unfolding bloom64_purge
bloom64_purge-WellCounted bloom c = record {
  filled = c.filled;
  whole = c.whole;
  counted =
      sym
        (count_bits_none (bit_at (bloom64_purge bloom)) bloom.n_bits (bloom64_purge-bit_at bloom));
}

bloom64_set-popcount :
    (bloom : Bloom64) (value : ℕ)
    → 0 < bloom.n_bits
    → bloom.popcount ≡ count_bits (bit_at bloom) bloom.n_bits
    → (bloom64_set bloom value).popcount
      ≡ count_bits (λ x. value % bloom.n_bits == x || bit_at bloom x) bloom.n_bits
unfolding bloom64_set
bloom64_set-popcount bloom value pos h =
    let k = value % bloom.n_bits in
    elim (Bool-cases (bit_at bloom k)) [
      | inl e ↦ rw e (
          h
          ∙ count_bits-congr (bit_at bloom) (λ x. k == x || bit_at bloom x) bloom.n_bits
              (λ x lt. already bloom k x e))
      | inr e ↦
          rw e
            (ap (λ z. z + 1) h ∙ sym (count_bits-add (bit_at bloom) k bloom.n_bits e (omega arith)))
    ]

-- Adding a value keeps the population count equal to the number of set bits, and so at most the
-- number of bits; a purge clears every bit and the count.
pub bloom64_set-WellCounted :
    (bloom : Bloom64) (value : ℕ)
    → WellCounted bloom
    → WellCounted (bloom64_set bloom value)
      × ((bloom64_set bloom value).popcount ≤ bloom.n_bits)
      × WellCounted (bloom64_purge bloom)
bloom64_set-WellCounted bloom value c =
    let n = bloom64_set-n_bits bloom value in
    let counted =
      bloom64_set-popcount bloom value c.filled c.counted
      ∙ sym (
          count_bits-congr (bit_at (bloom64_set bloom value))
            (λ x. value % bloom.n_bits == x || bit_at bloom x) bloom.n_bits
            (λ x lt. bit_at-bloom64_set bloom value x)) in
    (
      record {
        filled = omega (arith, n, c.filled);
        whole = ap (λ m. m % 64) n ∙ c.whole;
        counted = counted ∙ ap (count_bits (bit_at (bloom64_set bloom value))) (sym n);
      },
      omega (arith, counted, count_bits_le (bit_at (bloom64_set bloom value)) bloom.n_bits),
      bloom64_purge-WellCounted bloom c,
    )
