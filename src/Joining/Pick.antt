-- ===== src/Joining/Pick.antt =====
-- pick_node_id of cy/cy.c as a whole.
use native.Mathlib.Nat.{
  mod-lt, mod-eq_of_lt, mul-le-mul_right, div-mul-le_self, le-div_iff_mul-le,
  add-mul-mod_self_right,
}
use cy.Prelude.{
  ℕ, zero, suc, ◌+◌, ◌-◌, ◌*◌, ◌/◌, ◌%◌, ◌^◌, ◌≤◌, ◌<◌, ◌≡◌, ◌≢◌, refl, ap, ap₂, sym, subst, ◌∙◌,
  ◌⊎◌, inl, inr, true, false, some, List, arith, ◌==◌, Bool-cases,
}
use cy.Subject.{u64_mod}
use cy.Age.{smaller}
use cy.Index.{Cavl}
use cy.Platform.{Platform}
use cy.Node.{Bloom64, Cy}
use cy.Bloom.{test_bit, bloom64_get, bloom64_set}
use cy.Joining.{
  u64_max, u16_mod, find_word, find_bit, num_words, random_u64, random_uint, take_bit, pick_in_word,
  pick_node_id,
}
use cy.Joining.Bits.{find_bit_total, find_word_lem}

two_pow_pos : (n : ℕ) → 0 < 2 ^ n
two_pow_pos zero = omega arith
two_pow_pos (suc n) = omega (arith, two_pow_pos n)

ones-test_bit : (n i : ℕ) → i < n → test_bit (2 ^ n - 1) i ≡ true
unfolding test_bit
ones-test_bit zero i h = absurd (omega arith)
ones-test_bit (suc n) zero h = ground (arith, two_pow_pos n)
ones-test_bit (suc n) (suc i) h =
    ap (λ w. test_bit w i) (omega (arith, two_pow_pos n)) ∙ ones-test_bit n i (omega arith)

num_words_whole : (m n : ℕ) → n % 64 ≡ 0 → n ≤ m → num_words m n ≡ n / 64
unfolding num_words smaller
num_words_whole m n h le = ground arith

suc_mul : (r n : ℕ) → suc r * n ≡ r * n + n
suc_mul r n = omega arith

-- A round trip of the words sees each of them.
seen : (first j n : ℕ) → first < n → j < n → ((first ≤ j) × (j < first + n)) ⊎ (j + n < first + n)
seen first j n h lt = ground arith

all_full :
    (bloom : Bloom64)
    → 0 < bloom.n_bits
    → (x : ℕ) → ((j : ℕ) → j < (bloom.n_bits + 63) / 64 → bloom.storage j ≡ u64_max)
    → bloom64_get bloom x ≡ true
unfolding bloom64_get
all_full bloom pos x full =
    let k = x % bloom.n_bits in
    let below : k < bloom.n_bits = mod-lt x pos in
    ap (λ w. test_bit w (k % 64)) (full (k / 64) (omega arith))
    ∙ ones-test_bit 64 (k % 64) (omega arith)

multiple_below : (i n q r m : ℕ) → i < n → r < q → q * n ≤ m → i + r * n < m
multiple_below i n q r m h lt le = omega (arith, mul-le-mul_right n lt, suc_mul r n)

module _ (cavl : Cavl) (platform : Platform) (rapidhash : List ℕ → ℕ) where
  random_uint_lt :
      (s : Cy cavl platform) (max : ℕ)
      → 0 < max
      → (random_uint cavl platform rapidhash s 0 max).0 < max
  unfolding random_uint
  random_uint_lt s max h =
      let r = (random_u64 cavl platform rapidhash s).0 in ground (arith, mod-lt r h)

  random_uint-bloom :
      (s : Cy cavl platform) (min max : ℕ)
      → (random_uint cavl platform rapidhash s min max).1.node_id_bloom ≡ s.node_id_bloom
  unfolding random_uint random_u64
  random_uint-bloom s min max = ground arith

  -- The node-ID made of a word, of a bit in it and of a multiple of the period of the filter.
  take_bit_lem :
      (s : Cy cavl platform) (m w b : ℕ)
      → b < 64
      → w * 64 + b < s.node_id_bloom.n_bits
      → s.node_id_bloom.n_bits ≤ m
      → m < u16_mod
      → test_bit (s.node_id_bloom.storage w) b ≡ false
      → ((take_bit cavl platform rapidhash s m w b).0 < m)
        × (bloom64_get s.node_id_bloom (take_bit cavl platform rapidhash s m w b).0 ≡ false)
        × ((take_bit cavl platform rapidhash s m w b).1.node_id_bloom
            ≡ bloom64_set s.node_id_bloom (take_bit cavl platform rapidhash s m w b).0)
  unfolding take_bit bloom64_get
  take_bit_lem s m w b hb inside le small free =
      let n = s.node_id_bloom.n_bits in
      let r = (random_uint cavl platform rapidhash s 0 (m / n)).0 in
      let id = w * 64 + b + r * n in
      let positive : 0 < m / n =
        (le-div_iff_mul-le {k = n} {x = 1} {y = m} (omega arith)).1 (omega arith) in
      let below : id < m =
        multiple_below (w * 64 + b) n (m / n) r m inside (random_uint_lt s (m / n) positive)
          (div-mul-le_self m n) in
      let whole : id % u16_mod ≡ id = mod-eq_of_lt (omega arith) in
      let place : id % u16_mod % n ≡ w * 64 + b =
        ap (λ z. z % n) whole ∙ add-mul-mod_self_right (w * 64 + b) r n ∙ mod-eq_of_lt inside in
      (
        omega (arith, whole, below),
        ap (λ z. test_bit (s.node_id_bloom.storage (z / 64)) (z % 64)) place
            ∙ ap₂ (λ x y. test_bit (s.node_id_bloom.storage x) y) (omega arith) (omega arith)
            ∙ free,
        ap₂ bloom64_set (random_uint-bloom s 0 (m / n)) (sym whole),
      )

  picked :
      (s : Cy cavl platform) (m w b : ℕ)
      → (s.node_id_bloom.storage w == u64_max) ≡ false
      → find_bit 64
          (s.node_id_bloom.storage w)
          ((random_uint cavl platform rapidhash s 0 63).0 % 256)
        ≡ some b
      → pick_in_word cavl platform rapidhash s m w
        ≡ some
            (take_bit cavl platform rapidhash (random_uint cavl platform rapidhash s 0 63).1 m w b)
  unfolding pick_in_word
  picked s m w b ne found = rw (ne, found, pick_in_word) refl

  -- A word that is not full.
  pick_in_word_free :
      (s : Cy cavl platform) (m w : ℕ)
      → w * 64 + 64 ≤ s.node_id_bloom.n_bits
      → s.node_id_bloom.n_bits ≤ m
      → m < u16_mod
      → s.node_id_bloom.storage w < 2 ^ 64
      → s.node_id_bloom.storage w ≢ u64_max
      → (id : ℕ) × (s1 : Cy cavl platform) × (pick_in_word cavl platform rapidhash s m w
          ≡ some (id, s1))
        × (id < m)
        × (bloom64_get s.node_id_bloom id ≡ false)
        × (s1.node_id_bloom ≡ bloom64_set s.node_id_bloom id)
  unfolding pick_in_word
  pick_in_word_free s m w inside le small word free =
      let r = (random_uint cavl platform rapidhash s 0 63).0 in
      let s' = (random_uint cavl platform rapidhash s 0 63).1 in
      let same = random_uint-bloom s 0 63 in
      let first : r % 256 < 64 = omega (arith, random_uint_lt s 63 (omega arith)) in
      let (b, found, hb, clear) =
        find_bit_total (s.node_id_bloom.storage w) (r % 256) word free first in
      let ne : (s.node_id_bloom.storage w == u64_max) ≡ false = ground arith in
      let (below, fresh, set) =
        take_bit_lem s' m w b hb (omega (arith, ap (λ f. f.n_bits) same))
          (omega (arith, ap (λ f. f.n_bits) same)) small
          (ap (λ f. test_bit (f.storage w) b) same ∙ clear) in
      (
        (take_bit cavl platform rapidhash s' m w b).0,
        (take_bit cavl platform rapidhash s' m w b).1,
        picked s m w b ne found,
        below,
        ap (λ f. bloom64_get f (take_bit cavl platform rapidhash s' m w b).0) (sym same) ∙ fresh,
        set ∙ ap (λ f. bloom64_set f (take_bit cavl platform rapidhash s' m w b).0) same,
      )

  -- A full word: any node-ID, and the filter stays as it is.
  pick_in_word_full :
      (s : Cy cavl platform) (m w : ℕ)
      → 0 < m
      → m < u16_mod
      → s.node_id_bloom.storage w ≡ u64_max
      → (id : ℕ) × (s1 : Cy cavl platform) × (pick_in_word cavl platform rapidhash s m w
          ≡ some (id, s1))
        × (id < m)
        × (s1.node_id_bloom ≡ s.node_id_bloom)
  unfolding pick_in_word
  pick_in_word_full s m w pos small full =
      let e : (s.node_id_bloom.storage w == u64_max) ≡ true = ground arith in
      (
        (random_uint cavl platform rapidhash s 0 m).0 % u16_mod,
        (random_uint cavl platform rapidhash s 0 m).1,
        rw (e, pick_in_word) refl,
        omega (arith, random_uint_lt s m pos),
        random_uint-bloom s 0 m,
      )

  random_uint_zero : (s : Cy cavl platform) → (random_uint cavl platform rapidhash s 0 0).0 ≡ 0
  unfolding random_uint
  random_uint_zero s = refl

  first_word_lt :
      (s : Cy cavl platform) (count : ℕ)
      → 0 < count
      → count < u16_mod
      → (random_uint cavl platform rapidhash s 0 ((count + u64_mod - 1) % u64_mod)).0 < count
  first_word_lt s count pos small = elim (Bool-cases (count == 1)) [
    | inl e ↦
        let none_left : (count + u64_mod - 1) % u64_mod ≡ 0 = ground arith in
        subst (λ z. (random_uint cavl platform rapidhash s 0 z).0 < count) (sym none_left)
          (omega (arith, random_uint_zero s))
    | inr e ↦ omega (arith, random_uint_lt s ((count + u64_mod - 1) % u64_mod) (ground arith))
  ]

  -- A filter of whole 64-bit words, no wider than the range of the node-IDs, which fit 16 bits:
  -- pick_node_id returns, with a node-ID below the bound. If any place of the filter is free, the one
  -- of this node-ID was free, and it is the only one that is taken now. If none is free, the filter
  -- stays as it is.
  pub pick_node_id_total :
      (s : Cy cavl platform) (m : ℕ)
      → 0 < s.node_id_bloom.n_bits
      → s.node_id_bloom.n_bits % 64 ≡ 0
      → s.node_id_bloom.n_bits ≤ m
      → m < u16_mod
      → ((i : ℕ) → s.node_id_bloom.storage i < 2 ^ 64)
      → (id : ℕ) × (s1 : Cy cavl platform) × (pick_node_id cavl platform rapidhash s m
          ≡ some (id, s1))
        × (id < m)
        × (((bloom64_get s.node_id_bloom id ≡ false)
              × (s1.node_id_bloom ≡ bloom64_set s.node_id_bloom id))
            ⊎ (((x : ℕ) → bloom64_get s.node_id_bloom x ≡ true)
                × (s1.node_id_bloom ≡ s.node_id_bloom)))
  unfolding pick_node_id
  pick_node_id_total s m pos whole le small words =
      let n = s.node_id_bloom.n_bits in
      let count = num_words m n in
      let counted : count ≡ n / 64 = num_words_whole m n whole le in
      let bound = (count + u64_mod - 1) % u64_mod in
      let draw = (random_uint cavl platform rapidhash s 0 bound).0 in
      let s1 = (random_uint cavl platform rapidhash s 0 bound).1 in
      let same = random_uint-bloom s 0 bound in
      let inside : draw < count = first_word_lt s count (omega arith) (omega arith) in
      let w = find_word s1.node_id_bloom.storage count count draw in
      let (below, found) = find_word_lem s1.node_id_bloom.storage count count draw inside in
      let wide : s1.node_id_bloom.n_bits ≡ n = ap (λ f. f.n_bits) same in
      elim found [
        | inl free ↦
            let (id, s2, run, less, clear, set) =
              pick_in_word_free s1 m w (omega arith) (omega arith) small
                (subst (λ f. f.storage w < 2 ^ 64) (sym same) (words w)) free in
            (
              id,
              s2,
              run,
              less,
              inl (
                  subst (λ f. (bloom64_get f id ≡ false) × (s2.node_id_bloom ≡ bloom64_set f id))
                    same (clear, set)),
            )
        | inr full ↦
            let (id, s2, run, less, still) =
              pick_in_word_full s1 m w (omega arith) small
                (full w below (seen draw w count inside below)) in
            (
              id,
              s2,
              run,
              less,
              inr (
                λ x.
                    ap (λ f. bloom64_get f x) (sym same)
                    ∙ all_full s1.node_id_bloom (omega (arith, wide)) x
                        (λ j lt. full j (omega arith) (seen draw j count inside (omega arith))),
                still ∙ same,
              ),
            )
      ]
