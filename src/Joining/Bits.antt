-- ===== src/Joining/Bits.antt =====
-- The two searches of pick_node_id (cy/cy.c): for a word that is not full, and for a free bit of it.
use native.Mathlib.Nat.{mod-lt, mod-eq_of_lt, mod_self}
use cy.Prelude.{
  ℕ, zero, suc, ◌+◌, ◌-◌, ◌/◌, ◌%◌, ◌^◌, ◌≤◌, ◌<◌, ◌≡◌, ◌≢◌, refl, ap, sym, subst, ◌∙◌, ◌⊎◌, inl,
  inr, true, false, none, some, arith, ◌==◌, Bool-cases, Option-cases,
}
use cy.Index.{or_else}
use cy.Bloom.{test_bit}
use cy.Joining.{u64_max, find_word, find_bit}

-- A word of n ones.
all_ones : (n w : ℕ) → w < 2 ^ n → ((i : ℕ) → i < n → test_bit w i ≡ true) → suc w ≡ 2 ^ n
unfolding test_bit
all_ones zero w h bits = omega arith
all_ones (suc n) w h bits =
    let rest = all_ones n (w / 2) (omega arith) (λ i lt. bits (suc i) (omega arith)) in
    let low : (w % 2 == 1) ≡ true = bits zero (omega arith) in
    let odd : w % 2 ≡ 1 = ground arith in omega arith

find_bit_out : (word b : ℕ) → find_bit 0 word b ≡ none
unfolding find_bit
find_bit_out word b = refl

ℕ-cases : (k : ℕ) → (k ≡ 0) ⊎ ((j : ℕ) × (k ≡ suc j))
ℕ-cases zero = inl refl
ℕ-cases (suc j) = inr (j, refl)

find_bit-taken :
    (rounds word b : ℕ)
    → test_bit word b ≡ true
    → find_bit (suc rounds) word b ≡ find_bit rounds word ((b + 1) % 64)
unfolding find_bit
find_bit-taken rounds word b t = rw (t, find_bit) refl

find_bit-free :
    (rounds word b : ℕ) → test_bit word b ≡ false → find_bit (suc rounds) word b ≡ some b
unfolding find_bit
find_bit-free rounds word b t = rw (t, find_bit) refl

some_injective : {x y : ℕ} → some x ≡ some y → x ≡ y
some_injective h = ap (λ o. or_else o 0) h

-- The bit found is free.
find_bit-some :
    (rounds word b : ℕ) {i : ℕ}
    → b < 64
    → find_bit rounds word b ≡ some i
    → (i < 64) × (test_bit word i ≡ false)
find_bit-some zero word b {i} h e = absurd (ground (arith, find_bit_out word b))
find_bit-some (suc rounds) word b {i} h e = elim (Bool-cases (test_bit word b)) [
  | inl t ↦
      find_bit-some rounds word ((b + 1) % 64) {i = i} (omega arith)
        (sym (find_bit-taken rounds word b t) ∙ e)
  | inr t ↦
      let same : b ≡ i = some_injective (sym (find_bit-free rounds word b t) ∙ e) in
      (omega arith, ap (test_bit word) (sym same) ∙ t)
]

-- A search without success has seen every bit set.
find_bit-none :
    (rounds word b : ℕ)
    → b < 64
    → find_bit rounds word b ≡ none
    → (k : ℕ) → k < rounds
    → test_bit word ((b + k) % 64) ≡ true
find_bit-none zero word b h e k lt = absurd (omega arith)
find_bit-none (suc rounds) word b h e k lt = elim (Bool-cases (test_bit word b)) [
  | inl t ↦ elim (ℕ-cases k) [
    | inl z ↦ ap (test_bit word) (omega arith) ∙ t
    | inr (k1, z) ↦
        ap (test_bit word) (omega arith)
        ∙ find_bit-none rounds word ((b + 1) % 64) (omega arith)
            (sym (find_bit-taken rounds word b t) ∙ e) k1 (omega arith)
  ]
  | inr t ↦ absurd (ground (arith, sym (find_bit-free rounds word b t) ∙ e))
]

pub find_bit_total :
    (word b : ℕ)
    → word < 2 ^ 64
    → word ≢ u64_max
    → b < 64
    → (i : ℕ) × (find_bit 64 word b ≡ some i) × (i < 64) × (test_bit word i ≡ false)
find_bit_total word b h free hb = elim (Option-cases (find_bit 64 word b)) [
  | inl e ↦ absurd (
      free (
        omega (
          arith,
          all_ones 64 word h (λ i lt.
              subst (λ j. test_bit word j ≡ true) (omega arith)
                (find_bit-none 64 word b hb e ((i + 64 - b) % 64) (omega arith))),
        )))
  | inr (i, e) ↦ let (lt, t) = find_bit-some 64 word b hb e in (i, e, lt, t)
]

-- One step further, round the words.
next_word :
    (n i : ℕ)
    → i < n
    → ((i + 1) % n < n)
      × (((suc i < n) × ((i + 1) % n ≡ suc i)) ⊎ ((suc i ≡ n) × ((i + 1) % n ≡ 0)))
next_word n i h = elim (Bool-cases (suc i == n)) [
  | inl e ↦
      let last : suc i ≡ n = ground arith in
      (mod-lt (i + 1) (omega arith), inr (last, ap (λ z. z % n) (omega arith) ∙ mod_self n))
  | inr e ↦
      let more : suc i < n = ground arith in
      (mod-lt (i + 1) (omega arith), inl (more, mod-eq_of_lt (omega arith) ∙ omega arith))
]

-- The word found is one of the first words, and full only if all those seen are.
pub find_word_lem :
    (storage : ℕ → ℕ) (n rounds i : ℕ)
    → i < n
    → (find_word storage n rounds i < n)
      × ((storage (find_word storage n rounds i) ≢ u64_max)
          ⊎ ((j : ℕ)
              → j < n
              → ((i ≤ j) × (j < i + rounds)) ⊎ (j + n < i + rounds)
              → storage j ≡ u64_max))
unfolding find_word
find_word_lem storage n zero i h = (h, inr (λ j lt seen. absurd (omega arith)))
find_word_lem storage n (suc rounds) i h = elim (Bool-cases (storage i == u64_max)) [
  | inl full ↦
      let here : storage i ≡ u64_max = ground arith in
      let (inside, place) = next_word n i h in
      let (below, found) = find_word_lem storage n rounds ((i + 1) % n) inside in
      rw full (
        below,
        elim found [
          | inl free ↦ inl free
          | inr all ↦ inr (λ j lt seen. elim (Bool-cases (j == i)) [
            | inl e ↦ ap storage (ground arith) ∙ here
            | inr ne ↦ all j lt (ground (arith, place, seen))
          ])
        ],
      )
  | inr free ↦ rw free (h, inl (λ e. ground arith))
]
