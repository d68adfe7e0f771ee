-- ===== src/Allocation/Rank.antt =====
-- The order in which left_wins of cy/cy.c ranks topics, and counting along it.
use cy.Prelude.{
  ℕ, zero, suc, ◌+◌, ◌-◌, ◌%◌, ◌^◌, ◌≤◌, ◌<◌, ◌≡◌, ◌≢◌, refl, inl, inr, Bool, true, false, not,
  List, [], ◌∷◌, arith, ltb, ◌==◌, if◌then◌else◌, Bool-cases, length, map,
}
use cy.Prelude.Int.{ℤ, pos, negsuc, ltb_ℤ}
use cy.Age.{log2_floor, left_wins, eq_ℤ}
use cy.Age.Arbitration.{left_wins-not}
use cy.Index.{has, remove_in}

-- left_wins on rounded ages.
abbrev wins : ℤ → ℕ → ℤ → ℕ → Bool
wins l a r b = if not (eq_ℤ l r) then ltb_ℤ r l else ltb a b

wins_trans :
    (l m n : ℤ) (a b c : ℕ) → wins l a m b ≡ true → wins m b n c ≡ true → wins l a n c ≡ true
unfolding eq_ℤ
wins_trans (pos l) (pos m) (pos n) a b c h k = ground arith
wins_trans (pos l) (pos m) (negsuc n) a b c h k = ground arith
wins_trans (pos l) (negsuc m) (pos n) a b c h k = ground arith
wins_trans (pos l) (negsuc m) (negsuc n) a b c h k = ground arith
wins_trans (negsuc l) (pos m) (pos n) a b c h k = ground arith
wins_trans (negsuc l) (pos m) (negsuc n) a b c h k = ground arith
wins_trans (negsuc l) (negsuc m) (pos n) a b c h k = ground arith
wins_trans (negsuc l) (negsuc m) (negsuc n) a b c h k = ground arith

module _ (hash age : ℕ → ℕ) where
  -- Topic a beats topic b when they meet on one subject-ID.
  unfoldable pub beats : ℕ → ℕ → Bool
  beats a b = left_wins (age a) (hash a) (log2_floor (age b)) (hash b)

  pub beats_trans : (a b c : ℕ) → beats a b ≡ true → beats b c ≡ true → beats a c ≡ true
  unfolding beats left_wins
  beats_trans a b c h k =
      wins_trans (log2_floor (age a)) (log2_floor (age b)) (log2_floor (age c)) (hash a) (hash b)
        (hash c) h k

  pub beats-not : (a b : ℕ) → hash a ≢ hash b → beats b a ≡ not (beats a b)
  unfolding beats
  beats-not a b h = left_wins-not (age a) (hash a) (age b) (hash b) h

  pub beats_irrefl : (a : ℕ) → beats a a ≡ false
  unfolding beats left_wins
  beats_irrefl a = same (log2_floor (age a))
    where
      same : (l : ℤ) → wins l (hash a) l (hash a) ≡ false
      same (pos l) = ground arith
      same (negsuc l) = ground arith

unfoldable pub count : (ℕ → Bool) → List ℕ → ℕ
count p [] = 0
count p (x ∷ xs) = (if p x then 1 else 0) + count p xs

pub count_mono :
    (p q : ℕ → Bool) (xs : List ℕ) → ((x : ℕ) → p x ≡ true → q x ≡ true) → count p xs ≤ count q xs
unfolding count
count_mono p q [] h = omega arith
count_mono p q (x ∷ xs) h = ground (arith, h x, count_mono p q xs h)

pub count_lt :
    (p q : ℕ → Bool) (xs : List ℕ) (a : ℕ)
    → ((x : ℕ) → p x ≡ true → q x ≡ true)
    → has a xs ≡ true
    → p a ≡ false
    → q a ≡ true
    → count p xs < count q xs
unfolding count
count_lt p q [] a h i miss hit = absurd (ground arith)
count_lt p q (x ∷ xs) a h i miss hit = elim (Bool-cases (a == x)) [
  | inl e ↦
      let same : a ≡ x = ground arith in
      let miss' : p x ≡ false = rw same at miss in
      let hit' : q x ≡ true = rw same at hit in
      rw (miss', hit') (omega (arith, count_mono p q xs h))
  | inr n ↦ ground (arith, h x, count_lt p q xs a h (ground arith) miss hit)
]

pub count-le-length : (p : ℕ → Bool) (xs : List ℕ) → count p xs ≤ length xs
unfolding count
count-le-length p [] = omega arith
count-le-length p (x ∷ xs) = ground (arith, count-le-length p xs)

-- More numbers than entries: one is not among them.
drop_all : ℕ → List ℕ → List ℕ
drop_all n [] = []
drop_all n (x ∷ xs) = if x == n then drop_all n xs else x ∷ drop_all n xs

length-drop_all-le : (n : ℕ) (xs : List ℕ) → length (drop_all n xs) ≤ length xs
unfolding drop_all
length-drop_all-le n [] = omega arith
length-drop_all-le n (x ∷ xs) = ground (arith, length-drop_all-le n xs)

length-drop_all-lt : (n : ℕ) (xs : List ℕ) → has n xs ≡ true → length (drop_all n xs) < length xs
unfolding drop_all
length-drop_all-lt n [] h = absurd (ground arith)
length-drop_all-lt n (x ∷ xs) h = ground (arith, length-drop_all-le n xs, length-drop_all-lt n xs)

has-drop_all : (y n : ℕ) (xs : List ℕ) → y ≢ n → has y (drop_all n xs) ≡ has y xs
unfolding drop_all
has-drop_all y n [] h = refl
has-drop_all y n (x ∷ xs) h = ground (arith, has-drop_all y n xs h)

pub free_number : (n : ℕ) (xs : List ℕ) → length xs < n → (r : ℕ) × (r < n) × (has r xs ≡ false)
free_number zero xs h = absurd (omega arith)
free_number (suc n) xs h = elim (Bool-cases (has n xs)) [
  | inl taken ↦
      let (r, below, free) =
        free_number n (drop_all n xs) (omega (arith, length-drop_all-lt n xs taken)) in
      (r, omega arith, ground (arith, has-drop_all r n xs))
  | inr free ↦ (n, omega arith, free)
]

pub has-map : (f : ℕ → ℕ) (x : ℕ) (xs : List ℕ) → has x xs ≡ true → has (f x) (map f xs) ≡ true
has-map f x [] h = absurd (ground arith)
has-map f x (y ∷ ys) h = elim (Bool-cases (x == y)) [
  | inl e ↦ let same : x ≡ y = ground arith in rw same (ground arith)
  | inr n ↦ ground (arith, has-map f x ys)
]

pub has-remove_in_ne : (y n : ℕ) (xs : List ℕ) → y ≢ n → has y (remove_in n xs) ≡ has y xs
unfolding remove_in
has-remove_in_ne y n [] h = refl
has-remove_in_ne y n (x ∷ xs) h = ground (arith, has-remove_in_ne y n xs h)

-- Rounds of the 32-bit eviction counter from e up to j.
abbrev pub dist : ℕ → ℕ → ℕ
dist j e = (j + 2 ^ 32 - e) % 2 ^ 32

pub dist_step :
    (j e : ℕ) → j < 2 ^ 32 → e < 2 ^ 32 → e ≢ j → suc (dist j ((e + 1) % 2 ^ 32)) ≡ dist j e
dist_step j e hj he ne = omega arith
