-- ===== src/Index/Cut.antt =====
-- Trees that are strictly sorted by a key of their owners.
use cy.Prelude.{
  ℕ, suc, ◌≤◌, ◌<◌, ◌≡◌, ◌≢◌, refl, inl, inr, true, false, ◌||◌, none, some, List, [], ◌∷◌,
  Ordering, ◌==◌, arith, if◌then◌else◌, length, Bool-cases,
}
use Prim.Native.Nat.{compare}
use cy.Index.{Comparator, has, AllLeft, Cut, find_in, insert_in, remove_in}

-- Every key in the list is above k.
abbrev pub AllAbove : (ℕ → ℕ) → ℕ → List ℕ → Type 0
AllAbove f k [] = Unit {0}
AllAbove f k (x ∷ xs) = (k < f x) × AllAbove f k xs

abbrev pub Sorted : (ℕ → ℕ) → List ℕ → Type 0
Sorted f [] = Unit {0}
Sorted f (x ∷ xs) = AllAbove f (f x) xs × Sorted f xs

pub length-remove_in :
    (n : ℕ) (xs : List ℕ) → has n xs ≡ true → suc (length (remove_in n xs)) ≡ length xs
unfolding remove_in
length-remove_in n [] h = absurd (ground arith)
length-remove_in n (x ∷ xs) h = ground (arith, length-remove_in n xs)

module _ (f : ℕ → ℕ) where
  pub AllAbove-mono : (j k : ℕ) (xs : List ℕ) → j ≤ k → AllAbove f k xs → AllAbove f j xs
  AllAbove-mono j k [] h a = tt
  AllAbove-mono j k (x ∷ xs) h a = (omega arith, AllAbove-mono j k xs h a.1)

  AllLeft-AllAbove : (k : ℕ) (xs : List ℕ) → AllAbove f k xs → AllLeft (λ x. compare k (f x)) xs
  AllLeft-AllAbove k [] a = tt
  AllLeft-AllAbove k (x ∷ xs) a = (ground arith, AllLeft-AllAbove k xs a.1)

  abbrev CutAt : ℕ → List ℕ → Ordering → Type 0
  CutAt k xs Ordering.gt = Cut (λ y. compare k (f y)) xs
  CutAt k xs Ordering.eq = AllLeft (λ y. compare k (f y)) xs
  CutAt k xs Ordering.lt = AllLeft (λ y. compare k (f y)) xs

  Cut-step :
      (k x : ℕ) (xs : List ℕ) (o : Ordering)
      → compare k (f x) ≡ o
      → Sorted f (x ∷ xs)
      → Cut (λ y. compare k (f y)) xs
      → CutAt k xs o
  Cut-step k x xs Ordering.gt e s c = c
  Cut-step k x xs Ordering.eq e s c =
      AllLeft-AllAbove k xs (AllAbove-mono k (f x) xs (ground arith) s.0)
  Cut-step k x xs Ordering.lt e s c =
      AllLeft-AllAbove k xs (AllAbove-mono k (f x) xs (ground arith) s.0)

  pub Cut-Sorted : (k : ℕ) (xs : List ℕ) → Sorted f xs → Cut (λ x. compare k (f x)) xs
  Cut-Sorted k [] s = tt
  Cut-Sorted k (x ∷ xs) s = Cut-step k x xs (compare k (f x)) refl s (Cut-Sorted k xs s.1)

  -- What lies in the list, lies above.
  pub AllAbove-has : (k x : ℕ) (xs : List ℕ) → AllAbove f k xs → has x xs ≡ true → k < f x
  AllAbove-has k x [] a h = absurd (ground arith)
  AllAbove-has k x (y ∷ ys) a h = elim (Bool-cases (x == y)) [
    | inl e ↦ let same : x ≡ y = ground arith in rw same a.0
    | inr n ↦ AllAbove-has k x ys a.1 (ground arith)
  ]

  -- Keys are distinct.
  pub Sorted-injective :
      (x y : ℕ) (xs : List ℕ) → Sorted f xs → has x xs ≡ true → has y xs ≡ true → f x ≡ f y → x ≡ y
  Sorted-injective x y [] s hx hy e = absurd (ground arith)
  Sorted-injective x y (z ∷ zs) s hx hy e =
      ground (
        arith,
        Sorted-injective x y zs s.1,
        AllAbove-has (f z) x zs s.0,
        AllAbove-has (f z) y zs s.0,
      )

  pub AllAbove-remove_in : (k n : ℕ) (xs : List ℕ) → AllAbove f k xs → AllAbove f k (remove_in n xs)
  unfolding remove_in
  AllAbove-remove_in k n [] a = tt
  AllAbove-remove_in k n (x ∷ xs) a = ground (arith, AllAbove-remove_in k n xs)

  pub Sorted-remove_in : (n : ℕ) (xs : List ℕ) → Sorted f xs → Sorted f (remove_in n xs)
  unfolding remove_in
  Sorted-remove_in n [] s = tt
  Sorted-remove_in n (x ∷ xs) s =
      ground (arith, Sorted-remove_in n xs s.1, AllAbove-remove_in (f x) n xs s.0)

  pub has-remove_in :
      (y n : ℕ) (xs : List ℕ)
      → Sorted f xs
      → has y (remove_in n xs) ≡ (if y == n then false else has y xs)
  unfolding remove_in
  has-remove_in y n [] s = ground arith
  has-remove_in y n (x ∷ xs) s =
      ground (arith, has-remove_in y n xs s.1, AllAbove-has (f x) y xs s.0)

  -- The search finds the owner of the key, if there is one.
  pub find_in-some :
      (k : ℕ) (xs : List ℕ) {x : ℕ}
      → find_in (λ y. compare k (f y)) xs ≡ some x
      → (has x xs ≡ true) × (f x ≡ k)
  unfolding find_in
  find_in-some k [] {x} h = absurd (ground arith)
  find_in-some k (y ∷ ys) {x} h = ground (arith, find_in-some k ys {x = x})

  pub find_in-none :
      (k : ℕ) (xs : List ℕ)
      → Sorted f xs
      → (x : ℕ) → find_in (λ y. compare k (f y)) xs ≡ none
      → has x xs ≡ true
      → f x ≢ k
  unfolding find_in
  find_in-none k [] s x h i = absurd (ground arith)
  find_in-none k (y ∷ ys) s x h i =
      ground (arith, find_in-none k ys s.1 x, AllAbove-has (f y) x ys s.0)

  module _ (n : ℕ) where
    AllAbove-insert_in :
        (k : ℕ) (cmp : Comparator) (xs : List ℕ)
        → k < f n
        → AllAbove f k xs
        → AllAbove f k (insert_in cmp n xs)
    unfolding insert_in
    AllAbove-insert_in k cmp [] h a = (h, tt)
    AllAbove-insert_in k cmp (x ∷ xs) h a = ground (arith, AllAbove-insert_in k cmp xs)

    -- A new owner of a free key keeps the list sorted.
    pub Sorted-insert_in :
        (xs : List ℕ) → Sorted f xs → Sorted f (insert_in (λ y. compare (f n) (f y)) n xs)
    unfolding insert_in
    Sorted-insert_in [] s = (tt, tt)
    Sorted-insert_in (x ∷ xs) s = ground (
      arith,
      Sorted-insert_in xs s.1,
      AllAbove-insert_in (f x) (λ y. compare (f n) (f y)) xs,
      AllAbove-mono (f n) (f x) xs,
    )

    pub has-insert_in :
        (y : ℕ) (xs : List ℕ)
        → find_in (λ y. compare (f n) (f y)) xs ≡ none
        → has y (insert_in (λ y. compare (f n) (f y)) n xs) ≡ (y == n || has y xs)
    unfolding insert_in find_in
    has-insert_in y [] h = ground arith
    has-insert_in y (x ∷ xs) h = ground (arith, has-insert_in y xs)

    pub length-insert_in :
        (xs : List ℕ)
        → find_in (λ y. compare (f n) (f y)) xs ≡ none
        → length (insert_in (λ y. compare (f n) (f y)) n xs) ≡ suc (length xs)
    unfolding insert_in find_in
    length-insert_in [] h = refl
    length-insert_in (x ∷ xs) h = ground (arith, length-insert_in xs)

    pub insert_in-found :
        (xs : List ℕ) {x : ℕ}
        → find_in (λ y. compare (f n) (f y)) xs ≡ some x
        → insert_in (λ y. compare (f n) (f y)) n xs ≡ xs
    unfolding insert_in find_in
    insert_in-found [] h = absurd (ground arith)
    insert_in-found (y ∷ ys) {x} h = ground (arith, insert_in-found ys {x = x})

-- Only the keys of the entries matter.
AllAbove-congr :
    (f g : ℕ → ℕ) (k : ℕ) (xs : List ℕ)
    → ((x : ℕ) → has x xs ≡ true → f x ≡ g x)
    → AllAbove f k xs
    → AllAbove g k xs
AllAbove-congr f g k [] h a = tt
AllAbove-congr f g k (x ∷ xs) h a = (
  omega (arith, h x (ground arith), a.0),
  AllAbove-congr f g k xs (λ y i. h y (ground arith)) a.1,
)

pub Sorted-congr :
    (f g : ℕ → ℕ) (xs : List ℕ)
    → ((x : ℕ) → has x xs ≡ true → f x ≡ g x)
    → Sorted f xs
    → Sorted g xs
Sorted-congr f g [] h s = tt
Sorted-congr f g (x ∷ xs) h s = (
  AllAbove-mono g (g x) (f x) xs (omega (arith, h x (ground arith)))
      (AllAbove-congr f g (f x) xs (λ y i. h y (ground arith)) s.0),
  Sorted-congr f g xs (λ y i. h y (ground arith)) s.1,
)
