-- ===== src/Index.antt =====
-- The ordered index that cy/cy.c takes from cavl2 (lib/cavl2.h), as the calls of the source see it:
-- a tree whose nodes are owned by objects, each object at an address.
pub mod Cut
use cy.Prelude.{
  ℕ, ◌≡◌, Bool, true, Option, none, some, List, [], ◌∷◌, Ordering, ◌==◌, if◌then◌else◌, refl,
}

-- What the comparator says of the sought object against the owner of a node: `lt` is a negative
-- result, and the search goes to the left.
abbrev pub Comparator : Type 0
Comparator = ℕ → Ordering

abbrev pub has : ℕ → List ℕ → Bool
has x [] = Bool.false
has x (y ∷ ys) = if x == y then Bool.true else has x ys

-- The comparator asks to go to the right, then perhaps to stay, then to the left.
abbrev pub AllLeft : Comparator → List ℕ → Type 0
AllLeft cmp [] = Unit {0}
AllLeft cmp (x ∷ xs) = (cmp x ≡ Ordering.lt) × AllLeft cmp xs

abbrev pub Cut : Comparator → List ℕ → Type 0
Cut cmp [] = Unit {0}
Cut cmp (x ∷ xs) = elim (cmp x) [
  | Ordering.gt ↦ Cut cmp xs
  | Ordering.eq ↦ AllLeft cmp xs
  | Ordering.lt ↦ AllLeft cmp xs
]

-- Search and insertion, on the nodes from left to right.
unfoldable pub find_in : Comparator → List ℕ → Option ℕ
find_in cmp [] = none
find_in cmp (x ∷ xs) = elim (cmp x) [
  | Ordering.gt ↦ find_in cmp xs
  | Ordering.eq ↦ some x
  | Ordering.lt ↦ none
]

unfoldable pub insert_in : Comparator → ℕ → List ℕ → List ℕ
insert_in cmp n [] = n ∷ []
insert_in cmp n (x ∷ xs) = elim (cmp x) [
  | Ordering.gt ↦ x ∷ insert_in cmp n xs
  | Ordering.eq ↦ x ∷ xs
  | Ordering.lt ↦ n ∷ x ∷ xs
]

unfoldable pub remove_in : ℕ → List ℕ → List ℕ
remove_in n [] = []
remove_in n (x ∷ xs) = if n == x then xs else x ∷ remove_in n xs

abbrev pub or_else : Option ℕ → ℕ → ℕ
or_else none n = n
or_else (some x) n = x

unfoldable pub head_in : List ℕ → Option ℕ
head_in [] = none
head_in (x ∷ xs) = some x

-- cavl2_find, cavl2_find_or_insert, cavl2_remove, cavl2_min. The calls are determined on a tree that
-- the comparator cuts; `to_list` are the owners from left to right.
pub record Cavl : Type 1 where
  pub Tree : Type 0
  pub empty : Tree
  pub find : Comparator → Tree → Option ℕ
  pub find_or_insert : Comparator → ℕ → Tree → ℕ × Tree
  pub remove : ℕ → Tree → Tree
  pub min : Tree → Option ℕ
  pub to_list : Tree → List ℕ
  pub to_list-empty : to_list empty ≡ []
  pub find_lem :
      (cmp : Comparator) (t : Tree) → Cut cmp (to_list t) → find cmp t ≡ find_in cmp (to_list t)
  pub found_lem :
      (cmp : Comparator) (n : ℕ) (t : Tree)
      → Cut cmp (to_list t)
      → (find_or_insert cmp n t).0 ≡ or_else (find_in cmp (to_list t)) n
  pub inserted_lem :
      (cmp : Comparator) (n : ℕ) (t : Tree)
      → Cut cmp (to_list t)
      → to_list (find_or_insert cmp n t).1 ≡ insert_in cmp n (to_list t)
  pub remove_lem :
      (n : ℕ) (t : Tree) → has n (to_list t) ≡ true → to_list (remove n t) ≡ remove_in n (to_list t)
  pub min_lem : (t : Tree) → min t ≡ head_in (to_list t)

-- The interface can be met: by the list of the owners itself.
abbrev pub list_index : Cavl
list_index = record {
  Tree = List ℕ;
  empty = [];
  find = find_in;
  find_or_insert = λ cmp n t. (or_else (find_in cmp t) n, insert_in cmp n t);
  remove = remove_in;
  min = head_in;
  to_list = λ t. t;
  to_list-empty = refl;
  find_lem = λ cmp t h. refl;
  found_lem = λ cmp n t h. refl;
  inserted_lem = λ cmp n t h. refl;
  remove_lem = λ n t h. refl;
  min_lem = λ t. refl;
}
