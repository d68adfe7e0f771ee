-- ===== src/Wkv.antt =====
-- The wild-card key-value index (wkv, a library outside this repository), as the calls of cy/cy.c
-- see it. A node is given by its key, and its value is an object at an address.
use cy.Prelude.{ℕ, Bool, Option, List}

-- What a wild-card pattern matched: the substituted strings with their ordinals.
abbrev pub Substitutions : Type 0
Substitutions = List (List ℕ × ℕ)

-- wkv_get, wkv_set, wkv_del, the assignment of a node's value, wkv_match, wkv_route. `State` is the
-- state of the allocator that the index is set up with. A traversal is the list of the nodes for
-- which it calls the callback: their values, with the substitutions.
pub record Wkv (State : Type 0) : Type 1 where
  pub Tree : Type 0
  pub empty : Tree
  pub get : Tree → List ℕ → Option (Option ℕ)
  pub set : Tree → List ℕ → State → Option Tree × State
  pub put : Tree → List ℕ → ℕ → Tree
  pub del : Tree → List ℕ → Tree
  pub matches : Tree → List ℕ → List (ℕ × Substitutions)
  pub route : Tree → List ℕ → List (ℕ × Substitutions)
  pub has_substitution_tokens : List ℕ → Bool
