-- ===== src/Subscribing/Tests.antt =====
-- A third scout behind two others.
use cy.Prelude.{ℕ, ◌≡◌, refl, true, none, some, List, [], ◌∷◌, ◌==◌, if◌then◌else◌, arith}
use cy.Index.{list_index}
use cy.Node.{Cy}
use cy.Subscribing.{append_scout}
use cy.Subscribing.Scouts.{Chain, append_scout-Chain}
use cy.Allocation.Tests.{quiet, node_of, rivals}

abbrev eight : List ℕ → ℕ
eight bytes = 8

-- The roots 3 and 4 wait, in this order.
abbrev waiting : Cy list_index quiet
waiting = record (node_of rivals) {
  roots = λ x. record {
    name = [];
    is_pattern = true;
    next_scout = if x == 3 then some 4 else none;
    subscribers = [];
  };
  next_scout = some 3;
}

append_scout-Chain_example :
    (s1 : Cy list_index quiet) × (append_scout list_index quiet eight 2 waiting 5 ≡ some s1)
    × Chain s1.roots s1.next_scout (3 ∷ 4 ∷ 5 ∷ [])
append_scout-Chain_example =
    append_scout-Chain list_index quiet eight 2 waiting 5 (3 ∷ 4 ∷ []) (refl, (refl, refl))
      (refl, (refl, tt)) refl refl (omega arith)
