-- ===== src/Update/Tests.antt =====
-- The schedule at a node with node-ID 5.
use cy.Prelude.{ℕ, ◌≡◌, some, List, arith}
use cy.Prelude.Int.{pos}
use cy.Index.{list_index}
use cy.Platform.{Err}
use cy.Node.{Cy}
use cy.Update.{publish_if_due}
use cy.Update.Schedule.{Scheduled, publish_if_due_joined}
use cy.Allocation.Tests.{quiet, node_of, rivals}

abbrev six : List ℕ → ℕ
six bytes = 6

abbrev ignored : ℕ → ℕ → Cy list_index quiet → Cy list_index quiet
ignored callback future s = s

publish_if_due_joined_example :
    (res : Err) × (s1 : Cy list_index quiet) × (publish_if_due list_index quiet six ignored
        (node_of rivals)
        (some 1)
        (pos 90)
      ≡ some (res, s1))
    × Scheduled list_index quiet six ignored (node_of rivals) 1 (pos 90) res s1
publish_if_due_joined_example =
    publish_if_due_joined list_index quiet six ignored (node_of rivals) 1 (pos 90) (omega arith)
