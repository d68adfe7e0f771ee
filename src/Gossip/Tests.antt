-- ===== src/Gossip/Tests.antt =====
-- A gossip and a scout that a node with node-ID 5 publishes.
use cy.Prelude.{ℕ, ◌≡◌, some, List, arith}
use cy.Prelude.Int.{pos}
use cy.Index.{list_index}
use cy.Platform.{Err}
use cy.Node.{Cy}
use cy.Gossip.{publish_heartbeat_gossip, publish_heartbeat_scout}
use cy.Gossip.Order.{
  Gossiped, Scouted, publish_heartbeat_gossip_joined, publish_heartbeat_scout_joined,
}
use cy.Allocation.Tests.{quiet, node_of, rivals}

abbrev five : List ℕ → ℕ
five bytes = 5

publish_heartbeat_gossip_joined_example :
    (res : Err) × (s1 : Cy list_index quiet) × (publish_heartbeat_gossip list_index quiet five
        (node_of rivals)
        1
        (pos 90)
      ≡ some (res, s1))
    × Gossiped list_index quiet five (node_of rivals) 1 (pos 90) s1
publish_heartbeat_gossip_joined_example =
    publish_heartbeat_gossip_joined list_index quiet five (node_of rivals) 1 (pos 90) (omega arith)

publish_heartbeat_scout_joined_example :
    (res : Err) × (s1 : Cy list_index quiet) × (publish_heartbeat_scout list_index quiet five
        (node_of rivals)
        4
        (pos 90)
      ≡ some (res, s1))
    × Scouted list_index quiet five (node_of rivals) 4 (pos 90) res s1
publish_heartbeat_scout_joined_example =
    publish_heartbeat_scout_joined list_index quiet five (node_of rivals) 4 (pos 90) (omega arith)
