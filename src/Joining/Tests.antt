-- ===== src/Joining/Tests.antt =====
-- A node that joins with an empty filter of 128 bits.
use cy.Prelude.{ℕ, ◌<◌, ◌≡◌, refl, ◌⊎◌, true, false, some, List, arith}
use cy.Index.{list_index}
use cy.Platform.{Err}
use cy.Node.{Cy}
use cy.Bloom.{bloom64_get, bloom64_set}
use cy.Joining.{pick_node_id, ensure_joined, cy_joined}
use cy.Joining.Pick.{pick_node_id_total}
use cy.Joining.Joined.{Outcome, ensure_joined_total}
use cy.Allocation.Tests.{quiet, node_of, topic_of}

abbrev hash_of : List ℕ → ℕ
hash_of bytes = 5

abbrev newcomer : Cy list_index quiet
newcomer = record (node_of (λ x. topic_of 10000 3)) { node_id = 65535 }

pick_node_id_total_example :
    (id : ℕ) × (s1 : Cy list_index quiet) × (pick_node_id list_index quiet hash_of newcomer 65534
      ≡ some (id, s1))
    × (id < 65534)
    × (((bloom64_get newcomer.node_id_bloom id ≡ false)
          × (s1.node_id_bloom ≡ bloom64_set newcomer.node_id_bloom id))
        ⊎ (((x : ℕ) → bloom64_get newcomer.node_id_bloom x ≡ true)
            × (s1.node_id_bloom ≡ newcomer.node_id_bloom)))
pick_node_id_total_example =
    pick_node_id_total list_index quiet hash_of newcomer 65534 (omega arith) refl (omega arith)
      (omega arith) (λ i. omega arith)

ensure_joined_total_example :
    (res : Err) × (s1 : Cy list_index quiet) × (ensure_joined list_index quiet hash_of newcomer
      ≡ some (res, s1))
    × Outcome list_index quiet hash_of res s1
    × (cy_joined list_index quiet hash_of s1 ≡ true)
ensure_joined_total_example =
    ensure_joined_total list_index quiet hash_of newcomer (omega arith) refl (omega arith)
      (omega arith) (λ i. omega arith)
