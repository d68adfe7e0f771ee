-- ===== src/Ingest/Tests.antt =====
-- Transfers on a topic with one subscriber, and with two on one root.
use cy.Prelude.{ℕ, suc, ◌≡◌, refl, false, none, List, [], ◌∷◌}
use cy.Index.{list_index}
use cy.Transfer.{TransferOwned, no_transfer}
use cy.Node.{Coupling, Cy}
use cy.Ingest.{Arrival, cy_ingest_topic_transfer}
use cy.Ingest.Delivery.{cy_ingest_topic_transfer_livelock}
use cy.Allocation.Tests.{quiet, node_of, topic_of}

abbrev hash_of : List ℕ → ℕ
hash_of bytes = 5

-- A callback that counts its calls in the state of the platform.
abbrev counting :
    ℕ → Arrival → Cy list_index quiet → TransferOwned → Cy list_index quiet × TransferOwned
counting callback evt s transfer = (record s { platform_state = suc s.platform_state }, transfer)

abbrev coupling : Coupling
coupling = record { root = 7; substitutions = [] }

abbrev node_with : List ℕ → Cy list_index quiet
node_with subs =
    record (node_of (λ x. record (topic_of 10000 3) { couplings = coupling ∷ coupling ∷ [] })) {
      roots = λ x. record { name = []; is_pattern = false; next_scout = none; subscribers = subs };
    }

cy_ingest_topic_transfer_livelock_example :
    cy_ingest_topic_transfer list_index quiet hash_of counting 1000
      (node_with (9 ∷ 8 ∷ []))
      1
      no_transfer
    ≡ none
cy_ingest_topic_transfer_livelock_example =
    cy_ingest_topic_transfer_livelock list_index quiet hash_of counting 1000
      (node_with (9 ∷ 8 ∷ [])) 1 no_transfer coupling (coupling ∷ []) 9 8 [] refl refl
