-- ===== src/Hint/Tests.antt =====
-- A hint at subject-IDs of a topic without evictions.
use cy.Prelude.{ℕ, ◌*◌, ◌≡◌, ◌≢◌, ◌<◌, refl, none, some, arith}
use cy.Subject.{topic_subject_count, topic_subject_id}
use cy.Index.{list_index}
use cy.Node.{Cy}
use cy.Hint.{seek, cy_topic_hint}
use cy.Hint.Search.{seek_total, cy_topic_hint_livelock}
use cy.Allocation.Tests.{quiet, node_of, topic_of}

abbrev one_topic : Cy list_index quiet
one_topic = node_of (λ x. topic_of 10000 3)

seek_total_example :
    (j : ℕ) × (seek 20000 10000 0 100 ≡ some j)
    × (topic_subject_id 10000 j ≡ 100)
    × (j < 2 * topic_subject_count)
    × ((i : ℕ) → i < j → topic_subject_id 10000 i ≢ 100)
seek_total_example =
    seek_total 20000 10000 100 (omega arith) (omega arith) (omega arith) (omega arith)

cy_topic_hint_livelock_example :
    cy_topic_hint list_index quiet 1000000 one_topic (some 1) 7000 ≡ none
cy_topic_hint_livelock_example =
    cy_topic_hint_livelock list_index quiet 1000000 one_topic 1 7000 (omega arith) refl
      (omega arith) (omega arith)
