-- ===== src/Creation/Tests.antt =====
-- A topic that collides with an older one is entered.
use cy.Prelude.{ℕ, suc, ◌*◌, ◌≡◌, ◌≢◌, refl, some, false, List, [], ◌∷◌, ◌==◌, ◌||◌, arith}
use cy.Subject.{u32_mod}
use cy.Index.{list_index, has}
use cy.Platform.{cy_ok}
use cy.Node.{Cy}
use cy.Allocation.Rank.{beats}
use cy.Allocation.Setting.{Indexed}
use cy.Creation.{enter_topic}
use cy.Creation.Entry.{enter_topic_total}
use cy.Allocation.Tests.{
  quiet, node_of, rivals, rival_hash, rival_age, rivals-Setting, rivals-Indexed,
}

abbrev nine : List ℕ → ℕ
nine bytes = 9

enter_topic_total_example :
    (s1 : Cy list_index quiet) × (zs1 : List ℕ) × (enter_topic list_index quiet nine 3
        (suc (4 * u32_mod))
        (node_of rivals)
        2
      ≡ some (cy_ok, some 2, s1))
    × Indexed list_index quiet rival_hash rival_age (1 ∷ 2 ∷ []) s1 zs1
    × ((x : ℕ) → has x zs1 ≡ (x == 2 || has x (1 ∷ [])))
    × ((x : ℕ)
        → x ≢ 2
        → beats rival_hash rival_age 2 x ≡ false
        → (s1.topics x).evictions ≡ ((node_of rivals).topics x).evictions)
    × (s1.mortal_head ≡ some 2)
enter_topic_total_example =
    enter_topic_total list_index quiet nine rival_hash rival_age (1 ∷ 2 ∷ []) rivals-Setting 3
      (4 * u32_mod) (omega arith) (omega arith) (node_of rivals) (1 ∷ []) 2 rivals-Indexed refl refl
