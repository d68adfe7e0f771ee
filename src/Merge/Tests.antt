-- ===== src/Merge/Tests.antt =====
-- Gossips of a known and of an unknown topic, at a node with one topic in its index.
use cy.Prelude.{ℕ, suc, ◌*◌, ◌≡◌, refl, not, some, List, [], ◌∷◌, arith}
use cy.Prelude.Int.{pos}
use cy.Subject.{u32_mod}
use cy.Index.{list_index}
use cy.Node.{Cy}
use cy.Merge.{keeps_evictions, on_known, on_unknown}
use cy.Merge.Verdict.{Agreed, keeps_evictions-not, on_known_total}
use cy.Merge.Collision.{Yielded, on_unknown_total}
use cy.Allocation.Tests.{
  quiet, node_of, rivals, rival_hash, rival_age, rivals-Setting, rivals-Indexed,
}

abbrev no_hash : List ℕ → ℕ
no_hash bytes = 5

abbrev rounds : ℕ
rounds = 4 * u32_mod

keeps_evictions-not_example :
    keeps_evictions (pos 3) 8 (pos 3) 7 ≡ not (keeps_evictions (pos 3) 7 (pos 3) 8)
keeps_evictions-not_example = keeps_evictions-not (pos 3) (pos 3) 7 8 (omega arith)

on_known_total_example :
    (s1 : Cy list_index quiet) × (zs1 : List ℕ) × (on_known list_index quiet no_hash 3
        (suc rounds)
        (node_of rivals)
        1
        7
        (pos 4)
        (pos 50)
      ≡ some s1)
    × Agreed list_index quiet no_hash 3
        (suc rounds)
        rival_hash
        rival_age
        (1 ∷ 2 ∷ [])
        (node_of rivals)
        1
        7
        (pos 4)
        (1 ∷ [])
        s1
        zs1
on_known_total_example =
    on_known_total list_index quiet no_hash 3 (suc rounds) rival_hash rival_age (1 ∷ 2 ∷ [])
      rivals-Setting (omega arith) rounds refl (omega arith) (node_of rivals) (1 ∷ []) 1 7 (pos 4)
      (pos 50) rivals-Indexed refl (omega arith)

on_unknown_total_example :
    (s1 : Cy list_index quiet) × (zs1 : List ℕ) × (on_unknown list_index quiet no_hash 3
        (suc rounds)
        (node_of rivals)
        16144
        0
        (pos 9)
        (pos 50)
      ≡ some s1)
    × Yielded list_index quiet no_hash 3 rounds rival_hash rival_age
        (1 ∷ 2 ∷ [])
        (node_of rivals)
        16144
        0
        (pos 9)
        (1 ∷ [])
        s1
        zs1
on_unknown_total_example =
    on_unknown_total list_index quiet no_hash 3 rounds rival_hash rival_age (1 ∷ 2 ∷ [])
      rivals-Setting (omega arith) (omega arith) (node_of rivals) (1 ∷ []) 16144 0 (pos 9) (pos 50)
      rivals-Indexed
