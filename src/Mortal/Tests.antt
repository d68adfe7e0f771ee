-- ===== src/Mortal/Tests.antt =====
-- The list of mortal topics at a concrete node.
use cy.Prelude.{ℕ, ◌≡◌, refl, Option, none, some, List, [], ◌∷◌, ◌==◌, if◌then◌else◌, arith}
use cy.Prelude.Int.{pos, ◌+ℤ◌}
use cy.Index.{list_index, remove_in, head_in}
use cy.Node.{Topic, Cy}
use cy.Allocation.Tests.{quiet, topic_of, node_of}
use cy.Mortal.{mortal_delist, mortal_animate, mortal_retire_timed_out}
use cy.Mortal.Linked.{Linked, mortal_delist-Linked}
use cy.Mortal.Order.{to_front, survivors, mortal_animate-Linked, mortal_retire_timed_out-Linked}

abbrev linked_topic : Option ℕ → Option ℕ → Topic list_index
linked_topic next prev = record (topic_of 10000 3) { mortal_next = next; mortal_prev = prev }

-- Topics 1, 2 and 3, in this order.
abbrev three : Cy list_index quiet
three =
    record (node_of (λ x.
      if x == 1
      then linked_topic (some 2) none
      else if x == 2
      then linked_topic (some 3) (some 1)
      else if x == 3
      then linked_topic none (some 2)
      else linked_topic none none)) { mortal_head = some 1; mortal_tail = some 3 }

abbrev three_list : List ℕ
three_list = 1 ∷ 2 ∷ 3 ∷ []

three-Linked : Linked list_index quiet three three_list
unfolding head_in
three-Linked = record {
  chain = (refl, refl, refl, (refl, refl, refl, (refl, refl, refl, tt)));
  first = refl;
  last = refl;
  outside = λ x h. (ground arith, ground arith);
}

mortal_animate-Linked_example :
    Linked list_index quiet (mortal_animate list_index quiet three 2) (to_front 2 three_list)
mortal_animate-Linked_example =
    mortal_animate-Linked list_index quiet three 2 three_list three-Linked

front : to_front 2 three_list ≡ 2 ∷ 1 ∷ 3 ∷ []
unfolding remove_in
front = refl

mortal_retire_timed_out-Linked_example :
    Linked list_index quiet
      (mortal_retire_timed_out list_index quiet three (pos 4_000_000_000))
      (survivors list_index quiet three (some 3) (pos 4_000_000_000) three_list)
mortal_retire_timed_out-Linked_example =
    mortal_retire_timed_out-Linked list_index quiet three (pos 4_000_000_000) three_list
      three-Linked

retired : survivors list_index quiet three (some 3) (pos 4_000_000_000) three_list ≡ 1 ∷ 2 ∷ []
unfolding remove_in ◌+ℤ◌
retired = refl

mortal_delist-Linked_example :
    Linked list_index quiet (mortal_delist list_index quiet three 1) (remove_in 1 three_list)
mortal_delist-Linked_example =
    mortal_delist-Linked list_index quiet three 1 three_list three-Linked refl
