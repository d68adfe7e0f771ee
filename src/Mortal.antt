-- ===== src/Mortal.antt =====
-- The mortal topics of cy/cy.c: a doubly linked list threaded through the topics of a node.
pub mod Links
pub mod Fields
pub mod Frame
pub mod Linked
pub mod Order
mod Tests
use cy.Prelude.{
  ℕ, Bool, true, false, not, ◌&&◌, Option, none, some, List, [], ◌∷◌, ltb, ◌==◌, if◌then◌else◌,
}
use cy.Prelude.Int.{ℤ, ◌+ℤ◌, ltb_ℤ}
use cy.Index.{Cavl}
use cy.Platform.{Platform}
use cy.Node.{SubscriberRoot, Coupling, Topic, Cy}
use cy.Allocation.{set_topic}

-- Comparison of a pointer with an object.
unfoldable pub points_to : Option ℕ → ℕ → Bool
points_to none x = false
points_to (some y) x = y == x

unfoldable pub is_some : Option ℕ → Bool
is_some none = false
is_some (some x) = true

-- No coupling with a verbatim subscriber.
unfoldable pub all_patterns : (ℕ → SubscriberRoot) → List Coupling → Bool
all_patterns roots [] = true
all_patterns roots (c ∷ cs) = if not (roots c.root).is_pattern then false else all_patterns roots cs

module _ (cavl : Cavl) (platform : Platform) where
  unfoldable pub set_next : Cy cavl platform → ℕ → Option ℕ → Cy cavl platform
  unfolding set_topic
  set_next s x v = set_topic cavl platform s x (record (s.topics x) { mortal_next = v })

  unfoldable pub set_prev : Cy cavl platform → ℕ → Option ℕ → Cy cavl platform
  unfolding set_topic
  set_prev s x v = set_topic cavl platform s x (record (s.topics x) { mortal_prev = v })

  -- The same through a pointer that may be NULL: nothing is written then.
  unfoldable pub set_next_at : Cy cavl platform → Option ℕ → Option ℕ → Cy cavl platform
  unfolding set_next
  set_next_at s none v = s
  set_next_at s (some x) v = set_next s x v

  unfoldable pub set_prev_at : Cy cavl platform → Option ℕ → Option ℕ → Cy cavl platform
  unfolding set_prev
  set_prev_at s none v = s
  set_prev_at s (some x) v = set_prev s x v

  unfoldable pub validate_is_mortal : Cy cavl platform → ℕ → Bool
  unfolding all_patterns
  validate_is_mortal s t =
      if ltb 0 (s.topics t).pub_count then false else all_patterns s.roots (s.topics t).couplings

  unfoldable pub is_mortal : Cy cavl platform → ℕ → Bool
  unfolding points_to is_some
  is_mortal s t =
      if is_some (s.topics t).mortal_next
      then true
      else if is_some (s.topics t).mortal_prev
      then true
      else points_to s.mortal_head t

  unfoldable pub move_head : Cy cavl platform → ℕ → Cy cavl platform
  unfolding points_to
  move_head s t =
      if points_to s.mortal_head t then record s { mortal_head = (s.topics t).mortal_next } else s

  unfoldable pub move_tail : Cy cavl platform → ℕ → Cy cavl platform
  unfolding points_to
  move_tail s t =
      if points_to s.mortal_tail t then record s { mortal_tail = (s.topics t).mortal_prev } else s

  unfoldable pub mortal_delist : Cy cavl platform → ℕ → Cy cavl platform
  mortal_delist s t =
      let s1 = set_prev_at s (s.topics t).mortal_next (s.topics t).mortal_prev in
      let s2 = set_next_at s1 (s1.topics t).mortal_prev (s1.topics t).mortal_next in
      let s3 = move_tail (move_head s2 t) t in set_prev (set_next s3 t none) t none

  unfoldable pub mortal_enlist : Cy cavl platform → ℕ → Cy cavl platform
  unfolding set_next set_prev_at is_some
  mortal_enlist s t =
      let s1 = set_next s t s.mortal_head in
      let s2 = record (set_prev_at s1 s1.mortal_head (some t)) { mortal_head = some t } in
      if is_some s2.mortal_tail then s2 else record s2 { mortal_tail = some t }

  unfoldable pub mortal_animate : Cy cavl platform → ℕ → Cy cavl platform
  mortal_animate s t = if is_mortal s t then mortal_enlist (mortal_delist s t) t else s

  -- The source leaves topic_destroy empty.
  unfoldable pub topic_destroy : Cy cavl platform → ℕ → Cy cavl platform
  topic_destroy s t = s

  unfoldable pub retire : Cy cavl platform → Option ℕ → ℤ → Cy cavl platform
  retire s none now = s
  retire s (some t) now =
      if ltb_ℤ ((s.topics t).ts_received +ℤ s.mortal_topic_timeout) now
        && ltb_ℤ ((s.topics t).ts_testified +ℤ s.mortal_topic_timeout) now
      then topic_destroy (mortal_delist s t) t
      else s

  unfoldable pub mortal_retire_timed_out : Cy cavl platform → ℤ → Cy cavl platform
  mortal_retire_timed_out s now = retire s s.mortal_tail now
