-- ===== src/Lookup.antt =====
-- The indexes of topics and futures, of cy/cy.c: the comparators by hash, by transfer-ID and by
-- deadline, cy_topic_find_by_name, cy_topic_find_by_hash, cy_topic_find_by_subject_id,
-- cy_topic_iter_first, cy_topic_name.
use Prim.Native.Nat.{compare}
use cy.Prelude.{ℕ, Option, none, some, List, Ordering, if◌then◌else◌}
use cy.Prelude.Int.{ℤ, ltb_ℤ}
use cy.Index.{Comparator, Cavl}
use cy.Platform.{Platform}
use cy.Node.{Cy}
use cy.Allocation.{subject_id_of}

module _ (cavl : Cavl) (platform : Platform) where
  open cavl use {find, min}
  open platform use {wkv}
  open wkv use {get}

  -- Outer keys against the keys of the nodes' owners.
  abbrev pub cavl_comp_topic_hash : Cy cavl platform → ℕ → Comparator
  cavl_comp_topic_hash s outer inner = compare outer (s.topics inner).hash

  abbrev pub cavl_comp_future_transfer_id_masked : Cy cavl platform → ℕ → Comparator
  cavl_comp_future_transfer_id_masked s outer inner =
      compare outer (s.futures inner).transfer_id_masked

  -- Never equal: equal deadlines in the order of their insertion.
  unfoldable pub cavl_comp_future_deadline : Cy cavl platform → ℤ → Comparator
  cavl_comp_future_deadline s outer inner =
      if ltb_ℤ outer (s.futures inner).deadline then Ordering.lt else Ordering.gt

  abbrev pub value_of : Option (Option ℕ) → Option ℕ
  value_of none = none
  value_of (some value) = value

  unfoldable pub cy_topic_find_by_name : Cy cavl platform → List ℕ → Option ℕ
  cy_topic_find_by_name s name = value_of (get s.topics_by_name name)

  unfoldable pub cy_topic_find_by_hash : Cy cavl platform → ℕ → Option ℕ
  cy_topic_find_by_hash s hash = find (cavl_comp_topic_hash s hash) s.topics_by_hash

  unfoldable pub cy_topic_find_by_subject_id : Cy cavl platform → ℕ → Option ℕ
  cy_topic_find_by_subject_id s subject_id =
      find (λ x. compare subject_id (subject_id_of cavl platform s x)) s.topics_by_subject_id

  unfoldable pub cy_topic_iter_first : Cy cavl platform → Option ℕ
  cy_topic_iter_first s = min s.topics_by_hash

  unfoldable pub cy_topic_name : Cy cavl platform → ℕ → List ℕ
  cy_topic_name s t = (s.topics t).name
