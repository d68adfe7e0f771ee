-- ===== src/Creation/Entry.antt =====
-- The entry of a new topic into the indexes, the second half of topic_new of cy/cy.c.
use cy.Prelude.{
  ℕ, suc, ◌+◌, ◌≤◌, ◌<◌, ◌≡◌, ◌≢◌, refl, ◌∙◌, true, false, Option, none, some, List, arith, length,
  ◌==◌, ◌||◌,
}
use cy.Index.{Cavl, has}
use cy.Platform.{Platform, cy_ok}
use cy.Node.{Cy}
use cy.Allocation.{topic_allocate}
use cy.Allocation.Frame.{Keeps, Keeps-refl, Keeps-trans, set_topic-Keeps, Keeps-if}
use cy.Allocation.Rank.{beats, count-le-length}
use cy.Allocation.Setting.{Setting, Indexed}
use cy.Allocation.Termination.{Indexed-Keeps, enough_rounds, topic_allocate_total}
use cy.Mortal.{set_next, set_prev_at, set_prev, is_some, mortal_enlist}
use cy.Creation.{index_topic, enter_topic}

module _ (cavl : Cavl) (platform : Platform) where
  set_next-Keeps :
      (s : Cy cavl platform) (x : ℕ) (v : Option ℕ)
      → Keeps cavl platform s (set_next cavl platform s x v)
  unfolding set_next
  set_next-Keeps s x v =
      set_topic-Keeps cavl platform s x (record (s.topics x) { mortal_next = v }) refl refl refl

  set_prev_at-Keeps :
      (s : Cy cavl platform) (o v : Option ℕ)
      → Keeps cavl platform s (set_prev_at cavl platform s o v)
  unfolding set_prev_at set_prev
  set_prev_at-Keeps s none v = Keeps-refl cavl platform s
  set_prev_at-Keeps s (some x) v =
      set_topic-Keeps cavl platform s x (record (s.topics x) { mortal_prev = v }) refl refl refl

  head-Keeps :
      (s : Cy cavl platform) (v : Option ℕ) → Keeps cavl platform s (record s { mortal_head = v })
  head-Keeps s v = record { hash = λ x. refl; age = λ x. refl; evictions = λ x. refl; index = refl }

  tail-Keeps :
      (s : Cy cavl platform) (v : Option ℕ) → Keeps cavl platform s (record s { mortal_tail = v })
  tail-Keeps s v = record { hash = λ x. refl; age = λ x. refl; evictions = λ x. refl; index = refl }

  mortal_enlist-Keeps :
      (s : Cy cavl platform) (t : ℕ) → Keeps cavl platform s (mortal_enlist cavl platform s t)
  unfolding mortal_enlist
  mortal_enlist-Keeps s t =
      let s1 = set_next cavl platform s t s.mortal_head in
      let s2 = set_prev_at cavl platform s1 s1.mortal_head (some t) in
      let s3 = record s2 { mortal_head = some t } in
      Keeps-trans cavl platform (set_next-Keeps s t s.mortal_head) (
        Keeps-trans cavl platform (set_prev_at-Keeps s1 s1.mortal_head (some t)) (
          Keeps-trans cavl platform (head-Keeps s2 (some t)) (
            Keeps-if cavl platform (is_some s3.mortal_tail) (Keeps-refl cavl platform s3)
              (tail-Keeps s3 (some t)))))

  enlisted : (s : Cy cavl platform) (t : ℕ) → (mortal_enlist cavl platform s t).mortal_head ≡ some t
  unfolding mortal_enlist
  enlisted s t = ground arith

  module _ (rapidhash : List ℕ → ℕ) where
    index_topic-Keeps :
        (s : Cy cavl platform) (t : ℕ)
        → Keeps cavl platform s (index_topic cavl platform rapidhash s t)
    unfolding index_topic
    index_topic-Keeps s t = record {
      hash = λ x. refl;
      age = λ x. refl;
      evictions = λ x. refl;
      index = refl;
    }

    count-Keeps :
        (s : Cy cavl platform) (n : ℕ) → Keeps cavl platform s (record s { topic_count = n })
    count-Keeps s n = record {
      hash = λ x. refl;
      age = λ x. refl;
      evictions = λ x. refl;
      index = refl;
    }

    enter_run :
        (depth steps : ℕ) (s s1 : Cy cavl platform) (t : ℕ)
        → topic_allocate cavl platform depth steps
            (index_topic cavl platform rapidhash s t)
            t
            0
            true
          ≡ some s1
        → enter_topic cavl platform rapidhash depth steps s t
          ≡ some (
            cy_ok,
            some t,
            mortal_enlist cavl platform (record s1 { topic_count = s1.topic_count + 1 }) t,
          )
    unfolding enter_topic
    enter_run depth steps s s1 t run = rw (enter_topic, run) refl

    -- For at most CY_TOPIC_SUBJECT_COUNT topics with distinct hashes, the pinned ones from
    -- CY_TOPIC_SUBJECT_COUNT on, and an index by subject-ID with one topic to a subject-ID: with a
    -- depth above the number of topics and enough rounds for the allocation, the entry of a topic
    -- that is not in the index yet succeeds. It and all earlier topics are in the index, one to a
    -- subject-ID; the topics that it does not beat keep their evictions; and it is the first one of
    -- the mortal topics.
    pub enter_topic_total :
        (hash age : ℕ → ℕ) (universe : List ℕ) (g : Setting hash universe) (depth rounds : ℕ)
        → length universe < depth
        → enough_rounds cavl platform hash age universe ≤ rounds
        → (s : Cy cavl platform) (zs : List ℕ) (t : ℕ)
        → Indexed cavl platform hash age universe s zs
        → has t universe ≡ true
        → has t zs ≡ false
        → (s1 : Cy cavl platform) × (zs1 : List ℕ) × (enter_topic cavl platform rapidhash depth
              (suc rounds)
              s
              t
            ≡ some (cy_ok, some t, s1))
          × Indexed cavl platform hash age universe s1 zs1
          × ((x : ℕ) → has x zs1 ≡ (x == t || has x zs))
          × ((x : ℕ)
              → x ≢ t
              → beats hash age t x ≡ false
              → (s1.topics x).evictions ≡ (s.topics x).evictions)
          × (s1.mortal_head ≡ some t)
    enter_topic_total hash age universe g depth rounds deep room s zs t ix it new =
        let k0 = index_topic-Keeps s t in
        let (s1, zs1, run, m) =
          topic_allocate_total cavl platform hash age universe g depth rounds room
            (index_topic cavl platform rapidhash s t) zs t 0 true
            (Indexed-Keeps cavl platform hash age universe zs k0 ix) it (ground arith) (omega arith)
            (omega (arith, count-le-length (beats hash age t) universe)) in
        let s2 = record s1 { topic_count = s1.topic_count + 1 } in
        let k =
          Keeps-trans cavl platform (count-Keeps s1 (s1.topic_count + 1))
            (mortal_enlist-Keeps s2 t) in
        (
          mortal_enlist cavl platform s2 t,
          zs1,
          enter_run depth (suc rounds) s s1 t run,
          Indexed-Keeps cavl platform hash age universe zs1 k m.indexed,
          m.members,
          λ x ne b. k.evictions x ∙ m.frame x ne (λ i. b) ∙ k0.evictions x,
          enlisted s2 t,
        )
