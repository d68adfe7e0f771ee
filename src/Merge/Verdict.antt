-- ===== src/Merge/Verdict.antt =====
-- The agreement that on_heartbeat of cy/cy.c reaches on a topic that this node has.
use cy.Prelude.{
  ℕ, suc, subst, ◌≤◌, ◌<◌, ◌≡◌, ◌≢◌, refl, sym, ap, ap₂, ◌∙◌, true, false, not, some, List, arith,
  ◌==◌, if◌then◌else◌, length, Bool-cases, inl, inr,
}
use cy.Prelude.Int.{ℤ, pos, negsuc}
use cy.Subject.{u32_mod, topic_subject_id}
use cy.Age.{log2_floor, pow2, max_u64, eq_ℤ}
use cy.Index.{Cavl, has}
use cy.Index.Cut.{Sorted-congr}
use cy.Platform.{Platform}
use cy.Node.{Cy}
use cy.Allocation.{
  subject_id_of, set_topic, update_gossip_order, prioritize_gossip, topic_ensure_subscribed,
  topic_allocate,
}
use cy.Allocation.Frame.{
  Keeps, Keeps-refl, Keeps-trans, Keeps-if, update_gossip_order-Keeps, prioritize_gossip-Keeps,
  topic_ensure_subscribed-Keeps, ts_event-Keeps, ts_local_event-Keeps,
}
use cy.Allocation.Rank.{beats, count-le-length, dist}
use cy.Allocation.Setting.{Setting, Indexed, Moved, Target}
use cy.Allocation.Contest.{Result}
use cy.Allocation.Termination.{Indexed-Keeps, enough_rounds, topic_allocate_total}
use cy.Merge.{keeps_evictions, merge_age, follow, settle, note_event, merge_after, on_known}

-- Two nodes that diverge on the evictions of one topic and know each other's rounded age: exactly
-- one of them keeps its allocation.
pub keeps_evictions-not :
    (a b : ℤ) (mine other : ℕ)
    → mine ≢ other
    → keeps_evictions b other a mine ≡ not (keeps_evictions a mine b other)
unfolding keeps_evictions eq_ℤ
keeps_evictions-not (pos a) (pos b) mine other ne = ground arith
keeps_evictions-not (pos a) (negsuc b) mine other ne = ground arith
keeps_evictions-not (negsuc a) (pos b) mine other ne = ground arith
keeps_evictions-not (negsuc a) (negsuc b) mine other ne = ground arith

-- The ages once the age of t is merged with a rounded age.
abbrev pub merged : (ℕ → ℕ) → ℕ → ℤ → ℕ → ℕ
merged age t lage x = if x == t then max_u64 (age x) (pow2 lage) else age x

max_u64_again : (a b : ℕ) → max_u64 (max_u64 a b) b ≡ max_u64 a b
unfolding max_u64
max_u64_again a b = ground arith

merged_again :
    (age : ℕ → ℕ) (t : ℕ) (lage : ℤ) (x : ℕ)
    → merged (merged age t lage) t lage x ≡ merged age t lage x
merged_again age t lage x = ground (arith, max_u64_again (age x) (pow2 lage))

module _ (cavl : Cavl) (platform : Platform) (rapidhash : List ℕ → ℕ) (depth steps : ℕ)
    (hash age : ℕ → ℕ) (universe : List ℕ) where
  merge_age_lem :
      (s : Cy cavl platform) (t : ℕ) (lage : ℤ) (x : ℕ)
      → (((merge_age cavl platform rapidhash depth steps s t lage).topics x).hash
          ≡ (s.topics x).hash)
        × (((merge_age cavl platform rapidhash depth steps s t lage).topics x).evictions
            ≡ (s.topics x).evictions)
        × (((merge_age cavl platform rapidhash depth steps s t lage).topics x).age
            ≡ (if x == t then max_u64 (s.topics x).age (pow2 lage) else (s.topics x).age))
  unfolding merge_age set_topic
  merge_age_lem s t lage x = (ground arith, ground arith, ground arith)

  merge_index :
      (s : Cy cavl platform) (t : ℕ) (lage : ℤ)
      → (merge_age cavl platform rapidhash depth steps s t lage).topics_by_subject_id
        ≡ s.topics_by_subject_id
  unfolding merge_age set_topic
  merge_index s t lage = refl

  merge_age-Indexed :
      (now : ℕ → ℕ) (s : Cy cavl platform) (t : ℕ) (lage : ℤ) (zs : List ℕ)
      → Indexed cavl platform hash now universe s zs
      → ((x : ℕ) → merged now t lage x ≡ merged age t lage x)
      → Indexed cavl platform hash
          (merged age t lage)
          universe
          (merge_age cavl platform rapidhash depth steps s t lage)
          zs
  merge_age-Indexed now s t lage zs ix h =
      let s1 = merge_age cavl platform rapidhash depth steps s t lage in
      let same = merge_age_lem s t lage in
      record {
        same_hash = λ x. (same x).0 ∙ ix.same_hash x;
        same_age = λ x.
            (same x).2
            ∙ ap (λ a. if x == t then max_u64 a (pow2 lage) else a) (ix.same_age x)
            ∙ h x;
        listed = ap cavl.to_list (merge_index s t lage) ∙ ix.listed;
        sorted =
            Sorted-congr (subject_id_of cavl platform s) (subject_id_of cavl platform s1) zs
              (λ x i. ap₂ topic_subject_id (sym (same x).0) (sym (same x).1)) ix.sorted;
        word = λ x. omega (arith, (same x).1, ix.word x);
        inside = ix.inside;
      }

  -- What a gossip of the topic t with these evictions and this rounded age leaves.
  pub record Agreed (s : Cy cavl platform) (t other_evictions : ℕ) (other_lage : ℤ) (zs : List ℕ)
      (s1 : Cy cavl platform) (zs1 : List ℕ) : Type 0 where
    pub indexed : Indexed cavl platform hash (merged age t other_lage) universe s1 zs1
    pub members : (x : ℕ) → has x zs1 ≡ has x zs
    pub frame :
        (x : ℕ)
        → x ≢ t
        → (has x zs ≡ true → beats hash (merged age t other_lage) t x ≡ false)
        → (s1.topics x).evictions ≡ (s.topics x).evictions
    pub keeps :
        keeps_evictions (log2_floor (age t)) (s.topics t).evictions other_lage other_evictions
          ≡ true
        → (s1.topics t).evictions ≡ (s.topics t).evictions
    pub adopts :
        keeps_evictions (log2_floor (age t)) (s.topics t).evictions other_lage other_evictions
          ≡ false
        → Target cavl platform hash (merged age t other_lage) universe s t zs other_evictions
        → (s1.topics t).evictions ≡ other_evictions

  -- Nothing is moved.
  Agreed-Keeps :
      (s s1 : Cy cavl platform) (t e : ℕ) (lage : ℤ) (zs : List ℕ)
      → Indexed cavl platform hash age universe s zs
      → Keeps cavl platform s s1
      → (keeps_evictions (log2_floor (age t)) (s.topics t).evictions lage e ≡ false
          → (s.topics t).evictions ≡ e)
      → Agreed s t e lage zs (merge_age cavl platform rapidhash depth steps s1 t lage) zs
  Agreed-Keeps s s1 t e lage zs ix k agree = record {
    indexed =
        merge_age-Indexed age s1 t lage zs (Indexed-Keeps cavl platform hash age universe zs k ix)
          (λ x. refl);
    members = λ x. refl;
    frame = λ x ne q. (merge_age_lem s1 t lage x).1 ∙ k.evictions x;
    keeps = λ q. (merge_age_lem s1 t lage t).1 ∙ k.evictions t;
    adopts = λ q target. (merge_age_lem s1 t lage t).1 ∙ k.evictions t ∙ agree q;
  }

  no_distance : (j e : ℕ) → j < u32_mod → e < u32_mod → dist j e ≤ dist j j → e ≡ j
  no_distance j e hj he h = omega arith

  -- The side that loses moves the topic.
  Agreed-Moved :
      (s s1 s2 : Cy cavl platform) (t e : ℕ) (lage : ℤ) (zs zs1 : List ℕ)
      → has t zs ≡ true
      → e < u32_mod
      → keeps_evictions (log2_floor (age t)) (s.topics t).evictions lage e ≡ false
      → Moved cavl platform hash
          (merged age t lage)
          universe
          (merge_age cavl platform rapidhash depth steps s t lage)
          t
          e
          zs
          s1
          zs1
      → Keeps cavl platform s1 s2
      → Agreed s t e lage zs (merge_age cavl platform rapidhash depth steps s2 t lage) zs1
  Agreed-Moved s s1 s2 t e lage zs zs1 it small lost m k =
      let s0 = merge_age cavl platform rapidhash depth steps s t lage in
      let same = merge_age_lem s t lage in
      let last = merge_age_lem s2 t lage in
      let sid : (x : ℕ) → subject_id_of cavl platform s0 x ≡ subject_id_of cavl platform s x =
        λ x. ap₂ topic_subject_id (same x).0 (same x).1 in
      record {
        indexed =
            merge_age-Indexed (merged age t lage) s2 t lage zs1
              (Indexed-Keeps cavl platform hash (merged age t lage) universe zs1 k m.indexed)
              (merged_again age t lage);
        members = λ x. ground (arith, m.members x, ap (λ y. has y zs) {x = x} {y = t});
        frame = λ x ne q. (last x).1 ∙ k.evictions x ∙ m.frame x ne q ∙ (same x).1;
        keeps = λ q. absurd (ground arith);
        adopts = λ q target.
            (last t).1
            ∙ k.evictions t
            ∙ no_distance e (s1.topics t).evictions small (m.indexed.word t)
                (m.bound e small (λ x i b w. target x i b (sym (sid x) ∙ w)));
      }

  follow_run :
      (s s1 : Cy cavl platform) (t e : ℕ) (lage ts : ℤ)
      → topic_allocate cavl platform depth steps
          (merge_age cavl platform rapidhash depth steps s t lage)
          t
          e
          false
        ≡ some s1
      → (s2 : Cy cavl platform) × (follow cavl platform rapidhash depth steps s t e lage ts
          ≡ some s2)
        × Keeps cavl platform s1 s2
  unfolding follow
  follow_run s s1 t e lage ts run = (
    record (if (s1.topics t).evictions == e
        then update_gossip_order cavl platform s1 t (s.topics t).ts_gossiped 0
        else s1) { ts_local_event = ts },
    rw (run, follow) refl,
    Keeps-trans cavl platform
        (Keeps-if cavl platform ((s1.topics t).evictions == e)
          (update_gossip_order-Keeps cavl platform s1 t (s.topics t).ts_gossiped 0)
          (Keeps-refl cavl platform s1))
        (ts_local_event-Keeps cavl platform _ ts),
  )

  equal_run :
      (s : Cy cavl platform) (t e : ℕ) (lage ts : ℤ)
      → ((s.topics t).evictions == e) ≡ true
      → on_known cavl platform rapidhash depth steps s t e lage ts
        ≡ some (
            merge_age cavl platform rapidhash depth steps
              (topic_ensure_subscribed cavl platform s t)
              t
              lage)
  unfolding on_known merge_after
  equal_run s t e lage ts h = rw h refl

  won_run :
      (s : Cy cavl platform) (t e : ℕ) (lage ts : ℤ)
      → ((s.topics t).evictions == e) ≡ false
      → keeps_evictions (log2_floor (s.topics t).age) (s.topics t).evictions lage e ≡ true
      → on_known cavl platform rapidhash depth steps s t e lage ts
        ≡ some (
            merge_age cavl platform rapidhash depth steps
              (record (prioritize_gossip cavl platform s t 100) { ts_event = ts })
              t
              lage)
  unfolding on_known merge_after note_event settle
  won_run s t e lage ts h q = rw (h, settle, q) refl

  lost_run :
      (s s2 : Cy cavl platform) (t e : ℕ) (lage ts : ℤ)
      → ((s.topics t).evictions == e) ≡ false
      → keeps_evictions (log2_floor (s.topics t).age) (s.topics t).evictions lage e ≡ false
      → follow cavl platform rapidhash depth steps s t e lage ts ≡ some s2
      → on_known cavl platform rapidhash depth steps s t e lage ts
        ≡ some (merge_age cavl platform rapidhash depth steps (record s2 { ts_event = ts }) t lage)
  unfolding on_known merge_after note_event settle
  lost_run s s2 t e lage ts h q run = rw (h, settle, q, run) refl

  -- For at most CY_TOPIC_SUBJECT_COUNT topics with distinct hashes, the pinned ones from
  -- CY_TOPIC_SUBJECT_COUNT on, and an index by subject-ID with one topic to a subject-ID: with a
  -- depth above the number of topics and enough rounds for the allocations, a gossip of a topic of
  -- the index with 32-bit evictions is handled, that is, on_known returns. The age of the topic is
  -- merged; the index still holds the same topics, one to a subject-ID; the topics that this one
  -- does not beat keep their evictions. The side that wins the divergence keeps its evictions, and
  -- the side that loses adopts those of the other side, unless a topic of the index that beats this
  -- one is there.
  pub on_known_total :
      (g : Setting hash universe)
      → length universe < depth
      → (rounds : ℕ) → steps ≡ suc rounds
      → enough_rounds cavl platform hash age universe ≤ rounds
      → (s : Cy cavl platform) (zs : List ℕ) (t other_evictions : ℕ) (other_lage ts : ℤ)
      → Indexed cavl platform hash age universe s zs
      → has t zs ≡ true
      → other_evictions < u32_mod
      → (s1 : Cy cavl platform) × (zs1 : List ℕ) × (on_known cavl platform rapidhash depth steps s t
            other_evictions other_lage ts
          ≡ some s1)
        × Agreed s t other_evictions other_lage zs s1 zs1
  on_known_total g deep rounds exact room s zs t e lage ts ix it small =
      elim (Bool-cases ((s.topics t).evictions == e)) [
        | inl h ↦ (
          _,
          zs,
          equal_run s t e lage ts h,
          Agreed-Keeps s _ t e lage zs ix (topic_ensure_subscribed-Keeps cavl platform s t)
              (λ q. ground arith),
        )
        | inr h ↦ diverged h
      ]
    where
      local : (log2_floor (s.topics t).age) ≡ log2_floor (age t)
      local = ap log2_floor (ix.same_age t)

      goal : Type 0
      goal =
          (s1 : Cy cavl platform) × (zs1 : List ℕ) × (on_known cavl platform rapidhash depth steps s
              t e lage ts
            ≡ some s1)
          × Agreed s t e lage zs s1 zs1

      lost :
          ((s.topics t).evictions == e) ≡ false
          → keeps_evictions (log2_floor (age t)) (s.topics t).evictions lage e ≡ false
          → goal
      lost h q =
          let moved : Result cavl platform hash (merged age t lage) universe g
              (topic_allocate cavl platform depth steps
                (merge_age cavl platform rapidhash depth steps s t lage) t e false)
              (merge_age cavl platform rapidhash depth steps s t lage) t e zs =
            subst
              (λ n.
                Result cavl platform hash (merged age t lage) universe g
                  (topic_allocate cavl platform depth n
                    (merge_age cavl platform rapidhash depth steps s t lage) t e false)
                  (merge_age cavl platform rapidhash depth steps s t lage) t e zs)
              (sym exact)
              (topic_allocate_total cavl platform hash (merged age t lage) universe g depth rounds
                room (merge_age cavl platform rapidhash depth steps s t lage) zs t e false
                (merge_age-Indexed age s t lage zs ix (λ x. refl)) (ix.inside t it) (ground arith)
                small
                (omega (arith, count-le-length (beats hash (merged age t lage) t) universe))) in
          let (s1, zs1, run, m) = moved in
          let (s2, followed, k) = follow_run s s1 t e lage ts run in
          (
            _,
            zs1,
            lost_run s s2 t e lage ts h (rw local q) followed,
            Agreed-Moved s s1 _ t e lage zs zs1 it small q m
                (Keeps-trans cavl platform k (ts_event-Keeps cavl platform s2 ts)),
          )

      diverged : ((s.topics t).evictions == e) ≡ false → goal
      diverged h =
          elim (Bool-cases (keeps_evictions (log2_floor (age t)) (s.topics t).evictions lage e)) [
            | inl q ↦ (
              _,
              zs,
              won_run s t e lage ts h (rw local q),
              Agreed-Keeps s _ t e lage zs ix
                  (Keeps-trans cavl platform (prioritize_gossip-Keeps cavl platform s t 100)
                    (ts_event-Keeps cavl platform _ ts))
                  (λ l. absurd (ground arith)),
            )
            | inr q ↦ lost h q
          ]
