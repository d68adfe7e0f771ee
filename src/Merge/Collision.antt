-- ===== src/Merge/Collision.antt =====
-- The collision on a subject-ID that on_heartbeat of cy/cy.c resolves for a topic that this node
-- does not have.
use Prim.Native.Nat.{compare}
use cy.Prelude.{
  ℕ, suc, ◌+◌, ◌%◌, ◌≤◌, ◌<◌, ◌≡◌, ◌≢◌, refl, sym, ap, ap₂, ◌∙◌, true, false, none, some, List,
  arith, length, Bool-cases, Option-cases, inl, inr,
}
use cy.Prelude.Int.{ℤ}
use cy.Subject.{u32_mod, topic_subject_id}
use cy.Age.{left_wins}
use cy.Index.{Cavl, Cut, has, find_in}
use cy.Index.Cut.{Sorted-injective, Cut-Sorted, find_in-some}
use cy.Platform.{Platform}
use cy.Node.{Cy}
use cy.Allocation.{subject_id_of, prioritize_gossip, topic_allocate}
use cy.Allocation.Frame.{Keeps-trans, prioritize_gossip-Keeps, ts_event-Keeps, ts_local_event-Keeps}
use cy.Allocation.Rank.{beats, count-le-length}
use cy.Allocation.Setting.{Setting, Indexed}
use cy.Allocation.Termination.{Indexed-Keeps, enough_rounds, topic_allocate_total}
use cy.Lookup.{cy_topic_find_by_subject_id}
use cy.Merge.{collide, on_unknown}

module _ (cavl : Cavl) (platform : Platform) (rapidhash : List ℕ → ℕ) (depth rounds : ℕ)
    (hash age : ℕ → ℕ) (universe : List ℕ) where
  open cavl use {to_list, find_lem}

  -- The search in an index that holds the topics zs.
  find_subject_id :
      (s : Cy cavl platform) (zs : List ℕ) (sid : ℕ)
      → Indexed cavl platform hash age universe s zs
      → cy_topic_find_by_subject_id cavl platform s sid
        ≡ find_in (λ x. compare sid (subject_id_of cavl platform s x)) zs
  unfolding cy_topic_find_by_subject_id
  find_subject_id s zs sid ix =
      let f = subject_id_of cavl platform s in
      let cut : Cut (λ x. compare sid (f x)) (to_list s.topics_by_subject_id) =
        rw ix.listed (Cut-Sorted f sid zs ix.sorted) in
      find_lem (λ x. compare sid (f x)) s.topics_by_subject_id cut
      ∙ ap (find_in (λ x. compare sid (f x))) ix.listed

  -- What a gossip of a foreign topic with this hash, these evictions and this rounded age leaves.
  pub record Yielded (s : Cy cavl platform) (other_hash other_evictions : ℕ) (other_lage : ℤ)
      (zs : List ℕ) (s1 : Cy cavl platform) (zs1 : List ℕ) : Type 0 where
    pub indexed : Indexed cavl platform hash age universe s1 zs1
    pub members : (x : ℕ) → has x zs1 ≡ has x zs
    pub free :
        ((x : ℕ)
          → has x zs ≡ true
          → subject_id_of cavl platform s x ≢ topic_subject_id other_hash other_evictions)
        → s1 ≡ s
    pub stays :
        (t : ℕ)
        → has t zs ≡ true
        → subject_id_of cavl platform s t ≡ topic_subject_id other_hash other_evictions
        → left_wins (age t) (hash t) other_lage other_hash ≡ true
        → (x : ℕ) → (s1.topics x).evictions ≡ (s.topics x).evictions
    pub frame :
        (t x : ℕ)
        → has t zs ≡ true
        → subject_id_of cavl platform s t ≡ topic_subject_id other_hash other_evictions
        → x ≢ t
        → beats hash age t x ≡ false
        → (s1.topics x).evictions ≡ (s.topics x).evictions

  unused_run :
      (s : Cy cavl platform) (h e : ℕ) (lage ts : ℤ)
      → cy_topic_find_by_subject_id cavl platform s (topic_subject_id h e) ≡ none
      → on_unknown cavl platform rapidhash depth (suc rounds) s h e lage ts ≡ some s
  unfolding on_unknown
  unused_run s h e lage ts q = rw (on_unknown, q) refl

  won_run :
      (s : Cy cavl platform) (t h e : ℕ) (lage ts : ℤ)
      → cy_topic_find_by_subject_id cavl platform s (topic_subject_id h e) ≡ some t
      → left_wins (s.topics t).age (s.topics t).hash lage h ≡ true
      → on_unknown cavl platform rapidhash depth (suc rounds) s h e lage ts
        ≡ some (record (prioritize_gossip cavl platform s t 100) { ts_event = ts })
  unfolding on_unknown collide
  won_run s t h e lage ts q w = rw (on_unknown, q, collide, w) refl

  lost_run :
      (s s1 : Cy cavl platform) (t h e : ℕ) (lage ts : ℤ)
      → cy_topic_find_by_subject_id cavl platform s (topic_subject_id h e) ≡ some t
      → left_wins (s.topics t).age (s.topics t).hash lage h ≡ false
      → topic_allocate cavl platform depth
          (suc rounds)
          s
          t
          (((s.topics t).evictions + 1) % u32_mod)
          false
        ≡ some s1
      → on_unknown cavl platform rapidhash depth (suc rounds) s h e lage ts
        ≡ some (record s1 { ts_local_event = ts; ts_event = ts })
  unfolding on_unknown collide
  lost_run s s1 t h e lage ts q w run = rw (on_unknown, q, collide, w, run) refl

  -- The gossip collides with the topic t.
  module _ (g : Setting hash universe) (deep : length universe < depth)
      (room : enough_rounds cavl platform hash age universe ≤ rounds) (s : Cy cavl platform)
      (zs : List ℕ) (h e : ℕ) (lage ts : ℤ) (ix : Indexed cavl platform hash age universe s zs)
      (t : ℕ)
      (q : find_in (λ x. compare (topic_subject_id h e) (subject_id_of cavl platform s x)) zs
        ≡ some t) where
    at : (has t zs ≡ true) × (subject_id_of cavl platform s t ≡ topic_subject_id h e)
    at = find_in-some (subject_id_of cavl platform s) (topic_subject_id h e) zs q

    only :
        (u : ℕ) → has u zs ≡ true → subject_id_of cavl platform s u ≡ topic_subject_id h e → u ≡ t
    only u iu same =
        Sorted-injective (subject_id_of cavl platform s) u t zs ix.sorted iu at.0 (same ∙ sym at.1)

    found : cy_topic_find_by_subject_id cavl platform s (topic_subject_id h e) ≡ some t
    found = find_subject_id s zs (topic_subject_id h e) ix ∙ q

    local : left_wins (s.topics t).age (s.topics t).hash lage h ≡ left_wins (age t) (hash t) lage h
    local = ap₂ (λ a b. left_wins a b lage h) (ix.same_age t) (ix.same_hash t)

    abbrev Handled : Type 0
    Handled =
        (s1 : Cy cavl platform) × (zs1 : List ℕ) × (on_unknown cavl platform rapidhash depth
            (suc rounds) s h e lage ts
          ≡ some s1)
        × Yielded s h e lage zs s1 zs1

    won : left_wins (age t) (hash t) lage h ≡ true → Handled
    won w =
        let k =
          Keeps-trans cavl platform (prioritize_gossip-Keeps cavl platform s t 100)
            (ts_event-Keeps cavl platform _ ts) in
        (
          _,
          zs,
          won_run s t h e lage ts found (local ∙ w),
          record {
            indexed = Indexed-Keeps cavl platform hash age universe zs k ix;
            members = λ x. refl;
            free = λ alone. absurd (alone t at.0 at.1);
            stays = λ u iu same uw x. k.evictions x;
            frame = λ u x iu same ne b. k.evictions x;
          },
        )

    lost : left_wins (age t) (hash t) lage h ≡ false → Handled
    lost l =
        let (s1, zs1, run, m) =
          topic_allocate_total cavl platform hash age universe g depth rounds room s zs t
            (((s.topics t).evictions + 1) % u32_mod) false ix (ix.inside t at.0)
            (ground (arith, at.0)) (omega arith)
            (omega (arith, count-le-length (beats hash age t) universe)) in
        let k =
          Keeps-trans cavl platform (ts_local_event-Keeps cavl platform s1 ts)
            (ts_event-Keeps cavl platform _ ts) in
        (
          _,
          zs1,
          lost_run s s1 t h e lage ts found (local ∙ l) run,
          record {
            indexed = Indexed-Keeps cavl platform hash age universe zs1 k m.indexed;
            members = λ x. ground (arith, at.0, m.members x, ap (λ y. has y zs) {x = x} {y = t});
            free = λ alone. absurd (alone t at.0 at.1);
            stays = λ u iu same w x.
                absurd
                  (ground (arith, ap (λ y. left_wins (age y) (hash y) lage h) (only u iu same)));
            frame = λ u x iu same ne b.
                let one = only u iu same in
                k.evictions x
                ∙ m.frame x (λ r. ne (r ∙ sym one))
                    (λ i. ap (λ y. beats hash age y x) (sym one) ∙ b);
          },
        )

    taken : Handled
    taken = elim (Bool-cases (left_wins (age t) (hash t) lage h)) [ inl w ↦ won w | inr l ↦ lost l ]

  -- For at most CY_TOPIC_SUBJECT_COUNT topics with distinct hashes, the pinned ones from
  -- CY_TOPIC_SUBJECT_COUNT on, and an index by subject-ID with one topic to a subject-ID: with a
  -- depth above the number of topics and enough rounds for the allocations, a gossip of a topic that
  -- the node does not have is handled, that is, on_unknown returns. The index still holds the same
  -- topics, one to a subject-ID. Nothing changes where no topic of the index has the subject-ID of
  -- the gossip; where the topic that has it wins, no evictions change; and no topic that it does not
  -- beat is moved.
  pub on_unknown_total :
      (g : Setting hash universe)
      → length universe < depth
      → enough_rounds cavl platform hash age universe ≤ rounds
      → (s : Cy cavl platform) (zs : List ℕ) (other_hash other_evictions : ℕ) (other_lage ts : ℤ)
      → Indexed cavl platform hash age universe s zs
      → (s1 : Cy cavl platform) × (zs1 : List ℕ) × (on_unknown cavl platform rapidhash depth
            (suc rounds)
            s
            other_hash
            other_evictions
            other_lage
            ts
          ≡ some s1)
        × Yielded s other_hash other_evictions other_lage zs s1 zs1
  on_unknown_total g deep room s zs h e lage ts ix =
      elim (Option-cases
        (find_in (λ x. compare (topic_subject_id h e) (subject_id_of cavl platform s x)) zs)) [
          | inl q ↦ (
            s,
            zs,
            unused_run s h e lage ts (find_subject_id s zs (topic_subject_id h e) ix ∙ q),
            record {
              indexed = ix;
              members = λ x. refl;
              free = λ alone. refl;
              stays = λ t it same w x. refl;
              frame = λ t x it same ne b. refl;
            },
          )
          | inr (t, q) ↦ taken g deep room s zs h e lage ts ix t q
        ]
