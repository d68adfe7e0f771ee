-- ===== src/Allocation/Termination.antt =====
-- topic_allocate of cy/cy.c as a whole: its recursion and its loop.
use cy.Prelude.{
  ℕ, zero, suc, ◌*◌, ◌≤◌, ◌<◌, ◌≡◌, ◌≢◌, refl, sym, ap, ap₂, ◌∙◌, Bool, true, false, not, some,
  List, arith, ◌==◌, if◌then◌else◌, length,
}
use cy.Subject.{u32_mod, topic_subject_id}
use cy.Index.{Cavl, has, remove_in}
use cy.Index.Cut.{Sorted, Sorted-congr, Sorted-remove_in, has-remove_in}
use cy.Platform.{Platform}
use cy.Node.{Cy}
use cy.Allocation.{subject_id_of, suspend, withdraw, prepare, place, announce, topic_allocate}
use cy.Allocation.Frame.{Keeps, suspend-Keeps, announce-Keeps}
use cy.Allocation.Rank.{beats, count}
use cy.Allocation.Setting.{Setting, Indexed, Moved}
use cy.Allocation.Rounds.{
  subject_id_same, set_evictions-Indexed, set_evictions_ne, set_evictions_self,
}
use cy.Allocation.Contest.{Result}
use cy.Allocation.Loop.{place_total}

module _ (cavl : Cavl) (platform : Platform) (hash age : ℕ → ℕ) (universe : List ℕ) where
  open cavl use {to_list, remove_lem}

  Keeps-sid :
      {s s1 : Cy cavl platform} (x : ℕ)
      → Keeps cavl platform s s1
      → subject_id_of cavl platform s x ≡ subject_id_of cavl platform s1 x
  Keeps-sid x k = ap₂ topic_subject_id (sym (k.hash x)) (sym (k.evictions x))

  pub Indexed-Keeps :
      {s s1 : Cy cavl platform} (zs : List ℕ)
      → Keeps cavl platform s s1
      → Indexed cavl platform hash age universe s zs
      → Indexed cavl platform hash age universe s1 zs
  Indexed-Keeps {s} {s1} zs k ix = record {
    same_hash = λ x. k.hash x ∙ ix.same_hash x;
    same_age = λ x. k.age x ∙ ix.same_age x;
    listed = ap to_list k.index ∙ ix.listed;
    sorted =
        Sorted-congr (subject_id_of cavl platform s) (subject_id_of cavl platform s1) zs
          (λ x i. Keeps-sid x k) ix.sorted;
    word = λ x. omega (arith, k.evictions x, ix.word x);
    inside = ix.inside;
  }

  -- Which topics are left in the index while t is moved.
  abbrev pub others : Bool → ℕ → List ℕ → List ℕ
  others virgin t zs = if virgin then zs else remove_in t zs

  withdraw-Indexed :
      (virgin : Bool) (s : Cy cavl platform) (t : ℕ) (zs : List ℕ)
      → virgin ≡ not (has t zs)
      → Indexed cavl platform hash age universe s zs
      → Indexed cavl platform hash age universe
          (withdraw cavl platform virgin s t)
          (others virgin t zs)
  unfolding withdraw
  withdraw-Indexed true s t zs h ix = ix
  withdraw-Indexed false s t zs h ix =
      let f = subject_id_of cavl platform s in
      let there : has t zs ≡ true = ground arith in
      let there' : has t (to_list s.topics_by_subject_id) ≡ true = rw ix.listed there in
      record {
        same_hash = ix.same_hash;
        same_age = ix.same_age;
        listed = remove_lem t s.topics_by_subject_id there' ∙ ap (remove_in t) ix.listed;
        sorted = Sorted-remove_in f t zs ix.sorted;
        word = ix.word;
        inside = λ x i. ix.inside x (ground (arith, has-remove_in f x t zs ix.sorted));
      }

  withdraw_topics :
      (virgin : Bool) (s : Cy cavl platform) (t x : ℕ)
      → (withdraw cavl platform virgin s t).topics x ≡ s.topics x
  unfolding withdraw
  withdraw_topics true s t x = refl
  withdraw_topics false s t x = refl

  pub has-others :
      (virgin : Bool) (f : ℕ → ℕ) (t x : ℕ) (zs : List ℕ)
      → virgin ≡ not (has t zs)
      → Sorted f zs
      → has x (others virgin t zs) ≡ (if x == t then false else has x zs)
  has-others true f t x zs h s = ground (arith, ap (λ y. has y zs) {x = x} {y = t})
  has-others false f t x zs h s = has-remove_in f x t zs s

  module _ (s : Cy cavl platform) (t e : ℕ) (virgin : Bool) (zs : List ℕ)
      (h : virgin ≡ not (has t zs)) (small : e < u32_mod)
      (ix : Indexed cavl platform hash age universe s zs) where
    suspended_Indexed :
        Indexed cavl platform hash age universe
          (withdraw cavl platform virgin (suspend cavl platform s t) t)
          (others virgin t zs)
    suspended_Indexed =
        withdraw-Indexed virgin (suspend cavl platform s t) t zs h
          (Indexed-Keeps zs (suspend-Keeps cavl platform s t) ix)

    pub away : has t (others virgin t zs) ≡ false
    away = ground (arith, has-others virgin (subject_id_of cavl platform s) t t zs h ix.sorted)

    pub prepare-Indexed :
        Indexed cavl platform hash age universe
          (prepare cavl platform s t e virgin)
          (others virgin t zs)
    prepare-Indexed =
        set_evictions-Indexed cavl platform hash age universe
          (withdraw cavl platform virgin (suspend cavl platform s t) t) t e (others virgin t zs)
          suspended_Indexed away small

    pub prepare_ne :
        (x : ℕ)
        → x ≢ t
        → ((prepare cavl platform s t e virgin).topics x).evictions ≡ (s.topics x).evictions
    prepare_ne x ne =
        let k = suspend-Keeps cavl platform s t in
        ap (λ v. v.evictions)
          (set_evictions_ne cavl platform hash age universe
              (withdraw cavl platform virgin (suspend cavl platform s t) t) t e x ne
            ∙ withdraw_topics virgin (suspend cavl platform s t) t x)
        ∙ k.evictions x

    -- From the loop's view back to that of the caller.
    Moved-prepare :
        (s1 : Cy cavl platform) (zs1 : List ℕ)
        → Moved cavl platform hash age universe
            (prepare cavl platform s t e virgin)
            t
            ((prepare cavl platform s t e virgin).topics t).evictions
            (others virgin t zs)
            s1
            zs1
        → Moved cavl platform hash age universe s t e zs s1 zs1
    Moved-prepare s1 zs1 m =
        let f = subject_id_of cavl platform s in
        let p = prepare cavl platform s t e virgin in
        let member = λ (x : ℕ). has-others virgin f t x zs h ix.sorted in
        record {
          indexed = m.indexed;
          members = λ x. ground (arith, m.members x, member x);
          frame = λ x ne q. m.frame x ne (λ i. q (ground (arith, member x))) ∙ prepare_ne x ne;
          bound = λ j hj q. omega (
            arith,
            m.bound j hj (λ x i b w. q x (ground (arith, member x)) b (
                sym (
                  subject_id_same cavl platform hash age universe s p zs (others virgin t zs) x ix
                    prepare-Indexed (prepare_ne x (λ r. ground (arith, member x))))
                ∙ w)),
            set_evictions_self cavl platform hash age universe
                (withdraw cavl platform virgin (suspend cavl platform s t) t) t e,
          );
        }

  -- The tail of topic_allocate changes nothing of this.
  Moved-Keeps :
      {s s1 s2 : Cy cavl platform} (t e : ℕ) (zs zs1 : List ℕ)
      → Moved cavl platform hash age universe s t e zs s1 zs1
      → Keeps cavl platform s1 s2
      → Moved cavl platform hash age universe s t e zs s2 zs1
  Moved-Keeps t e zs zs1 m k = record {
    indexed = Indexed-Keeps zs1 k m.indexed;
    members = m.members;
    frame = λ x ne h. k.evictions x ∙ m.frame x ne h;
    bound = λ j hj q. omega (arith, m.bound j hj q, k.evictions t);
  }

  -- The rounds that each loop of topic_allocate is given.
  abbrev pub enough_rounds : ℕ
  enough_rounds = suc (suc (length universe)) * u32_mod

  allocate_run :
      (depth steps : ℕ) (s s1 : Cy cavl platform) (t e : ℕ) (virgin : Bool)
      → place cavl platform
          (λ s' o e'. topic_allocate cavl platform depth steps s' o e' false)
          steps
          (prepare cavl platform s t e virgin)
          t
        ≡ some s1
      → topic_allocate cavl platform (suc depth) steps s t e virgin
        ≡ some (announce cavl platform s1 t)
  unfolding topic_allocate
  allocate_run depth steps s s1 t e virgin run = rw (run, topic_allocate) refl

  -- For at most CY_TOPIC_SUBJECT_COUNT topics with distinct hashes, the pinned ones from
  -- CY_TOPIC_SUBJECT_COUNT on, and an index by subject-ID with one topic to a subject-ID: whatever
  -- the eviction counters are, and also where they wrap, with one level of recursion for
  -- each topic and enough rounds for each loop, the allocation of a topic returns, with an index
  -- that holds this topic and all earlier ones, no two of them at one subject-ID. Every topic keeps
  -- its hash and its age, and those that the allocated one does not beat keep their subject-IDs.
  pub topic_allocate_total :
      (g : Setting hash universe) (depth rounds : ℕ)
      → enough_rounds ≤ rounds
      → (s : Cy cavl platform) (zs : List ℕ) (t e : ℕ) (virgin : Bool)
      → Indexed cavl platform hash age universe s zs
      → has t universe ≡ true
      → virgin ≡ not (has t zs)
      → e < u32_mod
      → count (beats hash age t) universe < depth
      → Result cavl platform hash age universe g
          (topic_allocate cavl platform depth (suc rounds) s t e virgin)
          s
          t
          e
          zs
  topic_allocate_total g zero rounds room s zs t e virgin ix it h small deep = absurd (omega arith)
  topic_allocate_total g (suc depth) rounds room s zs t e virgin ix it h small deep =
      let ev =
        λ (s' : Cy cavl platform) (zs' : List ℕ) (o e' : ℕ)
            (ix' : Indexed cavl platform hash age universe s' zs') (io : has o zs' ≡ true)
            (small' : e' < u32_mod) (deep' : count (beats hash age o) universe < depth).
          topic_allocate_total g depth rounds room s' zs' o e' false ix' (ix'.inside o io)
            (ground arith) small' deep' in
      let (s1, zs1, run, m) =
        place_total cavl platform hash age universe g
          (λ s' o e'. topic_allocate cavl platform depth (suc rounds) s' o e' false) depth ev rounds
          (prepare cavl platform s t e virgin) t (others virgin t zs)
          (prepare-Indexed s t e virgin zs h small ix) it (away s t e virgin zs h small ix)
          (omega arith) (omega arith) in
      (
        announce cavl platform s1 t,
        zs1,
        allocate_run depth (suc rounds) s s1 t e virgin run,
        Moved-Keeps t e zs zs1 (Moved-prepare s t e virgin zs h small ix s1 zs1 m)
            (announce-Keeps cavl platform s1 t),
      )
