-- ===== src/Allocation/Rounds.antt =====
-- One round of the loop of topic_allocate (cy/cy.c): a free subject-ID is taken, a weaker tenant
-- is evicted, or the topic moves on.
use cy.Prelude.{
  ℕ, suc, ◌<◌, ◌≡◌, ◌≢◌, refl, sym, ap, ap₂, ◌∙◌, true, false, Option, none, some, List, arith,
  ◌==◌,
}
use Prim.Native.Nat.{compare}
use cy.Subject.{u32_mod, topic_subject_id}
use cy.Index.{Cavl, Cut, has, find_in, insert_in}
use cy.Index.Cut.{Cut-Sorted, Sorted-congr, Sorted-insert_in, has-insert_in}
use cy.Platform.{Platform}
use cy.Node.{Cy}
use cy.Allocation.{subject_id_of, claim, wins_over, next_evictions, set_evictions, place}
use cy.Allocation.Rank.{beats}
use cy.Allocation.Setting.{Indexed, Moved}

module _ (cavl : Cavl) (platform : Platform)
    (evict : Cy cavl platform → ℕ → ℕ → Option (Cy cavl platform)) (steps : ℕ)
    (s : Cy cavl platform) (t : ℕ) where
  pub place-free :
      (claim cavl platform s t).0 ≡ t
      → place cavl platform evict (suc steps) s t
        ≡ some (record s { topics_by_subject_id = (claim cavl platform s t).1 })
  unfolding place
  place-free h =
      let e : ((claim cavl platform s t).0 == t) ≡ true = ground arith in rw (e, place) refl

  pub place-evict :
      (o : ℕ) (s1 : Cy cavl platform)
      → (claim cavl platform s t).0 ≡ o
      → o ≢ t
      → wins_over cavl platform s t o ≡ true
      → evict s o (next_evictions cavl platform s o) ≡ some s1
      → place cavl platform evict (suc steps) s t ≡ place cavl platform evict steps s1 t
  unfolding place
  place-evict o s1 h ne w e =
      let found = (claim cavl platform s t).0 in
      let miss : (found == t) ≡ false = ground arith in
      let w' : wins_over cavl platform s t found ≡ true = rw h w in
      let e' : evict s found (next_evictions cavl platform s found) ≡ some s1 = rw h e in
      rw (miss, w', e', place) refl

  pub place-lose :
      (o : ℕ)
      → (claim cavl platform s t).0 ≡ o
      → o ≢ t
      → wins_over cavl platform s t o ≡ false
      → place cavl platform evict (suc steps) s t
        ≡ place cavl platform evict steps
            (set_evictions cavl platform s t (next_evictions cavl platform s t))
            t
  unfolding place
  place-lose o h ne w =
      let found = (claim cavl platform s t).0 in
      let miss : (found == t) ≡ false = ground arith in
      let w' : wins_over cavl platform s t found ≡ false = rw h w in rw (miss, w', place) refl

module _ (cavl : Cavl) (platform : Platform) (hash age : ℕ → ℕ) (universe : List ℕ) where
  open cavl use {to_list, inserted_lem}

  pub wins_over-beats :
      (s : Cy cavl platform) (zs : List ℕ) (a b : ℕ)
      → Indexed cavl platform hash age universe s zs
      → wins_over cavl platform s a b ≡ beats hash age a b
  unfolding beats
  wins_over-beats s zs a b ix =
      rw (ix.same_hash a, ix.same_age a, ix.same_hash b, ix.same_age b) refl

  pub subject_id_same :
      (s s1 : Cy cavl platform) (zs zs1 : List ℕ) (x : ℕ)
      → Indexed cavl platform hash age universe s zs
      → Indexed cavl platform hash age universe s1 zs1
      → (s1.topics x).evictions ≡ (s.topics x).evictions
      → subject_id_of cavl platform s1 x ≡ subject_id_of cavl platform s x
  subject_id_same s s1 zs zs1 x ix ix1 e =
      ap₂ topic_subject_id (ix1.same_hash x ∙ sym (ix.same_hash x)) e

  pub subject_id_hash :
      (s : Cy cavl platform) (zs : List ℕ) (x : ℕ)
      → Indexed cavl platform hash age universe s zs
      → subject_id_of cavl platform s x ≡ topic_subject_id (hash x) (s.topics x).evictions
  subject_id_hash s zs x ix = ap (λ h. topic_subject_id h (s.topics x).evictions) (ix.same_hash x)

  -- A free subject-ID is taken.
  pub placed :
      (s : Cy cavl platform) (t : ℕ) (zs : List ℕ)
      → Indexed cavl platform hash age universe s zs
      → has t universe ≡ true
      → find_in
          (λ x. compare (subject_id_of cavl platform s t) (subject_id_of cavl platform s x))
          zs
        ≡ none
      → Moved cavl platform hash age universe s t
          (s.topics t).evictions
          zs
          (record s { topics_by_subject_id = (claim cavl platform s t).1 })
          (insert_in
            (λ x. compare (subject_id_of cavl platform s t) (subject_id_of cavl platform s x))
            t
            zs)
  placed s t zs ix it free =
      let f = subject_id_of cavl platform s in
      let cut : Cut (λ x. compare (f t) (f x)) (to_list s.topics_by_subject_id) =
        rw ix.listed (Cut-Sorted f (f t) zs ix.sorted) in
      record {
        indexed = record {
          same_hash = ix.same_hash;
          same_age = ix.same_age;
          listed =
              inserted_lem (λ x. compare (f t) (f x)) t s.topics_by_subject_id cut
              ∙ ap (insert_in (λ x. compare (f t) (f x)) t) ix.listed;
          sorted = Sorted-insert_in f t zs ix.sorted;
          word = ix.word;
          inside = λ x i. ground (arith, has-insert_in f t x zs free, ix.inside x);
        };
        members = λ x. has-insert_in f t x zs free;
        frame = λ x ne h. refl;
        bound = λ j hj h. omega arith;
      }

  pub set_evictions_ne :
      (s : Cy cavl platform) (t e x : ℕ)
      → x ≢ t
      → (set_evictions cavl platform s t e).topics x ≡ s.topics x
  unfolding set_evictions
  set_evictions_ne s t e x h = let miss : (x == t) ≡ false = ground arith in rw miss refl

  pub set_evictions_self :
      (s : Cy cavl platform) (t e : ℕ)
      → ((set_evictions cavl platform s t e).topics t).evictions ≡ e
  unfolding set_evictions
  set_evictions_self s t e = let hit : (t == t) ≡ true = ground arith in rw hit refl

  -- Moving on: the counter of a topic that is not indexed changes.
  pub set_evictions-Indexed :
      (s : Cy cavl platform) (t e : ℕ) (zs : List ℕ)
      → Indexed cavl platform hash age universe s zs
      → has t zs ≡ false
      → e < u32_mod
      → Indexed cavl platform hash age universe (set_evictions cavl platform s t e) zs
  unfolding set_evictions
  set_evictions-Indexed s t e zs ix out h = record {
    same_hash = λ x. ground (arith, ix.same_hash x);
    same_age = λ x. ground (arith, ix.same_age x);
    listed = ix.listed;
    sorted =
        Sorted-congr (subject_id_of cavl platform s)
          (subject_id_of cavl platform (set_evictions cavl platform s t e)) zs
          (λ x i. ground (arith, ap (λ y. has y zs) {x = x} {y = t})) ix.sorted;
    word = λ x. ground (arith, ix.word x);
    inside = ix.inside;
  }
