-- ===== src/Allocation/Setting.antt =====
-- The facts on which the termination of topic_allocate (cy/cy.c) rests, as states of the node.
use cy.Prelude.{
  ℕ, ◌≤◌, ◌<◌, ◌≡◌, ◌≢◌, refl, ap, ◌∙◌, ◌⊎◌, inl, inr, true, false, ◌||◌, none, List, arith, ◌==◌,
  Option-cases, length, length-map, map,
}
use Prim.Native.Nat.{compare}
use cy.Subject.{topic_subject_count, total_subject_count, u32_mod, u64_mod, topic_subject_id}
use cy.Subject.Range.{evictions_for, topic_subject_id-evictions_for}
use cy.Index.{Cavl, Cut, has, find_in, remove_in}
use cy.Index.Cut.{Sorted, Cut-Sorted, find_in-some, length-remove_in}
use cy.Platform.{Platform}
use cy.Node.{Cy}
use cy.Allocation.{subject_id_of, claim}
use cy.Allocation.Rank.{beats, free_number, has-map, has-remove_in_ne, dist}

-- The topics of the node: at most as many as there are subject-IDs to allocate, with distinct
-- hashes, and pinned ones only above the allocated range.
pub record Setting (hash : ℕ → ℕ) (universe : List ℕ) : Type 0 where
  pub wide : (x : ℕ) → hash x < u64_mod
  pub distinct : (x y : ℕ) → has x universe ≡ true → has y universe ≡ true → hash x ≡ hash y → x ≡ y
  pub reserved :
      (x : ℕ) → has x universe ≡ true → hash x < total_subject_count → topic_subject_count ≤ hash x
  pub enough : length universe ≤ topic_subject_count

module _ (cavl : Cavl) (platform : Platform) (hash age : ℕ → ℕ) (universe : List ℕ) where
  open cavl use {to_list, found_lem, inserted_lem}

  -- The index by subject-ID holds the topics zs, one to a subject-ID.
  pub record Indexed (s : Cy cavl platform) (zs : List ℕ) : Type 0 where
    pub same_hash : (x : ℕ) → (s.topics x).hash ≡ hash x
    pub same_age : (x : ℕ) → (s.topics x).age ≡ age x
    pub listed : to_list s.topics_by_subject_id ≡ zs
    pub sorted : Sorted (subject_id_of cavl platform s) zs
    pub word : (x : ℕ) → (s.topics x).evictions < u32_mod
    pub inside : (x : ℕ) → has x zs ≡ true → has x universe ≡ true

  -- No topic of zs that beats t sits where t would with j evictions.
  abbrev pub Target : Cy cavl platform → ℕ → List ℕ → ℕ → Type 0
  Target s t zs j =
      (x : ℕ)
      → has x zs ≡ true
      → beats hash age x t ≡ true
      → subject_id_of cavl platform s x ≢ topic_subject_id (hash t) j

  -- What an allocation of t with e evictions does to the topics zs: all of them and t are
  -- indexed; those that t does not beat stay; and t goes no further than to its first target.
  pub record Moved (s : Cy cavl platform) (t e : ℕ) (zs : List ℕ) (s1 : Cy cavl platform)
      (zs1 : List ℕ) : Type 0 where
    pub indexed : Indexed s1 zs1
    pub members : (x : ℕ) → has x zs1 ≡ (x == t || has x zs)
    pub frame :
        (x : ℕ)
        → x ≢ t
        → (has x zs ≡ true → beats hash age t x ≡ false)
        → (s1.topics x).evictions ≡ (s.topics x).evictions
    pub bound : (j : ℕ) → j < u32_mod → Target s t zs j → dist j (s1.topics t).evictions ≤ dist j e

  -- What the claim of a subject-ID finds.
  abbrev pub Claimed : Cy cavl platform → ℕ → List ℕ → Type 0
  Claimed s t zs =
      ((find_in (λ x. compare (subject_id_of cavl platform s t) (subject_id_of cavl platform s x))
            zs
          ≡ none)
        × ((claim cavl platform s t).0 ≡ t))
      ⊎ ((o : ℕ) × ((claim cavl platform s t).0 ≡ o)
          × (has o zs ≡ true)
          × (subject_id_of cavl platform s o ≡ subject_id_of cavl platform s t))

  pub claim-Claimed : (s : Cy cavl platform) (t : ℕ) (zs : List ℕ) → Indexed s zs → Claimed s t zs
  claim-Claimed s t zs ix =
      let f = subject_id_of cavl platform s in
      let cut : Cut (λ x. compare (f t) (f x)) (to_list s.topics_by_subject_id) =
        rw ix.listed (Cut-Sorted f (f t) zs ix.sorted) in
      let claimed = found_lem (λ x. compare (f t) (f x)) t s.topics_by_subject_id cut in
      elim (Option-cases (find_in (λ x. compare (f t) (f x)) zs)) [
        | inl e ↦ inl (e, claimed ∙ rw (ix.listed, e) refl)
        | inr (o, e) ↦
            let (i, at) = find_in-some f (f t) zs e in
            inr (o, claimed ∙ rw (ix.listed, e) refl, i, at)
      ]

  module _ (g : Setting hash universe) where
    -- A topic that is not pinned has a target, within the 32 bits of the counter.
    pub target :
        (s : Cy cavl platform) (t o : ℕ) (zs : List ℕ)
        → Indexed s zs
        → has t universe ≡ true
        → has t zs ≡ false
        → total_subject_count ≤ hash o
        → (j : ℕ) × (j < u32_mod)
          × (topic_subject_id (hash o) j < topic_subject_count)
          × ((x : ℕ)
              → has x zs ≡ true
              → subject_id_of cavl platform s x ≢ topic_subject_id (hash o) j)
    target s t o zs ix it out free =
        let f = subject_id_of cavl platform s in
        let others = remove_in t universe in
        let room : length (map f others) < topic_subject_count =
          omega (arith, length-map others f, length-remove_in t universe it, g.enough) in
        let (r, below, unused) = free_number topic_subject_count (map f others) room in
        let (at, small) = topic_subject_id-evictions_for (hash o) r free (g.wide o) below in
        (
          evictions_for (hash o) r,
          omega arith,
          omega arith,
          λ x i e.
              let there : has (f x) (map f others) ≡ true = has-map f x others (
                has-remove_in_ne x t universe (λ same. ground (arith, ap (λ y. has y zs) same))
                ∙ ix.inside x i) in
              let here : f x ≡ r = e ∙ at in ground (arith, ap (λ y. has y (map f others)) here),
        )
