-- ===== src/Allocation/Contest.antt =====
-- The rounds of topic_allocate (cy/cy.c) in which weaker tenants are evicted.
use cy.Prelude.{
  ℕ, ◌+◌, ◌*◌, ◌≤◌, ◌<◌, ◌≡◌, ◌≢◌, sym, ap, ◌∙◌, true, false, Option, some, List, arith,
}
use cy.Subject.{total_subject_count, u32_mod, topic_subject_id}
use cy.Subject.Range.{topic_subject_id_range}
use cy.Index.{Cavl, has}
use cy.Platform.{Platform}
use cy.Node.{Cy}
use cy.Allocation.{subject_id_of}
use cy.Allocation.Rank.{beats, count, dist}
use cy.Allocation.Setting.{Setting, Indexed, Target, Moved, target}
use cy.Allocation.Rounds.{subject_id_hash}

module _ (cavl : Cavl) (platform : Platform) (hash age : ℕ → ℕ) (universe : List ℕ)
    (g : Setting hash universe) where
  abbrev pub Ix : Cy cavl platform → List ℕ → Type 0
  Ix = Indexed cavl platform hash age universe

  abbrev pub sid : Cy cavl platform → ℕ → ℕ
  sid = subject_id_of cavl platform

  abbrev pub Result : Option (Cy cavl platform) → Cy cavl platform → ℕ → ℕ → List ℕ → Type 0
  Result r s t e zs =
      (s1 : Cy cavl platform) × (zs1 : List ℕ) × (r ≡ some s1)
      × Moved cavl platform hash age universe s t e zs s1 zs1

  -- Two topics that meet on a subject-ID are not pinned.
  pub meet :
      (s : Cy cavl platform) (zs : List ℕ) (a b : ℕ)
      → Ix s zs
      → has a universe ≡ true
      → has b universe ≡ true
      → a ≢ b
      → sid s a ≡ sid s b
      → (total_subject_count ≤ hash a) × (total_subject_count ≤ hash b)
  meet s zs a b ix ia ib ne e =
      let e' =
        sym (subject_id_hash cavl platform hash age universe s zs a ix)
        ∙ e
        ∙ subject_id_hash cavl platform hash age universe s zs b ix in
      let far : hash a ≢ hash b = λ h. ne (g.distinct a b ia ib h) in
      ground (
        arith,
        e',
        topic_subject_id_range (hash a) (s.topics a).evictions,
        topic_subject_id_range (hash b) (s.topics b).evictions,
        g.reserved a ia,
        g.reserved b ib,
      )

  -- A tenant of t's subject-ID that t will evict, and how many more rounds this can take.
  abbrev pub Squatter : Cy cavl platform → ℕ → List ℕ → ℕ → ℕ → Type 0
  Squatter s t zs rounds w =
      (beats hash age t w ≡ true)
      × (j : ℕ) × (j < u32_mod)
      × Target cavl platform hash age universe s w zs j
      × (topic_subject_id (hash w) j ≢ sid s t)
      × (count (beats hash age w) universe * u32_mod + dist j (s.topics w).evictions < rounds)

  -- A new tenant, by the target that every topic has.
  pub newcomer :
      (s : Cy cavl platform) (t w : ℕ) (zs : List ℕ) (c : ℕ)
      → Ix s zs
      → has t universe ≡ true
      → has t zs ≡ false
      → has w zs ≡ true
      → sid s w ≡ sid s t
      → beats hash age t w ≡ true
      → count (beats hash age w) universe < c
      → Squatter s t zs (c * u32_mod) w
  newcomer s t w zs c ix it out iw e b less =
      let ne : w ≢ t = λ h. ground (arith, ap (λ y. has y zs) h) in
      let (free, _) = meet s zs w t ix (ix.inside w iw) it ne e in
      let (j, small, _, avoids) =
        target cavl platform hash age universe g s t w zs ix it out free in
      (b, j, small, λ x i _. avoids x i, λ h. avoids w iw (e ∙ sym h), omega arith)
