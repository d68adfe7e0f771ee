-- ===== src/Allocation/Evicted.antt =====
-- The node behind an eviction within topic_allocate (cy/cy.c): t has sent the tenant o away.
use cy.Prelude.{ℕ, ◌≡◌, ◌≢◌, sym, ap, ◌∙◌, ◌⊎◌, inl, inr, true, false, List, arith, Bool-cases}
use cy.Index.{Cavl, has}
use cy.Platform.{Platform}
use cy.Node.{Cy}
use cy.Allocation.{subject_id_of}
use cy.Allocation.Rank.{beats, beats_trans, beats_irrefl}
use cy.Allocation.Setting.{Indexed, Target, Moved}
use cy.Allocation.Rounds.{subject_id_same}

module _ (cavl : Cavl) (platform : Platform) (hash age : ℕ → ℕ) (universe : List ℕ) where
  -- x beats y, and y is o or beats it: then x is not o, and o does not beat x.
  pub not_beaten :
      (x y o : ℕ)
      → beats hash age x y ≡ true
      → (y ≡ o) ⊎ (beats hash age y o ≡ true)
      → (x ≢ o) × (beats hash age o x ≡ false)
  not_beaten x y o h (inl same) =
      let h' : beats hash age x o ≡ true = sym (ap (beats hash age x) same) ∙ h in
      (
        λ e. ground (arith, ap (λ z. beats hash age z o) e, beats_irrefl hash age o),
        elim (Bool-cases (beats hash age o x)) [
          | inl back ↦
              absurd (ground (arith, beats_trans hash age o x o back h', beats_irrefl hash age o))
          | inr fine ↦ fine
        ],
      )
  not_beaten x y o h (inr more) =
      let h' = beats_trans hash age x y o h more in
      (
        λ e. ground (arith, ap (λ z. beats hash age z o) e, beats_irrefl hash age o),
        elim (Bool-cases (beats hash age o x)) [
          | inl back ↦
              absurd (ground (arith, beats_trans hash age o x o back h', beats_irrefl hash age o))
          | inr fine ↦ fine
        ],
      )

  module _ (s s1 : Cy cavl platform) (t o e : ℕ) (zs zs1 : List ℕ)
      (ix : Indexed cavl platform hash age universe s zs)
      (m : Moved cavl platform hash age universe s o e zs s1 zs1) (out : has t zs ≡ false)
      (io : has o zs ≡ true) (b : beats hash age t o ≡ true) where
    pub ne_tenant : t ≢ o
    ne_tenant h = ground (arith, ap (λ y. has y zs) h)

    pub evicted_members : (x : ℕ) → has x zs1 ≡ has x zs
    evicted_members x = ground (arith, m.members x, ap (λ y. has y zs) {x = x} {y = o})

    pub evicted_out : has t zs1 ≡ false
    evicted_out = evicted_members t ∙ out

    pub evicted_t : (s1.topics t).evictions ≡ (s.topics t).evictions
    evicted_t = m.frame t ne_tenant (λ i. absurd (ground arith))

    pub evicted_sid_t : subject_id_of cavl platform s1 t ≡ subject_id_of cavl platform s t
    evicted_sid_t =
        subject_id_same cavl platform hash age universe s s1 zs zs1 t ix m.indexed evicted_t

    -- Those that o does not beat keep their subject-IDs.
    pub stays :
        (x : ℕ)
        → x ≢ o
        → beats hash age o x ≡ false
        → (s1.topics x).evictions ≡ (s.topics x).evictions
    stays x ne h = m.frame x ne (λ _. h)

    pub stays_sid :
        (x : ℕ)
        → x ≢ o
        → beats hash age o x ≡ false
        → subject_id_of cavl platform s1 x ≡ subject_id_of cavl platform s x
    stays_sid x ne h =
        subject_id_same cavl platform hash age universe s s1 zs zs1 x ix m.indexed (stays x ne h)

    -- A target of o, or of a topic that beats o, is one afterwards.
    pub Target-stays :
        (y j : ℕ)
        → (y ≡ o) ⊎ (beats hash age y o ≡ true)
        → Target cavl platform hash age universe s y zs j
        → Target cavl platform hash age universe s1 y zs1 j
    Target-stays y j r h x i bx q =
        let (ne, fine) = not_beaten x y o bx r in
        h x (sym (evicted_members x) ∙ i) bx (sym (stays_sid x ne fine) ∙ q)

    -- What t does next from there, seen from before the eviction.
    pub Moved-trans :
        (s2 : Cy cavl platform) (zs2 : List ℕ)
        → Moved cavl platform hash age universe s1 t (s1.topics t).evictions zs1 s2 zs2
        → Moved cavl platform hash age universe s t (s.topics t).evictions zs s2 zs2
    Moved-trans s2 zs2 n = record {
      indexed = n.indexed;
      members = λ x. ground (arith, n.members x, evicted_members x);
      frame = λ x ne h.
          let apart : x ≢ o =
            λ q. ground (arith, b, h (ap (λ y. has y zs) q ∙ io), ap (beats hash age t) q) in
          let first : has x zs ≡ true → beats hash age o x ≡ false = λ i.
            elim (Bool-cases (beats hash age o x)) [
              | inl back ↦ absurd (ground (arith, h i, beats_trans hash age t o x b back))
              | inr fine ↦ fine
            ] in
          n.frame x ne (λ i. h (sym (evicted_members x) ∙ i)) ∙ m.frame x apart first;
      bound = λ j hj q. omega (arith, n.bound j hj (Target-stays t j (inr b) q), evicted_t);
    }
