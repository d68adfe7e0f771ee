-- ===== src/Allocation/Squatters.antt =====
-- The rounds of topic_allocate (cy/cy.c) that evict weaker tenants, one after the other.
use cy.Prelude.{
  ℕ, suc, ◌<◌, ◌≡◌, ◌≢◌, refl, sym, ap, ◌∙◌, inl, inr, true, false, List, arith, ◌==◌, ==_iff,
  subst, Bool-cases,
}
use cy.Subject.{u32_mod, topic_subject_id}
use cy.Index.{Cavl, has}
use cy.Index.Cut.{Sorted-injective}
use cy.Platform.{Platform}
use cy.Node.{Cy}
use cy.Allocation.{subject_id_of, next_evictions}
use cy.Allocation.Rank.{beats, beats_trans, beats_irrefl, count, count_lt, dist, dist_step}
use cy.Allocation.Setting.{Setting, Moved}
use cy.Allocation.Rounds.{subject_id_hash}
use cy.Allocation.Evicted.{evicted_members, evicted_out, evicted_sid_t, stays_sid, Target-stays}
use cy.Allocation.Contest.{Ix, sid, Squatter, newcomer}

module _ (cavl : Cavl) (platform : Platform) (hash age : ℕ → ℕ) (universe : List ℕ)
    (g : Setting hash universe) where
  -- A tenant that t evicts has not reached its target, so it has a round less behind it.
  pub short_of :
      (s : Cy cavl platform) (t o : ℕ) (zs : List ℕ) (j : ℕ)
      → Ix cavl platform hash age universe g s zs
      → sid cavl platform hash age universe g s o ≡ sid cavl platform hash age universe g s t
      → topic_subject_id (hash o) j ≢ sid cavl platform hash age universe g s t
      → j < u32_mod
      → suc (dist j (next_evictions cavl platform s o)) ≡ dist j (s.topics o).evictions
  short_of s t o zs j ix at apart small = dist_step j (s.topics o).evictions small (ix.word o) (λ e.
      apart (
        sym (ap (topic_subject_id (hash o)) e)
        ∙ sym (subject_id_hash cavl platform hash age universe s zs o ix)
        ∙ at))

  module _ (s s1 : Cy cavl platform) (t o : ℕ) (zs zs1 : List ℕ) (rounds : ℕ)
      (ix : Ix cavl platform hash age universe g s zs) (it : has t universe ≡ true)
      (out : has t zs ≡ false) (io : has o zs ≡ true)
      (at : sid cavl platform hash age universe g s o ≡ sid cavl platform hash age universe g s t)
      (sq : Squatter cavl platform hash age universe g s t zs (suc rounds) o)
      (m : Moved cavl platform hash age universe s o
        (next_evictions cavl platform s o)
        zs
        s1
        zs1) where
    same_sid :
        sid cavl platform hash age universe g s1 t ≡ sid cavl platform hash age universe g s t
    same_sid =
        evicted_sid_t cavl platform hash age universe s s1 t o (next_evictions cavl platform s o) zs
          zs1 ix m out io sq.0

    -- The evicted topic may be back, closer to its target.
    Squatter-back : Squatter cavl platform hash age universe g s1 t zs1 rounds o
    Squatter-back =
        let (b, j, small, tgt, apart, less) = sq in
        (
          b,
          j,
          small,
          Target-stays cavl platform hash age universe s s1 t o (next_evictions cavl platform s o)
              zs zs1 ix m out io b o j (inl refl) tgt,
          λ q. apart (q ∙ same_sid),
          omega (arith, m.bound j small tgt, short_of s t o zs j ix at apart small),
        )

    -- Anyone else who is there now was sent there by o.
    squatter_beaten :
        (w : ℕ)
        → w ≢ o
        → has w zs1 ≡ true
        → sid cavl platform hash age universe g s1 w ≡ sid cavl platform hash age universe g s1 t
        → beats hash age o w ≡ true
    squatter_beaten w ne iw aw = elim (Bool-cases (beats hash age o w)) [
      | inl yes' ↦ yes'
      | inr stay ↦
          let still =
            stays_sid cavl platform hash age universe s s1 t o (next_evictions cavl platform s o) zs
              zs1 ix m out io sq.0 w ne stay in
          let there =
            sym (
              evicted_members cavl platform hash age universe s s1 t o
                (next_evictions cavl platform s o) zs zs1 ix m out io sq.0 w)
            ∙ iw in
          absurd (
            ne (
              Sorted-injective (subject_id_of cavl platform s) w o zs ix.sorted there io
                (sym still ∙ aw ∙ same_sid ∙ sym at)))
    ]

    Squatter-fresh :
        (w : ℕ)
        → w ≢ o
        → has w zs1 ≡ true
        → sid cavl platform hash age universe g s1 w ≡ sid cavl platform hash age universe g s1 t
        → Squatter cavl platform hash age universe g s1 t zs1 rounds w
    Squatter-fresh w ne iw aw =
        let (b, j, small, tgt, apart, less) = sq in
        let bo = squatter_beaten w ne iw aw in
        let fewer =
          count_lt (beats hash age w) (beats hash age o) universe w
            (λ x h. beats_trans hash age o w x bo h) (m.indexed.inside w iw)
            (beats_irrefl hash age w) bo in
        let gone =
          evicted_out cavl platform hash age universe s s1 t o (next_evictions cavl platform s o) zs
            zs1 ix m out io b in
        let (bw, j', small', tgt', apart', less') =
          newcomer cavl platform hash age universe g s1 t w zs1 (count (beats hash age o) universe)
            m.indexed it gone iw aw (beats_trans hash age t o w b bo) fewer in
        (
          bw,
          j',
          small',
          tgt',
          apart',
          omega (arith, less, less', short_of s t o zs j ix at apart small),
        )

    -- Whoever sits on t's subject-ID now is a squatter with fewer rounds left.
    pub Squatter-next :
        (w : ℕ)
        → has w zs1 ≡ true
        → sid cavl platform hash age universe g s1 w ≡ sid cavl platform hash age universe g s1 t
        → Squatter cavl platform hash age universe g s1 t zs1 rounds w
    Squatter-next w iw aw = elim (Bool-cases (w == o)) [
      | inl back ↦
          subst (Squatter cavl platform hash age universe g s1 t zs1 rounds)
            (sym ((==_iff w o).0 back)) Squatter-back
      | inr fresh ↦ Squatter-fresh w (ground arith) iw aw
    ]
