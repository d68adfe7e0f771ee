-- ===== src/Allocation/Loop.antt =====
-- The loop of topic_allocate (cy/cy.c).
use cy.Prelude.{
  ℕ, zero, suc, ◌+◌, ◌*◌, ◌≤◌, ◌<◌, ◌≡◌, ◌≢◌, sym, ap, ◌∙◌, inl, inr, true, false, not, Option,
  List, arith, Bool-cases, length,
}
use cy.Subject.{u32_mod, topic_subject_id}
use cy.Index.{Cavl, has}
use cy.Index.Cut.{Sorted-injective}
use cy.Platform.{Platform}
use cy.Node.{Cy}
use cy.Allocation.{subject_id_of, next_evictions, set_evictions, place}
use cy.Allocation.Rank.{
  beats, beats_trans, beats_irrefl, beats-not, count, count_lt, count-le-length, dist, dist_step,
}
use cy.Allocation.Setting.{Setting, Target, Moved, claim-Claimed, target}
use cy.Allocation.Rounds.{
  place-free, place-evict, place-lose, wins_over-beats, subject_id_hash, placed,
  set_evictions-Indexed, set_evictions_ne, set_evictions_self,
}
use cy.Allocation.Evicted.{evicted_out, Moved-trans}
use cy.Allocation.Contest.{Ix, sid, Result, meet, Squatter, newcomer}
use cy.Allocation.Squatters.{short_of, Squatter-next}

module _ (cavl : Cavl) (platform : Platform) (hash age : ℕ → ℕ) (universe : List ℕ)
    (g : Setting hash universe) (evict : Cy cavl platform → ℕ → ℕ → Option (Cy cavl platform))
    (depth : ℕ) where
  -- What the recursive call does, to topics that beat fewer than `depth` others.
  abbrev pub Evicts : Type 0
  Evicts =
      (s : Cy cavl platform) (zs : List ℕ) (o e : ℕ)
      → Ix cavl platform hash age universe g s zs
      → has o zs ≡ true
      → e < u32_mod
      → count (beats hash age o) universe < depth
      → Result cavl platform hash age universe g (evict s o e) s o e zs

  fewer :
      (t o : ℕ)
      → beats hash age t o ≡ true
      → has o universe ≡ true
      → count (beats hash age o) universe < count (beats hash age t) universe
  fewer t o b io =
      count_lt (beats hash age o) (beats hash age t) universe o
        (λ x h. beats_trans hash age t o x b h) io (beats_irrefl hash age o) b

  -- With weaker tenants only.
  place_squatters :
      Evicts
      → (rounds : ℕ) (s : Cy cavl platform) (t : ℕ) (zs : List ℕ)
      → Ix cavl platform hash age universe g s zs
      → has t universe ≡ true
      → has t zs ≡ false
      → count (beats hash age t) universe ≤ depth
      → 0 < rounds
      → ((w : ℕ)
          → has w zs ≡ true
          → sid cavl platform hash age universe g s w ≡ sid cavl platform hash age universe g s t
          → Squatter cavl platform hash age universe g s t zs rounds w)
      → Result cavl platform hash age universe g
          (place cavl platform evict rounds s t)
          s
          t
          (s.topics t).evictions
          zs
  place_squatters ev zero s t zs ix it out deep any squat = absurd (omega arith)
  place_squatters ev (suc rounds) s t zs ix it out deep any squat =
      elim (claim-Claimed cavl platform hash age universe s t zs ix) [
        | inl (free, same) ↦ (
          _,
          _,
          place-free cavl platform evict rounds s t same,
          placed cavl platform hash age universe s t zs ix it free,
        )
        | inr (o, found, io, at) ↦
            let sq = squat o io at in
            let (b, j, small, tgt, apart, less) = sq in
            let (s1, zs1, run, m) =
              ev s zs o (next_evictions cavl platform s o) ix io (omega arith)
                (omega (arith, fewer t o b (ix.inside o io), deep)) in
            let gone =
              evicted_out cavl platform hash age universe s s1 t o
                (next_evictions cavl platform s o) zs zs1 ix m out io b in
            let left : 0 < rounds = omega (
              arith,
              less,
              short_of cavl platform hash age universe g s t o zs j ix at apart small,
            ) in
            let (s2, zs2, run2, m2) =
              place_squatters ev rounds s1 t zs1 m.indexed it gone deep left (
                Squatter-next cavl platform hash age universe g s s1 t o zs zs1 rounds ix it out io
                  at sq m) in
            let wins = wins_over-beats cavl platform hash age universe s zs t o ix ∙ b in
            (
              s2,
              zs2,
              place-evict cavl platform evict rounds s t o s1 found
                    (λ e. ground (arith, ap (λ y. has y zs) e)) wins run
                  ∙ run2,
              Moved-trans cavl platform hash age universe s s1 t o
                  (next_evictions cavl platform s o) zs zs1 ix m out io b s2 zs2 m2,
            )
      ]

  -- A topic out of the index may change its counter.
  module _ (s : Cy cavl platform) (t e : ℕ) (zs : List ℕ) (out : has t zs ≡ false) where
    apart_from : (x : ℕ) → has x zs ≡ true → x ≢ t
    apart_from x i h = ground (arith, ap (λ y. has y zs) h)

    Target-moves :
        (j : ℕ)
        → Target cavl platform hash age universe s t zs j
        → Target cavl platform hash age universe (set_evictions cavl platform s t e) t zs j
    Target-moves j h x i b q =
        let same = set_evictions_ne cavl platform hash age universe s t e x (apart_from x i) in
        h x i b (sym (ap (λ v. topic_subject_id v.hash v.evictions) same) ∙ q)

    Moved-moves :
        (s2 : Cy cavl platform) (zs2 : List ℕ)
        → ((j : ℕ)
            → j < u32_mod
            → Target cavl platform hash age universe s t zs j
            → dist j e ≤ dist j (s.topics t).evictions)
        → Moved cavl platform hash age universe
            (set_evictions cavl platform s t e)
            t
            ((set_evictions cavl platform s t e).topics t).evictions
            zs
            s2
            zs2
        → Moved cavl platform hash age universe s t (s.topics t).evictions zs s2 zs2
    Moved-moves s2 zs2 closer m = record {
      indexed = m.indexed;
      members = m.members;
      frame = λ x ne h.
          m.frame x ne h
          ∙ ap (λ v. v.evictions) (set_evictions_ne cavl platform hash age universe s t e x ne);
      bound = λ j hj h. omega (
        arith,
        m.bound j hj (Target-moves j h),
        closer j hj h,
        set_evictions_self cavl platform hash age universe s t e,
      );
    }

  -- A tenant that beats t shows that t has not reached any of its targets.
  short_of_loser :
      (s : Cy cavl platform) (t o : ℕ) (zs : List ℕ) (j : ℕ)
      → Ix cavl platform hash age universe g s zs
      → has o zs ≡ true
      → beats hash age o t ≡ true
      → sid cavl platform hash age universe g s o ≡ sid cavl platform hash age universe g s t
      → j < u32_mod
      → Target cavl platform hash age universe s t zs j
      → suc (dist j (next_evictions cavl platform s t)) ≡ dist j (s.topics t).evictions
  short_of_loser s t o zs j ix io b at small tgt =
      dist_step j (s.topics t).evictions small (ix.word t) (λ e. tgt o io b (
        at
        ∙ subject_id_hash cavl platform hash age universe s zs t ix
        ∙ ap (topic_subject_id (hash t)) e))

  -- With a target ahead: t moves on past stronger tenants until it meets a free subject-ID or a
  -- weaker tenant.
  place_seek :
      Evicts
      → (rounds : ℕ) (s : Cy cavl platform) (t : ℕ) (zs : List ℕ)
      → Ix cavl platform hash age universe g s zs
      → has t universe ≡ true
      → has t zs ≡ false
      → count (beats hash age t) universe ≤ depth
      → (j : ℕ) → j < u32_mod
      → Target cavl platform hash age universe s t zs j
      → suc (length universe) * u32_mod + dist j (s.topics t).evictions < rounds
      → Result cavl platform hash age universe g
          (place cavl platform evict rounds s t)
          s
          t
          (s.topics t).evictions
          zs
  place_seek ev zero s t zs ix it out deep j small tgt room = absurd (omega arith)
  place_seek ev (suc rounds) s t zs ix it out deep j small tgt room =
      elim (claim-Claimed cavl platform hash age universe s t zs ix) [
        | inl (free, same) ↦ (
          _,
          _,
          place-free cavl platform evict rounds s t same,
          placed cavl platform hash age universe s t zs ix it free,
        )
        | inr (o, found, io, at) ↦ elim (Bool-cases (beats hash age t o)) [
          | inl b ↦ place_squatters ev (suc rounds) s t zs ix it out deep (omega arith) λ w iw aw.
              let same : o ≡ w =
                Sorted-injective (subject_id_of cavl platform s) o w zs ix.sorted io iw
                  (at ∙ sym aw) in
              let (b', j', small', tgt', apart', less') =
                newcomer cavl platform hash age universe g s t w zs (suc (length universe)) ix it
                  out iw aw (ap (beats hash age t) (sym same) ∙ b)
                  (omega (arith, count-le-length (beats hash age w) universe)) in
              (b', j', small', tgt', apart', omega arith)
          | inr lose ↦
              let ne : o ≢ t = λ e. ground (arith, ap (λ y. has y zs) e) in
              let far : hash t ≢ hash o = λ h. ne (sym (g.distinct t o it (ix.inside o io) h)) in
              let bo : beats hash age o t ≡ true = beats-not hash age t o far ∙ ap not lose in
              let e = next_evictions cavl platform s t in
              let s1 = set_evictions cavl platform s t e in
              let ix1 =
                set_evictions-Indexed cavl platform hash age universe s t e zs ix out
                  (omega arith) in
              let less = short_of_loser s t o zs j ix io bo at small tgt in
              let self = set_evictions_self cavl platform hash age universe s t e in
              let (s2, zs2, run, m) =
                place_seek ev rounds s1 t zs ix1 it out deep j small
                  (Target-moves s t e zs out j tgt) (omega (arith, less, self)) in
              (
                s2,
                zs2,
                place-lose cavl platform evict rounds s t o found ne
                      (wins_over-beats cavl platform hash age universe s zs t o ix ∙ lose)
                    ∙ run,
                Moved-moves s t e zs out s2 zs2
                    (λ i hi h. omega (arith, short_of_loser s t o zs i ix io bo at hi h)) m,
              )
        ]
      ]

  -- From any state of the index the loop returns, and the topic is placed.
  pub place_total :
      Evicts
      → (rounds : ℕ) (s : Cy cavl platform) (t : ℕ) (zs : List ℕ)
      → Ix cavl platform hash age universe g s zs
      → has t universe ≡ true
      → has t zs ≡ false
      → count (beats hash age t) universe ≤ depth
      → suc (suc (length universe)) * u32_mod < suc rounds
      → Result cavl platform hash age universe g
          (place cavl platform evict (suc rounds) s t)
          s
          t
          (s.topics t).evictions
          zs
  place_total ev rounds s t zs ix it out deep room =
      elim (claim-Claimed cavl platform hash age universe s t zs ix) [
        | inl (free, same) ↦ (
          _,
          _,
          place-free cavl platform evict rounds s t same,
          placed cavl platform hash age universe s t zs ix it free,
        )
        | inr (o, found, io, at) ↦
            let ne : o ≢ t = λ e. ground (arith, ap (λ y. has y zs) e) in
            let (_, wide) =
              meet cavl platform hash age universe g s zs o t ix (ix.inside o io) it ne at in
            let (j, small, _, avoids) =
              target cavl platform hash age universe g s t t zs ix it out wide in
            place_seek ev (suc rounds) s t zs ix it out deep j small (λ x i _. avoids x i)
              (omega arith)
      ]
