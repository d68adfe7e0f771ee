-- ===== src/Allocation/Livelock.antt =====
-- topic_allocate of cy/cy.c on a pinned topic that loses the arbitration.
use cy.Prelude.{
  ℕ, zero, suc, ◌<◌, ◌≡◌, ◌≢◌, refl, sym, ap, ◌∙◌, inl, inr, Bool, true, false, not, Option, none,
  List, arith,
}
use cy.Subject.{total_subject_count, u32_mod, topic_subject_id}
use cy.Index.{Cavl, has}
use cy.Index.Cut.{Sorted-injective, find_in-none}
use cy.Platform.{Platform}
use cy.Node.{Cy}
use cy.Allocation.{subject_id_of, next_evictions, set_evictions, prepare, place, topic_allocate}
use cy.Allocation.Rank.{beats}
use cy.Allocation.Setting.{Indexed, claim-Claimed}
use cy.Allocation.Rounds.{
  subject_id_same, place-lose, wins_over-beats, subject_id_hash, set_evictions-Indexed,
  set_evictions_ne,
}
use cy.Allocation.Termination.{others, has-others, away, prepare_ne, prepare-Indexed}

module _ (cavl : Cavl) (platform : Platform) (hash age : ℕ → ℕ) (universe : List ℕ) where
  -- The subject-ID of a pinned topic does not depend on its evictions.
  pinned_sid :
      (s : Cy cavl platform) (zs : List ℕ) (t : ℕ)
      → Indexed cavl platform hash age universe s zs
      → hash t < total_subject_count
      → subject_id_of cavl platform s t ≡ hash t
  unfolding topic_subject_id
  pinned_sid s zs t ix pin =
      subject_id_hash cavl platform hash age universe s zs t ix ∙ ground arith

  place_pinned :
      (evict : Cy cavl platform → ℕ → ℕ → Option (Cy cavl platform)) (rounds : ℕ)
      (s : Cy cavl platform) (zs : List ℕ) (t o : ℕ)
      → Indexed cavl platform hash age universe s zs
      → has t zs ≡ false
      → has o zs ≡ true
      → hash t < total_subject_count
      → subject_id_of cavl platform s o ≡ hash t
      → beats hash age t o ≡ false
      → place cavl platform evict rounds s t ≡ none
  unfolding place
  place_pinned evict zero s zs t o ix out io pin at lose = refl
  place_pinned evict (suc rounds) s zs t o ix out io pin at lose =
      elim (claim-Claimed cavl platform hash age universe s t zs ix) [
        | inl (free, same) ↦
            let f = subject_id_of cavl platform s in
            absurd
              (find_in-none f (f t) zs ix.sorted o free io (at ∙ sym (pinned_sid s zs t ix pin)))
        | inr (w, found, iw, aw) ↦
            let f = subject_id_of cavl platform s in
            let same : w ≡ o =
              Sorted-injective f w o zs ix.sorted iw io (aw ∙ pinned_sid s zs t ix pin ∙ sym at) in
            let ne : o ≢ t = λ q. ground (arith, ap (λ y. has y zs) q) in
            let e = next_evictions cavl platform s t in
            let s1 = set_evictions cavl platform s t e in
            let ix1 =
              set_evictions-Indexed cavl platform hash age universe s t e zs ix out (omega arith) in
            let still =
              ap (λ v. topic_subject_id v.hash v.evictions)
                (set_evictions_ne cavl platform hash age universe s t e o ne) in
            place-lose cavl platform evict rounds s t o (found ∙ same) ne
              (wins_over-beats cavl platform hash age universe s zs t o ix ∙ lose)
            ∙ place_pinned evict rounds s1 zs t o ix1 out io pin (still ∙ at) lose
      ]

  -- When a pinned topic is allocated while another topic that beats it, an older one, holds its
  -- subject-ID, the call does not return, whatever fuel it is given.
  pub topic_allocate_livelock :
      (depth rounds : ℕ) (s : Cy cavl platform) (zs : List ℕ) (t o e : ℕ) (virgin : Bool)
      → Indexed cavl platform hash age universe s zs
      → virgin ≡ not (has t zs)
      → e < u32_mod
      → has o zs ≡ true
      → o ≢ t
      → hash t < total_subject_count
      → subject_id_of cavl platform s o ≡ hash t
      → beats hash age t o ≡ false
      → topic_allocate cavl platform depth rounds s t e virgin ≡ none
  unfolding topic_allocate
  topic_allocate_livelock zero rounds s zs t o e virgin ix h small io ne pin at lose = refl
  topic_allocate_livelock (suc depth) rounds s zs t o e virgin ix h small io ne pin at lose =
      let p = prepare cavl platform s t e virgin in
      let ip = prepare-Indexed cavl platform hash age universe s t e virgin zs h small ix in
      let member =
        has-others cavl platform hash age universe virgin (subject_id_of cavl platform s) t o zs h
          ix.sorted in
      let still =
        subject_id_same cavl platform hash age universe s p zs
          (others cavl platform hash age universe virgin t zs) o ix ip
          (prepare_ne cavl platform hash age universe s t e virgin zs h small ix o ne) in
      let stuck =
        place_pinned (λ s' o' e'. topic_allocate cavl platform depth rounds s' o' e' false) rounds p
          (others cavl platform hash age universe virgin t zs) t o ip
          (away cavl platform hash age universe s t e virgin zs h small ix) (ground arith) pin
          (still ∙ at) lose in
      rw (stuck, topic_allocate) refl
