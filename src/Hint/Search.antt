-- ===== src/Hint/Search.antt =====
-- The search of cy_topic_hint (cy/cy.c) for an eviction count.
use cy.Prelude.{
  ℕ, zero, suc, ◌+◌, ◌*◌, ◌%◌, ◌≤◌, ◌<◌, ◌≡◌, ◌≢◌, refl, ap, ◌∙◌, inl, inr, true, false, none, some,
  arith, ◌==◌, Bool-cases,
}
use cy.Subject.{
  u32_mod, u64_mod, topic_subject_count, total_subject_count, is_pinned, topic_subject_id,
}
use cy.Subject.Range.{topic_subject_id_range, evictions_for, topic_subject_id-evictions_for}
use cy.Index.{Cavl}
use cy.Platform.{Platform}
use cy.Node.{Cy}
use cy.Hint.{seek, deactivate, takes_hint, move_to, cy_topic_hint}

seek-some :
    (rounds hash e sid : ℕ) → topic_subject_id hash e ≡ sid → seek (suc rounds) hash e sid ≡ some e
unfolding seek
seek-some rounds hash e sid h =
    let q : (topic_subject_id hash e == sid) ≡ true = ground arith in rw (q, seek) refl

seek-next :
    (rounds hash e sid : ℕ)
    → topic_subject_id hash e ≢ sid
    → seek (suc rounds) hash e sid ≡ seek rounds hash ((e + 1) % u32_mod) sid
unfolding seek
seek-next rounds hash e sid h =
    let q : (topic_subject_id hash e == sid) ≡ false = ground arith in rw (q, seek) refl

seek_out : (hash e sid : ℕ) → seek 0 hash e sid ≡ none
unfolding seek
seek_out hash e sid = refl

-- A subject-ID that the topic cannot have is never found.
seek_never :
    (rounds hash e sid : ℕ)
    → ((j : ℕ) → topic_subject_id hash j ≢ sid)
    → seek rounds hash e sid ≡ none
seek_never zero hash e sid h = seek_out hash e sid
seek_never (suc rounds) hash e sid h =
    seek-next rounds hash e sid (h e) ∙ seek_never rounds hash ((e + 1) % u32_mod) sid h

-- A target ahead is reached, and nothing before it is passed over.
seek_reaches :
    (rounds hash e sid target : ℕ)
    → topic_subject_id hash target ≡ sid
    → e ≤ target
    → target < e + rounds
    → target < u32_mod
    → (j : ℕ) × (seek rounds hash e sid ≡ some j)
      × (topic_subject_id hash j ≡ sid)
      × (j ≤ target)
      × ((i : ℕ) → e ≤ i → i < j → topic_subject_id hash i ≢ sid)
seek_reaches zero hash e sid target at from to small = absurd (omega arith)
seek_reaches (suc rounds) hash e sid target at from to small =
    elim (Bool-cases (topic_subject_id hash e == sid)) [
      | inl q ↦
          let here : topic_subject_id hash e ≡ sid = ground arith in
          (e, seek-some rounds hash e sid here, here, from, λ i le lt. absurd (omega arith))
      | inr q ↦
          let away : topic_subject_id hash e ≢ sid = ground arith in
          let ahead : e ≢ target = λ same. away (ap (topic_subject_id hash) same ∙ at) in
          let step : (e + 1) % u32_mod ≡ e + 1 = omega (arith, ahead) in
          let (j, run, lands, below, first) =
            seek_reaches rounds hash (e + 1) sid target at (ground arith) (omega arith) small in
          (
            j,
            seek-next rounds hash e sid away ∙ ap (λ z. seek rounds hash z sid) step ∙ run,
            lands,
            below,
            λ i le lt. elim (Bool-cases (i == e)) [
              | inl same ↦ λ h. away (ap (topic_subject_id hash) (ground arith) ∙ h)
              | inr other ↦ first i (ground arith) lt
            ],
          )
    ]

-- The loop of cy_topic_hint for a topic that is not pinned, with a 64-bit hash, and a subject-ID below
-- CY_TOPIC_SUBJECT_COUNT: it ends within twice CY_TOPIC_SUBJECT_COUNT rounds, also where the 64-bit
-- sum wraps, with the lowest eviction count that leads to the subject-ID.
pub seek_total :
    (rounds hash sid : ℕ)
    → total_subject_count ≤ hash
    → hash < u64_mod
    → sid < topic_subject_count
    → 2 * topic_subject_count ≤ rounds
    → (j : ℕ) × (seek rounds hash 0 sid ≡ some j)
      × (topic_subject_id hash j ≡ sid)
      × (j < 2 * topic_subject_count)
      × ((i : ℕ) → i < j → topic_subject_id hash i ≢ sid)
seek_total rounds hash sid free wide below room =
    let (at, small) = topic_subject_id-evictions_for hash sid free wide below in
    let (j, run, lands, le, first) =
      seek_reaches rounds hash 0 sid (evictions_for hash sid) at (omega arith) (omega arith)
        (omega arith) in
    (j, run, lands, omega arith, λ i lt. first i (omega arith) lt)

out_of_reach :
    (hash sid : ℕ)
    → total_subject_count ≤ hash
    → topic_subject_count ≤ sid
    → (j : ℕ) → topic_subject_id hash j ≢ sid
out_of_reach hash sid free above j h = ground (arith, topic_subject_id_range hash j)

module _ (cavl : Cavl) (platform : Platform) where
  hint_taken :
      (s : Cy cavl platform) (t sid : ℕ)
      → total_subject_count ≤ (s.topics t).hash
      → (s.topics t).evictions ≡ 0
      → sid < total_subject_count
      → takes_hint cavl platform s t sid ≡ true
  unfolding takes_hint is_pinned
  hint_taken s t sid free new below = ground arith

  nowhere : (s : Cy cavl platform) (t : ℕ) → move_to cavl platform s t none ≡ none
  unfolding move_to
  nowhere s t = refl

  -- For a topic that is not pinned and has no evictions, a hint at a subject-ID from
  -- CY_TOPIC_SUBJECT_COUNT up to CY_TOTAL_SUBJECT_COUNT passes the guard, and the call does not
  -- return, whatever fuel it is given.
  pub cy_topic_hint_livelock :
      (rounds : ℕ) (s : Cy cavl platform) (t sid : ℕ)
      → total_subject_count ≤ (s.topics t).hash
      → (s.topics t).evictions ≡ 0
      → topic_subject_count ≤ sid
      → sid < total_subject_count
      → cy_topic_hint cavl platform rounds s (some t) sid ≡ none
  unfolding cy_topic_hint
  cy_topic_hint_livelock rounds s t sid free new above below =
      rw (hint_taken s t sid free new below, cy_topic_hint)
        (ap (move_to cavl platform (deactivate cavl platform s t) t) (
            seek_never rounds (s.topics t).hash (s.topics t).evictions sid
              (out_of_reach (s.topics t).hash sid free above))
          ∙ nowhere (deactivate cavl platform s t) t)
