-- ===== src/Subject/Range.antt =====
-- The range of topic_subject_id of cy/cy.c, and how the hash of a topic decides it.
use cy.Prelude.{
  ℕ, ◌+◌, ◌-◌, ◌*◌, ◌%◌, ◌≤◌, ◌<◌, ◌≡◌, ◌⊎◌, List, arith, ltb, if◌then◌else◌, ap, sym, ◌∙◌,
}
use cy.Subject.{
  topic_subject_count, total_subject_count, u64_mod, parse_pinned, topic_hash, topic_subject_id,
}
use cy.Subject.Pinned.{parse_pinned-canonical, pinned_name}

-- A pinned topic sits at its hash whatever its evictions; any other topic is below
-- CY_TOPIC_SUBJECT_COUNT.
pub topic_subject_id_range :
    (hash evictions : ℕ)
    → ((hash < total_subject_count) × (topic_subject_id hash evictions ≡ hash))
      ⊎ ((total_subject_count ≤ hash) × (topic_subject_id hash evictions < topic_subject_count))
unfolding topic_subject_id
topic_subject_id_range hash evictions = ground arith

-- A number of evictions that leads a topic that is not pinned to the subject-ID.
pub evictions_for : ℕ → ℕ → ℕ
evictions_for hash sid =
    if ltb (hash + topic_subject_count) u64_mod
    then (sid + topic_subject_count - hash % topic_subject_count) % topic_subject_count
    else topic_subject_count
      + (sid + topic_subject_count - (hash + topic_subject_count - u64_mod) % topic_subject_count)
        % topic_subject_count

-- A topic that is not pinned reaches every subject-ID below CY_TOPIC_SUBJECT_COUNT, with
-- evictions_for evictions, fewer than twice CY_TOPIC_SUBJECT_COUNT: also where the 64-bit sum
-- wraps.
pub topic_subject_id-evictions_for :
    (hash sid : ℕ)
    → total_subject_count ≤ hash
    → hash < u64_mod
    → sid < topic_subject_count
    → (topic_subject_id hash (evictions_for hash sid) ≡ sid)
      × (evictions_for hash sid < 2 * topic_subject_count)
unfolding topic_subject_id evictions_for
topic_subject_id-evictions_for hash sid free wide below = ground arith

-- Two names with one hash are one name, when the first is a pinned name and rapidhash does not
-- throw the second into the pinned range.
pub topic_hash-pinned_injective :
    (rapidhash : List ℕ → ℕ) (a b : List ℕ)
    → parse_pinned a < total_subject_count
    → total_subject_count ≤ rapidhash b
    → topic_hash rapidhash a ≡ topic_hash rapidhash b
    → a ≡ b
unfolding topic_hash
topic_hash-pinned_injective rapidhash a b pin far same =
    let e : parse_pinned a ≡ parse_pinned b = ground arith in
    let pin' : parse_pinned b < total_subject_count = omega arith in
    parse_pinned-canonical a pin ∙ ap pinned_name e ∙ sym (parse_pinned-canonical b pin')
