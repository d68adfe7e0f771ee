-- ===== src/Subject/Tests.antt =====
-- The properties of the subject-IDs at concrete names and hashes.
use cy.Prelude.{ℕ, ◌≡◌, refl, List, [], ◌∷◌, arith}
use cy.Subject.{u32_max, parse_pinned, topic_hash}
use cy.Subject.Pinned.{decimal, pinned_name, parse_pinned-pinned_name, parse_pinned-canonical}
use cy.Subject.Range.{topic_hash-pinned_injective}

-- "@/7509", the heartbeat topic.
abbrev heartbeat_name : List ℕ
heartbeat_name = b'@' ∷ b'/' ∷ b'7' ∷ b'5' ∷ b'0' ∷ b'9' ∷ []

leading_zero : parse_pinned (b'@' ∷ b'/' ∷ b'0' ∷ b'1' ∷ []) ≡ u32_max
unfolding parse_pinned
leading_zero = refl

too_large : parse_pinned (b'@' ∷ b'/' ∷ b'8' ∷ b'1' ∷ b'9' ∷ b'2' ∷ []) ≡ u32_max
unfolding parse_pinned
too_large = refl

heartbeat_pinned : parse_pinned heartbeat_name ≡ 7509
unfolding parse_pinned
heartbeat_pinned = refl

parse_pinned-pinned_name_example : parse_pinned (pinned_name 7509) ≡ 7509
parse_pinned-pinned_name_example = parse_pinned-pinned_name 7509 (omega arith) (omega arith)

parse_pinned-canonical_example : heartbeat_name ≡ pinned_name (parse_pinned heartbeat_name)
parse_pinned-canonical_example =
    parse_pinned-canonical heartbeat_name (omega (arith, heartbeat_pinned))

topic_hash-pinned_injective_example : heartbeat_name ≡ pinned_name 7509
unfolding topic_hash parse_pinned decimal
topic_hash-pinned_injective_example =
    topic_hash-pinned_injective (λ s. 1_000_000) heartbeat_name (pinned_name 7509) (omega arith)
      (omega arith) refl
