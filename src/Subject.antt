-- ===== src/Subject.antt =====
-- Topic hashes and subject-IDs, of cy/cy.c: is_pinned, parse_pinned, topic_hash, topic_subject_id.
-- rapidhash (lib/rapidhash.h) is a parameter.
pub mod Pinned
pub mod Range
mod Tests
use cy.Prelude.{
  ℕ, ◌+◌, ◌-◌, ◌*◌, ◌%◌, ◌^◌, Bool, not, ◌||◌, Option, none, some, List, [], ◌∷◌, ltb, ◌==◌,
  if◌then◌else◌, length, get_or,
}

-- CY_TOPIC_SUBJECT_COUNT
abbrev pub topic_subject_count : ℕ
topic_subject_count = 6144

-- CY_TOTAL_SUBJECT_COUNT, 1 << CY_SUBJECT_BITS
abbrev pub total_subject_count : ℕ
total_subject_count = 2 ^ 13

abbrev pub u32_mod : ℕ
u32_mod = 2 ^ 32

abbrev pub u64_mod : ℕ
u64_mod = 2 ^ 64

abbrev pub u32_max : ℕ
u32_max = u32_mod - 1

unfoldable pub is_pinned : ℕ → Bool
is_pinned hash = ltb hash total_subject_count

-- The loop of parse_pinned; none for its early return.
unfoldable pub parse_digits : ℕ → List ℕ → Option ℕ
parse_digits out [] = some out
parse_digits out (c ∷ cs) =
    if ltb c b'0' || ltb b'9' c then none else parse_digits ((out * 10 + (c - b'0')) % u32_mod) cs

-- What stands behind the loop, and the value of the early return.
unfoldable pub checked : Option ℕ → ℕ
checked none = u32_max
checked (some out) = if ltb out total_subject_count then out else u32_max

unfoldable pub tail_from_2 : List ℕ → List ℕ
tail_from_2 [] = []
tail_from_2 (a ∷ []) = []
tail_from_2 (a ∷ b ∷ cs) = cs

-- s.str[i] != c
unfoldable pub byte_differs : List ℕ → ℕ → ℕ → Bool
byte_differs s i c = not (get_or s i 0 == c)

-- The bytes behind the length are not read: the length test comes first.
unfoldable pub parse_pinned : List ℕ → ℕ
unfolding parse_digits checked tail_from_2 byte_differs
parse_pinned s =
    if ltb (length s) 3
      || ltb 6 (length s)
      || byte_differs s 0 b'@'
      || byte_differs s 1 b'/'
      || get_or s 2 0 == b'0'
    then u32_max
    else checked (parse_digits 0 (tail_from_2 s))

unfoldable pub topic_hash : (List ℕ → ℕ) → List ℕ → ℕ
topic_hash rapidhash name =
    if ltb (parse_pinned name) total_subject_count then parse_pinned name else rapidhash name

-- uint64_t hash + evictions wraps; the result fits uint16_t.
unfoldable pub topic_subject_id : ℕ → ℕ → ℕ
unfolding is_pinned
topic_subject_id hash evictions =
    if is_pinned hash then hash else ((hash + evictions) % u64_mod) % topic_subject_count
