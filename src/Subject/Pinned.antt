-- ===== src/Subject/Pinned.antt =====
-- Pinned names of cy/cy.c: the canonical form "@/1234" and parse_pinned.
use cy.Prelude.{
  ℕ, ◌+◌, ◌/◌, ◌%◌, ◌≤◌, ◌<◌, ◌≡◌, List, [], ◌∷◌, arith, ltb, if◌then◌else◌, length, get_or, ◌≢◌,
}
use cy.Subject.{total_subject_count, parse_digits, checked, parse_pinned}

-- The decimal digits of a number below ten thousand, with no leading zero.
unfoldable pub decimal : ℕ → List ℕ
decimal n =
    if ltb n 10
    then (b'0' + n) ∷ []
    else if ltb n 100
    then (b'0' + n / 10) ∷ (b'0' + n % 10) ∷ []
    else if ltb n 1000
    then (b'0' + n / 100) ∷ (b'0' + n / 10 % 10) ∷ (b'0' + n % 10) ∷ []
    else (b'0' + n / 1000) ∷ (b'0' + n / 100 % 10) ∷ (b'0' + n / 10 % 10) ∷ (b'0' + n % 10) ∷ []

-- "@/" and the number.
abbrev pub pinned_name : ℕ → List ℕ
pinned_name n = b'@' ∷ b'/' ∷ decimal n

-- Every number from 1 to CY_TOTAL_SUBJECT_COUNT - 1 is the parse of its pinned name.
pub parse_pinned-pinned_name :
    (n : ℕ) → 0 < n → n < total_subject_count → parse_pinned (pinned_name n) ≡ n
unfolding parse_pinned decimal
parse_pinned-pinned_name n pos below = ground arith

-- One to four digits that do not begin with zero are the decimal digits of the number they make.
decimal-digits :
    (cs : List ℕ)
    → 0 < length cs
    → length cs ≤ 4
    → checked (parse_digits 0 cs) < total_subject_count
    → get_or cs 0 0 ≢ b'0'
    → cs ≡ decimal (checked (parse_digits 0 cs))
unfolding decimal checked parse_digits
decimal-digits [] filled short below lead = absurd (omega arith)
decimal-digits (a ∷ []) filled short below lead = ground arith
decimal-digits (a ∷ b ∷ []) filled short below lead = ground arith
decimal-digits (a ∷ b ∷ c ∷ []) filled short below lead = ground arith
decimal-digits (a ∷ b ∷ c ∷ d ∷ []) filled short below lead = ground arith
decimal-digits (a ∷ b ∷ c ∷ d ∷ e ∷ cs) filled short below lead = absurd (omega arith)

-- A name whose parse is a subject-ID is the pinned name of that subject-ID: no other spelling is
-- accepted.
pub parse_pinned-canonical :
    (s : List ℕ) → parse_pinned s < total_subject_count → s ≡ pinned_name (parse_pinned s)
unfolding parse_pinned
parse_pinned-canonical [] below = absurd (omega arith)
parse_pinned-canonical (a ∷ []) below = absurd (omega arith)
parse_pinned-canonical (a ∷ b ∷ cs) below = ground (arith, decimal-digits cs)
