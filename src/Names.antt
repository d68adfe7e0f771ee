-- ===== src/Names.antt =====
-- Topic names, of cy/cy.c: resolve_name. A C string is the list of its bytes before the NUL.
pub mod Canonical
mod Tests
use cy.Prelude.{
  ℕ, ◌+◌, ◌≡◌, Bool, true, false, ◌&&◌, ◌||◌, Option, none, some, List, [], ◌∷◌, ◌++◌, ltb, ◌==◌,
  if◌then◌else◌, take,
}

-- CY_TOPIC_NAME_MAX
abbrev pub topic_name_max : ℕ
topic_name_max = 88

-- `*s`, zero at the end
unfoldable pub first : List ℕ → ℕ
first [] = 0
first (c ∷ cs) = c

-- The size of `tmp`, less the NUL that snprintf writes.
abbrev pub tmp_size : ℕ
tmp_size = topic_name_max + 9

unfoldable pub strip_tilde : List ℕ → List ℕ
strip_tilde [] = []
strip_tilde (c ∷ cs) = if c == b'~' then cs else c ∷ cs

-- The temporary representation: snprintf truncates to the buffer.
unfoldable pub format_name : List ℕ → List ℕ → List ℕ → List ℕ
unfolding first strip_tilde
format_name ns user name =
    if first name == b'/'
    then take tmp_size name
    else take tmp_size
        ((if first name == b'~' || first ns == b'~' then user else ns) ++ (b'/' ∷ strip_tilde name))

-- The loop: the bytes written from here on and the last byte read, or none for `return false`.
unfoldable pub canonicalize : ℕ → ℕ → List ℕ → Option (List ℕ × ℕ)
canonicalize pos prev [] = some ([], prev)
canonicalize pos prev (c ∷ cs) =
    if ltb topic_name_max pos then none else elim (canonicalize (pos + 1) c cs) [
      | none ↦ none
      | some (out, last) ↦ some (if c == b'/' && prev == b'/' then out else c ∷ out, last)
    ]

-- `out--`
unfoldable pub drop_last : List ℕ → List ℕ
drop_last [] = []
drop_last (c ∷ []) = []
drop_last (c ∷ d ∷ cs) = c ∷ drop_last (d ∷ cs)

unfoldable pub trim_slash : List ℕ × ℕ → List ℕ
unfolding drop_last
trim_slash (out, last) = if last == b'/' then drop_last out else out

unfoldable pub non_empty : List ℕ → Option (List ℕ)
non_empty [] = none
non_empty (c ∷ cs) = some (c ∷ cs)

-- From behind the loop on: none for false, otherwise the string left in `destination`.
unfoldable pub finish : Option (List ℕ × ℕ) → Option (List ℕ)
finish none = none
finish (some r) = non_empty (trim_slash r)

unfoldable pub resolve_name : List ℕ → List ℕ → List ℕ → Option (List ℕ)
unfolding finish
resolve_name ns user name = finish (canonicalize 0 b'/' (format_name ns user name))
