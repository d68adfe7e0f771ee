-- ===== src/Names/Tests.antt =====
-- The properties of the names at concrete strings, and runs of resolve_name and parse_pinned.
use Prim.Native.Char.{code}
use Prim.Native.String.{String}
use cy.Prelude.{ℕ, ◌+◌, ◌≤◌, ◌<◌, ◌≡◌, refl, some, none, List, [], ◌∷◌, arith, length, replicate}
use cy.Names.{topic_name_max, resolve_name, canonicalize, format_name, trim_slash, non_empty, first}
use cy.Names.Canonical.{
  IsCanonical, joined, resolve_name-IsCanonical, resolve_name-absolute, resolve_name-overrun,
}

-- The bytes of a text, which is ASCII here.
abbrev bytes : String → List ℕ
bytes String.[] = []
bytes (String.◌∷◌ c s) = code c ∷ bytes s

resolves_relative :
    resolve_name (bytes "ns") (bytes "@/1/2/3/") (bytes "a//b/") ≡ some (bytes "ns/a/b")
unfolding resolve_name format_name canonicalize trim_slash non_empty
resolves_relative = refl

resolves_user : resolve_name (bytes "ns") (bytes "@/1/2/3/") (bytes "~x") ≡ some (bytes "@/1/2/3/x")
unfolding resolve_name format_name canonicalize trim_slash non_empty
resolves_user = refl

refuses_empty : resolve_name (bytes "ns") (bytes "u") (bytes "//") ≡ none
unfolding resolve_name format_name canonicalize trim_slash non_empty
refuses_empty = refl

resolve_name-IsCanonical_example : IsCanonical (bytes "ns/a/b") × (length (bytes "ns/a/b") ≤ 89)
resolve_name-IsCanonical_example =
    resolve_name-IsCanonical (bytes "ns") (bytes "@/1/2/3/") (bytes "a//b/") resolves_relative

a_b-IsCanonical : IsCanonical (bytes "a/b")
a_b-IsCanonical = record { filled = ground arith; spaced = ground arith; closed = ground arith }

resolve_name-absolute_example :
    resolve_name (bytes "ns") (bytes "u") (bytes "/a/b") ≡ some (bytes "a/b")
resolve_name-absolute_example =
    resolve_name-absolute (bytes "ns") (bytes "u") (bytes "a/b") a_b-IsCanonical (omega arith)

abbrev long_name : List ℕ
long_name = replicate 86 b'x'

resolve_name-overrun_example :
    (resolve_name (bytes "ns") (bytes "u") long_name ≡ some (joined (bytes "ns") long_name))
    × (topic_name_max + 1 < length (joined (bytes "ns") long_name) + 1)
unfolding first
resolve_name-overrun_example =
    resolve_name-overrun (bytes "ns") (bytes "u") long_name (omega arith) (omega arith)
      (omega arith) (record { filled = ground arith; spaced = ground arith; closed = ground arith })
      refl
