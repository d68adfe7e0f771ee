-- ===== src/Buffers/Tests.antt =====
-- A payload of three fragments, one of them empty, and a destination of four bytes.
use cy.Prelude.{ℕ, ◌≡◌, refl, none, some, List, [], ◌∷◌, length}
use cy.Age.{smaller}
use cy.Buffers.{cy_buffer_borrowed_size, memmove, gather_from, cy_buffer_borrowed_gather}
use cy.Buffers.Gather.{joined, cy_buffer_borrowed_gather-joined}

abbrev scattered : List (List ℕ)
scattered = (1 ∷ 2 ∷ []) ∷ [] ∷ (3 ∷ 4 ∷ 5 ∷ []) ∷ []

abbrev room : List ℕ
room = 0 ∷ 0 ∷ 0 ∷ 0 ∷ []

truncated : cy_buffer_borrowed_gather scattered (some room) ≡ (4, some (1 ∷ 2 ∷ 3 ∷ 4 ∷ []))
unfolding cy_buffer_borrowed_gather gather_from memmove smaller
truncated = refl

cy_buffer_borrowed_gather-joined_example :
    (cy_buffer_borrowed_size scattered ≡ length (joined scattered))
    × (cy_buffer_borrowed_gather scattered none ≡ (0, none))
    × (cy_buffer_borrowed_gather scattered (some room) ≡ (
      smaller (cy_buffer_borrowed_size scattered) (length room),
      some (memmove 0 room (joined scattered)),
    ))
cy_buffer_borrowed_gather-joined_example = cy_buffer_borrowed_gather-joined scattered room
