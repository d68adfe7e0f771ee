-- ===== src/Buffers.antt =====
-- The scattered payload buffers of cy/cy.c: cy_buffer_borrowed_size and cy_buffer_borrowed_gather.
-- A payload is the list of its fragments, and a fragment is the bytes of its view.
pub mod Gather
mod Tests
use cy.Prelude.{
  ℕ, zero, suc, ◌+◌, ◌-◌, Option, none, some, List, [], ◌∷◌, ltb, if◌then◌else◌, length, take,
}
use cy.Age.{smaller}

unfoldable pub size_from : ℕ → List (List ℕ) → ℕ
size_from out [] = out
size_from out (p ∷ ps) = size_from (out + length p) ps

unfoldable pub cy_buffer_borrowed_size : List (List ℕ) → ℕ
unfolding size_from
cy_buffer_borrowed_size payload = size_from 0 payload

-- memmove to an offset of the destination.
unfoldable pub memmove : ℕ → List ℕ → List ℕ → List ℕ
memmove offset [] src = []
memmove zero (d ∷ ds) [] = d ∷ ds
memmove zero (d ∷ ds) (b ∷ bs) = b ∷ memmove zero ds bs
memmove (suc offset) (d ∷ ds) src = d ∷ memmove offset ds src

-- The loop: the offset reached and the destination.
unfoldable pub gather_from : List (List ℕ) → ℕ → List ℕ → ℕ × List ℕ
gather_from [] offset dest = (offset, dest)
gather_from (frag ∷ frags) offset dest =
    if ltb offset (length dest)
    then (let frag_size = smaller (length frag) (length dest - offset) in
        gather_from frags (offset + frag_size) (memmove offset dest (take frag_size frag)))
    else (offset, dest)

-- The destination is none when its data pointer is NULL.
unfoldable pub cy_buffer_borrowed_gather : List (List ℕ) → Option (List ℕ) → ℕ × Option (List ℕ)
unfolding gather_from
cy_buffer_borrowed_gather payload none = (0, none)
cy_buffer_borrowed_gather payload (some dest) =
    ((gather_from payload 0 dest).0, some (gather_from payload 0 dest).1)
