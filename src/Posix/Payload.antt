-- ===== src/Posix/Payload.antt =====
-- The payload that cy_udp_posix/cy_udp_posix.c hands to libudpard, CY_BUFFER_GATHER_ON_STACK.
use cy.Prelude.{
  ℕ, ◌≡◌, refl, sym, ap, ◌∙◌, some, List, [], ◌∷◌, ◌++◌, arith, length, take, replicate,
  length-replicate,
}
use cy.Buffers.{cy_buffer_borrowed_size, cy_buffer_borrowed_gather, memmove}
use cy.Buffers.Gather.{joined, take_all, smaller_left, cy_buffer_borrowed_gather-joined}
use cy.Posix.{gather_on_stack, buffer_of}

memmove-all : (d s : List ℕ) → length d ≡ length s → memmove 0 d s ≡ s
unfolding memmove
memmove-all [] [] h = refl
memmove-all [] (b ∷ s) h = absurd (omega arith)
memmove-all (x ∷ d) [] h = absurd (omega arith)
memmove-all (x ∷ d) (b ∷ s) h = ap (λ z. b ∷ z) (memmove-all d s (omega arith))

append_nil : (s : List ℕ) → s ++ [] ≡ s
append_nil [] = refl
append_nil (b ∷ s) = ap (λ z. b ∷ z) (append_nil s)

-- A buffer of the size of the payload is filled by its bytes.
gathered :
    (payload : List (List ℕ))
    → take
        (cy_buffer_borrowed_gather payload (some (replicate (cy_buffer_borrowed_size payload) 0))).0
        (buffer_of
          (cy_buffer_borrowed_gather payload
            (some (replicate (cy_buffer_borrowed_size payload) 0))).1)
      ≡ joined payload
gathered payload =
    let dest = replicate (cy_buffer_borrowed_size payload) 0 in
    let (size, nothing, filled) = cy_buffer_borrowed_gather-joined payload dest in
    let room : length dest ≡ length (joined payload) = length-replicate _ 0 ∙ size in
    rw (filled, memmove-all dest (joined payload) room)
      (take_all _ (joined payload)
        (omega (arith, smaller_left (cy_buffer_borrowed_size payload) (length dest) (omega arith))))

-- The payload that the POSIX platform hands to libudpard is the concatenation of the fragments, in
-- their order.
pub gather_on_stack-joined : (payload : List (List ℕ)) → gather_on_stack payload ≡ joined payload
unfolding gather_on_stack
gather_on_stack-joined [] = refl
gather_on_stack-joined (view ∷ []) = sym (append_nil view)
gather_on_stack-joined (view ∷ next ∷ rest) = gathered (view ∷ next ∷ rest)
