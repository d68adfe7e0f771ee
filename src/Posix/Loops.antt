-- ===== src/Posix/Loops.antt =====
-- The loops over the interfaces in cy_udp_posix/cy_udp_posix.c, for_each.
use cy.Prelude.{ℕ, zero, suc, ◌+◌, ◌≤◌, ◌<◌, subst, arith}
use cy.Posix.{for_each}

-- What each round takes from its index to the next one, the loop takes from the first to the last.
pub for_each_invariant {ℓ ℓ'} :
    {S : Type ℓ} (P : ℕ → S → Type ℓ') (body : ℕ → S → S) (count i : ℕ) (s : S)
    → ((j : ℕ) (s1 : S) → i ≤ j → j < i + count → P j s1 → P (suc j) (body j s1))
    → P i s
    → P (i + count) (for_each count i body s)
unfolding for_each
for_each_invariant P body zero i s step h = subst (λ n. P n s) (omega arith) h
for_each_invariant P body (suc count) i s step h =
    subst (λ n. P n (for_each count (suc i) body (body i s))) (omega arith)
      (for_each_invariant P body count (suc i) (body i s)
        (λ j s1 above below. step j s1 (omega arith) (omega arith))
        (step i s (omega arith) (omega arith) h))
