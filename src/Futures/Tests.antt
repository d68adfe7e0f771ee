-- ===== src/Futures/Tests.antt =====
-- Two futures, of which one has timed out.
use cy.Prelude.{ℕ, ◌≡◌, refl, some, List, [], ◌∷◌, arith, ◌==◌, if◌then◌else◌}
use cy.Prelude.Int.{pos}
use cy.Index.{list_index}
use cy.Transfer.{no_transfer}
use cy.Node.{pending, Cy}
use cy.Futures.{retire_timed_out_futures}
use cy.Futures.Retire.{due, live, AllLater, TimedOut, deadline_of, retire_timed_out_futures_total}
use cy.Allocation.Tests.{quiet, node_of, topic_of}

abbrev hash_of : List ℕ → ℕ
hash_of bytes = 5

abbrev ignore : ℕ → ℕ → Cy list_index quiet → Cy list_index quiet
ignore callback f s = s

abbrev waiting : Cy list_index quiet
waiting = record (node_of (λ x. topic_of 10000 3)) {
  futures_by_deadline = 4 ∷ 5 ∷ [];
  futures = λ x. record {
    publisher = 0;
    state = pending;
    transfer_id_masked = x;
    deadline = if x == 4 then pos 10 else pos 90;
    last_response = no_transfer;
    callback = some 1;
  };
}

retire_timed_out_futures_total_example :
    (s1 : Cy list_index quiet) × (retire_timed_out_futures list_index quiet hash_of ignore 3 waiting
        (pos 50)
      ≡ some s1)
    × (s1.futures_by_deadline
        ≡ live (deadline_of list_index quiet hash_of ignore waiting) (pos 50) (4 ∷ 5 ∷ []))
    × AllLater
        (deadline_of list_index quiet hash_of ignore waiting)
        (pos 50)
        (live (deadline_of list_index quiet hash_of ignore waiting) (pos 50) (4 ∷ 5 ∷ []))
    × TimedOut list_index quiet hash_of ignore waiting.futures
        (due (deadline_of list_index quiet hash_of ignore waiting) (pos 50) (4 ∷ 5 ∷ []))
        s1.futures
retire_timed_out_futures_total_example =
    retire_timed_out_futures_total list_index quiet hash_of ignore 3 waiting (pos 50) (4 ∷ 5 ∷ [])
      (λ callback f s. (refl, refl)) refl ((refl, tt), (tt, tt)) (omega arith)

one_left : live (deadline_of list_index quiet hash_of ignore waiting) (pos 50) (4 ∷ 5 ∷ []) ≡ 5 ∷ []
unfolding live
one_left = refl
