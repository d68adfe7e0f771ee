-- ===== src/Ingest.antt =====
-- The receipt of a message on a topic, cy_ingest_topic_transfer of cy/cy.c, with the calls of the
-- subscribers' callbacks.
pub mod Delivery
mod Tests
use cy.Prelude.{ℕ, zero, suc, ◌+◌, ◌%◌, Option, none, some, List, [], ◌∷◌}
use cy.Subject.{u64_mod}
use cy.Index.{Cavl}
use cy.Wkv.{Substitutions}
use cy.Transfer.{TransferOwned}
use cy.Platform.{Platform}
use cy.Node.{Coupling, Cy}
use cy.Allocation.{set_topic}
use cy.Mortal.{mortal_animate}
use cy.Joining.{mark_neighbor}
use cy.Futures.{release_payload}

-- cy_arrival_t, without the transfer.
pub record Arrival : Type 0 where
  pub subscriber : ℕ
  pub topic : ℕ
  pub substitutions : Substitutions

-- The pointers to the first and to the second subscriber of a root.
abbrev pub first_of : List ℕ → Option ℕ
first_of [] = none
first_of (x ∷ xs) = some x

abbrev pub second_of : List ℕ → Option ℕ
second_of [] = none
second_of (x ∷ xs) = first_of xs

module _ (cavl : Cavl) (platform : Platform) (rapidhash : List ℕ → ℕ)
    -- A callback may change the node, and take the payload out of the transfer.
    (on_arrival : ℕ
      → Arrival
      → Cy cavl platform
      → TransferOwned
      → Cy cavl platform × TransferOwned) where
  unfoldable pub call_subscriber :
      Cy cavl platform → ℕ → ℕ → Substitutions → TransferOwned → Cy cavl platform × TransferOwned
  call_subscriber s sub t substitutions transfer =
      on_arrival (s.subscribers sub).callback
        (record { subscriber = sub; topic = t; substitutions = substitutions }) s transfer

  -- The inner loop, on fuel. `next_sub` is read once, before the loop.
  unfoldable pub call_all :
      ℕ
      → Cy cavl platform
      → Option ℕ
      → Option ℕ
      → ℕ
      → Substitutions
      → TransferOwned
      → Option (Cy cavl platform × TransferOwned)
  call_all zero s sub next_sub t substitutions transfer = none
  call_all (suc rounds) s none next_sub t substitutions transfer = some (s, transfer)
  call_all (suc rounds) s (some sub) next_sub t substitutions transfer =
      let (s1, transfer1) = call_subscriber s sub t substitutions transfer in
      call_all rounds s1 next_sub next_sub t substitutions transfer1

  -- The loop over the couplings. The source reads the link to the next one before it calls the
  -- subscribers of a root; couplings are only ever put before the others (topic_couple), so that
  -- what lies behind one stays what it was at the start.
  unfoldable pub deliver :
      ℕ
      → Cy cavl platform
      → List Coupling
      → ℕ
      → TransferOwned
      → Option (Cy cavl platform × TransferOwned)
  deliver rounds s [] t transfer = some (s, transfer)
  deliver rounds s (cpl ∷ rest) t transfer =
      let subs = (s.roots cpl.root).subscribers in
      elim (call_all rounds s (first_of subs) (second_of subs) t cpl.substitutions transfer) [
        | none ↦ none
        | some (s1, transfer1) ↦ deliver rounds s1 rest t transfer1
      ]

  -- The payload is released unless a subscriber took it.
  unfoldable pub release_unless_taken : Cy cavl platform × TransferOwned → Cy cavl platform
  release_unless_taken (s, transfer) = elim transfer.payload.view [
    | none ↦ s
    | some bytes ↦ release_payload cavl platform rapidhash s transfer.payload
  ]

  unfoldable pub note_transfer : Cy cavl platform → ℕ → TransferOwned → Cy cavl platform
  note_transfer s t transfer =
      let s1 = mark_neighbor cavl platform rapidhash s transfer.metadata.remote_node_id in
      let s2 =
        set_topic cavl platform s1 t
          (record (s1.topics t) { age = ((s1.topics t).age + 1) % u64_mod }) in
      let s3 = mortal_animate cavl platform s2 t in
      set_topic cavl platform s3 t (record (s3.topics t) { ts_received = transfer.timestamp })

  unfoldable pub cy_ingest_topic_transfer :
      ℕ → Cy cavl platform → ℕ → TransferOwned → Option (Cy cavl platform)
  cy_ingest_topic_transfer rounds s t transfer =
      let s1 = note_transfer s t transfer in
      elim (deliver rounds s1 (s1.topics t).couplings t transfer) [
        | none ↦ none
        | some done ↦ some (release_unless_taken done)
      ]
