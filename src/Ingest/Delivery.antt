-- ===== src/Ingest/Delivery.antt =====
-- The loops over couplings and subscribers of cy_ingest_topic_transfer (cy/cy.c).
use cy.Prelude.{ℕ, zero, suc, ◌+◌, ◌%◌, ◌≡◌, refl, ap, ◌∙◌, arith, none, some, List, [], ◌∷◌}
use cy.Index.{Cavl}
use cy.Wkv.{Substitutions}
use cy.Transfer.{TransferOwned}
use cy.Platform.{Platform}
use cy.Node.{SubscriberRoot, Coupling, Topic, Cy}
use cy.Allocation.{set_topic}
use cy.Mortal.{mortal_animate}
use cy.Mortal.Frame.{Coupled, Coupled-trans, mortal_animate-Coupled}
use cy.Joining.{mark_neighbor, decongest, random_uint, random_u64}
use cy.Subject.{u64_mod}
use cy.Ingest.{Arrival, call_subscriber, call_all, deliver, note_transfer, cy_ingest_topic_transfer}

-- Every coupling leads to a root with one subscriber.
abbrev pub Single : (ℕ → SubscriberRoot) → (Coupling → ℕ) → List Coupling → Type 0
Single roots only [] = Unit {0}
Single roots only (cpl ∷ rest) =
    ((roots cpl.root).subscribers ≡ only cpl ∷ []) × Single roots only rest

module _ (cavl : Cavl) (platform : Platform) (rapidhash : List ℕ → ℕ)
    (on_arrival : ℕ
      → Arrival
      → Cy cavl platform
      → TransferOwned
      → Cy cavl platform × TransferOwned) where
  -- The second pointer is never advanced.
  call_all_again :
      (rounds : ℕ) (s : Cy cavl platform) (sub next t : ℕ) (substitutions : Substitutions)
      (transfer : TransferOwned)
      → call_all cavl platform rapidhash on_arrival rounds s
          (some sub)
          (some next)
          t
          substitutions
          transfer
        ≡ none
  unfolding call_all
  call_all_again zero s sub next t substitutions transfer = refl
  call_all_again (suc rounds) s sub next t substitutions transfer =
      let done =
        call_subscriber cavl platform rapidhash on_arrival s sub t substitutions transfer in
      call_all_again rounds done.0 next next t substitutions done.1

  -- One call for each coupling, in their order.
  unfoldable pub one_call_each :
      Cy cavl platform
      → List Coupling
      → (Coupling → ℕ)
      → ℕ
      → TransferOwned
      → Cy cavl platform × TransferOwned
  one_call_each s [] only t transfer = (s, transfer)
  one_call_each s (cpl ∷ rest) only t transfer =
      let done =
        call_subscriber cavl platform rapidhash on_arrival s (only cpl) t cpl.substitutions
          transfer in
      one_call_each done.0 rest only t done.1

  -- The callbacks leave the subscribers of every root alone.
  abbrev pub KeepsRoots : Type 0
  KeepsRoots =
      (callback : ℕ) (evt : Arrival) (s : Cy cavl platform) (transfer : TransferOwned)
      → (on_arrival callback evt s transfer).0.roots ≡ s.roots

  mark_neighbor-Coupled :
      (s : Cy cavl platform) (id : ℕ)
      → Coupled cavl platform s (mark_neighbor cavl platform rapidhash s id)
  unfolding mark_neighbor decongest random_uint random_u64
  mark_neighbor-Coupled s id = record { roots = ground arith; couplings = λ x. ground arith }

  set_topic-Coupled :
      (s : Cy cavl platform) (t : ℕ) (v : Topic cavl)
      → v.couplings ≡ (s.topics t).couplings
      → Coupled cavl platform s (set_topic cavl platform s t v)
  unfolding set_topic
  set_topic-Coupled s t v h = record { roots = refl; couplings = λ x. ground arith }

  note_transfer-Coupled :
      (s : Cy cavl platform) (t : ℕ) (transfer : TransferOwned)
      → Coupled cavl platform s (note_transfer cavl platform rapidhash on_arrival s t transfer)
  unfolding note_transfer
  note_transfer-Coupled s t transfer =
      let s1 = mark_neighbor cavl platform rapidhash s transfer.metadata.remote_node_id in
      let s2 =
        set_topic cavl platform s1 t
          (record (s1.topics t) { age = ((s1.topics t).age + 1) % u64_mod }) in
      let s3 = mortal_animate cavl platform s2 t in
      Coupled-trans cavl platform (mark_neighbor-Coupled s transfer.metadata.remote_node_id) (
        Coupled-trans cavl platform
          (set_topic-Coupled s1 t (record (s1.topics t) { age = ((s1.topics t).age + 1) % u64_mod })
            refl)
          (Coupled-trans cavl platform (mortal_animate-Coupled cavl platform s2 t) (
            set_topic-Coupled s3 t (record (s3.topics t) { ts_received = transfer.timestamp })
              refl)))

  -- When the first root that the topic is coupled with has two subscribers or more, the receipt of a
  -- transfer on the topic does not return, whatever the callbacks do and whatever fuel is given.
  pub cy_ingest_topic_transfer_livelock :
      (rounds : ℕ) (s : Cy cavl platform) (t : ℕ) (transfer : TransferOwned) (cpl : Coupling)
      (rest : List Coupling) (sub1 sub2 : ℕ) (subs : List ℕ)
      → (s.topics t).couplings ≡ cpl ∷ rest
      → (s.roots cpl.root).subscribers ≡ sub1 ∷ sub2 ∷ subs
      → cy_ingest_topic_transfer cavl platform rapidhash on_arrival rounds s t transfer ≡ none
  unfolding cy_ingest_topic_transfer deliver
  cy_ingest_topic_transfer_livelock rounds s t transfer cpl rest sub1 sub2 subs coupled shared =
      let s1 = note_transfer cavl platform rapidhash on_arrival s t transfer in
      let c = note_transfer-Coupled s t transfer in
      let listed : (s1.roots cpl.root).subscribers ≡ sub1 ∷ sub2 ∷ subs =
        ap (λ roots. (roots cpl.root).subscribers) c.roots ∙ shared in
      rw
        (
          c.couplings t ∙ coupled,
          listed,
          call_all_again rounds s1 sub1 sub2 t cpl.substitutions transfer,
          cy_ingest_topic_transfer,
          deliver,
        )
        refl
