-- ===== src/Joining/Joined.antt =====
-- ensure_joined and cy_joined of cy/cy.c together.
use cy.Prelude.{
  ℕ, ◌%◌, ◌^◌, ◌<◌, ◌≤◌, ◌≡◌, ◌≢◌, refl, ◌⊎◌, inl, inr, true, false, some, List, arith, leb,
  Bool-cases,
}
use cy.Index.{Cavl}
use cy.Platform.{Platform, Err, cy_ok}
use cy.Node.{Cy}
use cy.Joining.{u16_mod, pick_node_id, adopt, ensure_joined, cy_joined}
use cy.Joining.Pick.{pick_node_id_total}

module _ (cavl : Cavl) (platform : Platform) (rapidhash : List ℕ → ℕ) where
  open platform use {node_id_max}

  -- Whatever the platform says of the node-ID: the node has one below the bound and the call
  -- succeeded, or it has the bound itself and the call failed.
  abbrev pub Outcome : Err → Cy cavl platform → Type 0
  Outcome res s =
      ((res ≡ cy_ok) × (s.node_id < node_id_max)) ⊎ ((res ≢ cy_ok) × (s.node_id ≡ node_id_max))

  adopt-Outcome :
      (s : Cy cavl platform)
      → s.node_id < node_id_max
      → Outcome (adopt cavl platform rapidhash s).0 (adopt cavl platform rapidhash s).1
  unfolding adopt
  adopt-Outcome s h = ground arith

  Outcome-cy_joined :
      (res : Err) (s : Cy cavl platform)
      → Outcome res s
      → cy_joined cavl platform rapidhash s ≡ true
  unfolding cy_joined
  Outcome-cy_joined res s o = ground arith

  ensure_joined-run :
      (s s1 : Cy cavl platform) (id : ℕ)
      → node_id_max ≤ s.node_id
      → pick_node_id cavl platform rapidhash s node_id_max ≡ some (id, s1)
      → ensure_joined cavl platform rapidhash s
        ≡ some (adopt cavl platform rapidhash (record s1 { node_id = id }))
  unfolding ensure_joined
  ensure_joined-run s s1 id h run =
      let e : leb node_id_max s.node_id ≡ true = ground arith in rw (e, run, ensure_joined) refl

  ensure_joined-already :
      (s : Cy cavl platform)
      → s.node_id < node_id_max
      → ensure_joined cavl platform rapidhash s ≡ some (cy_ok, s)
  unfolding ensure_joined
  ensure_joined-already s h =
      let e : leb node_id_max s.node_id ≡ false = ground arith in rw (e, ensure_joined) refl

  -- With a filter of whole words, no wider than the range of the node-IDs: ensure_joined returns, and
  -- either it succeeds and the node-ID is below the bound, or it fails and the node-ID is the bound
  -- itself. cy_joined says yes in both cases.
  pub ensure_joined_total :
      (s : Cy cavl platform)
      → 0 < s.node_id_bloom.n_bits
      → s.node_id_bloom.n_bits % 64 ≡ 0
      → s.node_id_bloom.n_bits ≤ node_id_max
      → node_id_max < u16_mod
      → ((i : ℕ) → s.node_id_bloom.storage i < 2 ^ 64)
      → (res : Err) × (s1 : Cy cavl platform) × (ensure_joined cavl platform rapidhash s
          ≡ some (res, s1))
        × Outcome res s1
        × (cy_joined cavl platform rapidhash s1 ≡ true)
  ensure_joined_total s pos whole le small words = elim (Bool-cases (leb node_id_max s.node_id)) [
    | inl e ↦
        let (id, s1, run, below, rest) =
          pick_node_id_total cavl platform rapidhash s node_id_max pos whole le small words in
        let s2 = record s1 { node_id = id } in
        let o = adopt-Outcome s2 below in
        (
          (adopt cavl platform rapidhash s2).0,
          (adopt cavl platform rapidhash s2).1,
          ensure_joined-run s s1 id (ground arith) run,
          o,
          Outcome-cy_joined (adopt cavl platform rapidhash s2).0
              (adopt cavl platform rapidhash s2).1 o,
        )
    | inr e ↦
        let below : s.node_id < node_id_max = ground arith in
        (
          cy_ok,
          s,
          ensure_joined-already s below,
          inl (refl, below),
          Outcome-cy_joined cy_ok s (inl (refl, below)),
        )
  ]
