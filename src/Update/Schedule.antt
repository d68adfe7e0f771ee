-- ===== src/Update/Schedule.antt =====
-- Which heartbeat cy_update of cy/cy.c publishes, and when.
use cy.Prelude.{
  ℕ, ◌≡◌, ◌<◌, ◌⊎◌, inl, inr, refl, ap, ◌∙◌, true, false, Option, none, some, List, zero, suc,
  subst, arith, ltb, Bool-cases, Option-cases,
}
use cy.Prelude.Int.{ℤ, ◌+ℤ◌, ltb_ℤ}
use cy.Index.{Cavl}
use cy.Platform.{Platform, Err, cy_ok}
use cy.Node.{Cy}
use cy.Mortal.{is_some}
use cy.Joining.{cy_joined}
use cy.Gossip.{publish_heartbeat_gossip, publish_heartbeat_scout}
use cy.Gossip.Order.{
  Gossiped, Scouted, publish_heartbeat_gossip_joined, publish_heartbeat_scout_joined,
}
use cy.Update.{is_urgent, is_due, publish_due, publish_if_due}

module _ (cavl : Cavl) (platform : Platform) (rapidhash : List ℕ → ℕ)
    (on_future : ℕ → ℕ → Cy cavl platform → Cy cavl platform) where
  -- The time of the next heartbeat has come, or at least the shortest period is over.
  abbrev pub Regular : Cy cavl platform → ℤ → Type 0
  Regular s now = ltb_ℤ now s.heartbeat_next ≡ false

  abbrev pub Paced : Cy cavl platform → ℤ → Type 0
  Paced s now = ltb_ℤ now (s.heartbeat_last +ℤ s.heartbeat_period_min) ≡ false

  -- What is done when t is the first topic in the order of gossips.
  pub record Scheduled (s : Cy cavl platform) (t : ℕ) (now : ℤ) (res : Err) (s1 : Cy cavl platform)
      : Type 0 where
    pub waits :
        ltb_ℤ now s.heartbeat_next ≡ true
        → (ltb_ℤ now (s.heartbeat_last +ℤ s.heartbeat_period_min) ≡ true)
          ⊎ (((s.topics t).gossip_priority ≡ 0) × (s.next_scout ≡ none))
        → (res ≡ cy_ok) × (s1 ≡ s)
    pub urgent :
        0 < (s.topics t).gossip_priority
        → Regular s now ⊎ Paced s now
        → Gossiped cavl platform rapidhash s t now s1
    pub scouts :
        (subr : ℕ)
        → (s.topics t).gossip_priority ≡ 0
        → s.next_scout ≡ some subr
        → Regular s now ⊎ Paced s now
        → Scouted cavl platform rapidhash s subr now res s1
    pub gossips : s.next_scout ≡ none → Regular s now → Gossiped cavl platform rapidhash s t now s1

  waiting :
      (s : Cy cavl platform) (t : ℕ) (now : ℤ)
      → ltb_ℤ now s.heartbeat_next ≡ true
      → (ltb_ℤ now (s.heartbeat_last +ℤ s.heartbeat_period_min) ≡ true)
        ⊎ (((s.topics t).gossip_priority ≡ 0) × (s.next_scout ≡ none))
      → is_due cavl platform rapidhash on_future s t now ≡ false
  unfolding is_due is_urgent is_some
  waiting s t now early (inl soon) = ground arith
  waiting s t now early (inr (calm, alone)) = rw alone (ground arith)

  due_urgent :
      (s : Cy cavl platform) (t : ℕ) (now : ℤ)
      → s.node_id < platform.node_id_max
      → 0 < (s.topics t).gossip_priority
      → Regular s now ⊎ Paced s now
      → is_due cavl platform rapidhash on_future s t now ≡ true
  unfolding is_due is_urgent is_some cy_joined
  due_urgent s t now j u (inl r) = ground arith
  due_urgent s t now j u (inr p) = ground arith

  due_scout :
      (s : Cy cavl platform) (t subr : ℕ) (now : ℤ)
      → s.node_id < platform.node_id_max
      → s.next_scout ≡ some subr
      → Regular s now ⊎ Paced s now
      → is_due cavl platform rapidhash on_future s t now ≡ true
  unfolding is_due is_urgent is_some cy_joined
  due_scout s t subr now j u (inl r) = ground arith
  due_scout s t subr now j u (inr p) = rw u (ground arith)

  due_when_over :
      (s : Cy cavl platform) (t : ℕ) (now : ℤ)
      → Regular s now
      → is_due cavl platform rapidhash on_future s t now ≡ true
  unfolding is_due
  due_when_over s t now r = ground arith

  idle_run :
      (s : Cy cavl platform) (t : ℕ) (now : ℤ)
      → is_due cavl platform rapidhash on_future s t now ≡ false
      → publish_if_due cavl platform rapidhash on_future s (some t) now ≡ some (cy_ok, s)
  unfolding publish_if_due
  idle_run s t now d = rw (publish_if_due, d) refl

  due_run :
      (s : Cy cavl platform) (t : ℕ) (now : ℤ)
      → is_due cavl platform rapidhash on_future s t now ≡ true
      → publish_if_due cavl platform rapidhash on_future s (some t) now
        ≡ publish_due cavl platform rapidhash on_future s t s.next_scout now
  unfolding publish_if_due
  due_run s t now d = rw (publish_if_due, d) refl

  urgent_run :
      (s : Cy cavl platform) (t : ℕ) (scout : Option ℕ) (now : ℤ)
      → ltb 0 (s.topics t).gossip_priority ≡ true
      → publish_due cavl platform rapidhash on_future s t scout now
        ≡ publish_heartbeat_gossip cavl platform rapidhash s t now
  unfolding publish_due is_urgent
  urgent_run s t none now hot = refl
  urgent_run s t (some subr) now hot = rw (publish_due, is_urgent, hot) refl

  calm_run :
      (s : Cy cavl platform) (t subr : ℕ) (now : ℤ)
      → ltb 0 (s.topics t).gossip_priority ≡ false
      → publish_due cavl platform rapidhash on_future s t (some subr) now
        ≡ publish_heartbeat_scout cavl platform rapidhash s subr now
  unfolding publish_due is_urgent
  calm_run s t subr now cold = rw (publish_due, is_urgent, cold) refl

  gossip_run :
      (s : Cy cavl platform) (t : ℕ) (now : ℤ)
      → is_due cavl platform rapidhash on_future s t now ≡ true
      → (0 < (s.topics t).gossip_priority) ⊎ (s.next_scout ≡ none)
      → publish_if_due cavl platform rapidhash on_future s (some t) now
        ≡ publish_heartbeat_gossip cavl platform rapidhash s t now
  unfolding publish_due
  gossip_run s t now d (inl u) = due_run s t now d ∙ urgent_run s t s.next_scout now (ground arith)
  gossip_run s t now d (inr n) =
      due_run s t now d ∙ ap (λ q. publish_due cavl platform rapidhash on_future s t q now) n

  scout_run :
      (s : Cy cavl platform) (t subr : ℕ) (now : ℤ)
      → is_due cavl platform rapidhash on_future s t now ≡ true
      → (s.topics t).gossip_priority ≡ 0
      → s.next_scout ≡ some subr
      → publish_if_due cavl platform rapidhash on_future s (some t) now
        ≡ publish_heartbeat_scout cavl platform rapidhash s subr now
  scout_run s t subr now d calm n =
      due_run s t now d
      ∙ ap (λ q. publish_due cavl platform rapidhash on_future s t q now) n
      ∙ calm_run s t subr now (ground arith)

  abbrev Outcome : Cy cavl platform → ℕ → ℤ → Type 0
  Outcome s t now =
      (res : Err) × (s1 : Cy cavl platform) × (publish_if_due cavl platform rapidhash on_future s
          (some t) now
        ≡ some (res, s1))
      × Scheduled s t now res s1

  gossips_now :
      (s : Cy cavl platform) (t : ℕ) (now : ℤ)
      → s.node_id < platform.node_id_max
      → is_due cavl platform rapidhash on_future s t now ≡ true
      → (0 < (s.topics t).gossip_priority) ⊎ (s.next_scout ≡ none)
      → Outcome s t now
  gossips_now s t now j d why =
      let (res, s1, run, out) = publish_heartbeat_gossip_joined cavl platform rapidhash s t now j in
      (
        res,
        s1,
        gossip_run s t now d why ∙ run,
        record {
          waits = λ early rest. absurd (ground (arith, waiting s t now early rest));
          urgent = λ u r. out;
          scouts = λ subr calm n r. absurd (no_scout why calm n);
          gossips = λ n r. out;
        },
      )
    where
      no_scout :
          {subr : ℕ}
          → (0 < (s.topics t).gossip_priority) ⊎ (s.next_scout ≡ none)
          → (s.topics t).gossip_priority ≡ 0
          → s.next_scout ≡ some subr
          → ⊥
      no_scout (inl u) calm n = omega (arith, u, calm)
      no_scout (inr m) calm n = ground arith

  scouts_now :
      (s : Cy cavl platform) (t subr : ℕ) (now : ℤ)
      → s.node_id < platform.node_id_max
      → is_due cavl platform rapidhash on_future s t now ≡ true
      → (s.topics t).gossip_priority ≡ 0
      → s.next_scout ≡ some subr
      → Outcome s t now
  scouts_now s t subr now j d calm n =
      let (res, s1, run, out) =
        publish_heartbeat_scout_joined cavl platform rapidhash s subr now j in
      (
        res,
        s1,
        scout_run s t subr now d calm n ∙ run,
        record {
          waits = λ early rest. absurd (ground (arith, waiting s t now early rest));
          urgent = λ u r. absurd (omega (arith, u, calm));
          scouts = λ root calm' n' r.
              subst (λ x. Scouted cavl platform rapidhash s x now res s1) (ground (arith, n, n'))
                out;
          gossips = λ n' r. absurd (ground arith);
        },
      )

  -- What a node with a node-ID below the bound publishes when t is the first topic in the order of
  -- gossips, at every time: an
  -- urgent gossip is published before a scout and a scout before any other gossip, urgent gossips
  -- and scouts once the shortest period since the last heartbeat is over, other gossips once the
  -- next heartbeat is due; and nothing is changed while nothing is due.
  pub publish_if_due_joined :
      (s : Cy cavl platform) (t : ℕ) (now : ℤ)
      → s.node_id < platform.node_id_max
      → (res : Err) × (s1 : Cy cavl platform) × (publish_if_due cavl platform rapidhash on_future s
            (some t)
            now
          ≡ some (res, s1))
        × Scheduled s t now res s1
  publish_if_due_joined s t now j =
      elim (Bool-cases (is_due cavl platform rapidhash on_future s t now)) [
        | inl d ↦ elim (Option-cases s.next_scout) [
          | inl n ↦ gossips_now s t now j d (inr n)
          | inr (subr, n) ↦ elim (calm_or_urgent (s.topics t).gossip_priority) [
            | inl calm ↦ scouts_now s t subr now j d calm n
            | inr u ↦ gossips_now s t now j d (inl u)
          ]
        ]
        | inr d ↦ (
          cy_ok,
          s,
          idle_run s t now d,
          record {
            waits = λ early rest. (refl, refl);
            urgent = λ u r. absurd (ground (arith, due_urgent s t now j u r));
            scouts = λ subr calm n r. absurd (ground (arith, due_scout s t subr now j n r));
            gossips = λ n r. absurd (ground (arith, due_when_over s t now r));
          },
        )
      ]
    where
      calm_or_urgent : (n : ℕ) → (n ≡ 0) ⊎ (0 < n)
      calm_or_urgent zero = inl refl
      calm_or_urgent (suc n) = inr (omega arith)
