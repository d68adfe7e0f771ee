-- ===== src/Mortal/Order.antt =====
-- mortal_animate and mortal_retire_timed_out of cy/cy.c on the list of mortal topics.
use cy.Prelude.{
  ℕ, ◌≡◌, refl, sym, ap, subst, ◌∙◌, ◌⊎◌, inl, inr, Bool, true, false, ◌&&◌, Option, none, some,
  List, [], ◌∷◌, ◌==◌, if◌then◌else◌, arith, Bool-cases,
}
use cy.Prelude.Int.{ℤ, ◌+ℤ◌, ltb_ℤ}
use cy.Index.{Cavl, has, remove_in, head_in}
use cy.Platform.{Platform}
use cy.Node.{Cy}
use cy.Mortal.{
  points_to, is_some, is_mortal, mortal_delist, mortal_animate, retire, mortal_retire_timed_out,
  topic_destroy,
}
use cy.Mortal.Fields.{next_of, prev_of}
use cy.Mortal.Links.{Chain, prev_inside, last_after, some_injective}
use cy.Mortal.Linked.{Linked, mortal_delist-Linked, mortal_enlist-Linked, head-apart, last_member}

-- The topic is moved to the head, when it is a member.
abbrev pub to_front : ℕ → List ℕ → List ℕ
to_front t xs = if has t xs then t ∷ remove_in t xs else xs

-- A member is the first one, or has a link to the one before it.
prev-has :
    (next prev : ℕ → Option ℕ) (xs : List ℕ) (t : ℕ)
    → Chain next prev none xs
    → has t xs ≡ true
    → (points_to (head_in xs) t ≡ true) ⊎ (is_some (prev t) ≡ true)
unfolding head_in points_to is_some
prev-has next prev [] t c h = absurd (ground arith)
prev-has next prev (x ∷ xs) t (before, behind, new, c) h = elim (Bool-cases (t == x)) [
  | inl e ↦ inl (ground arith)
  | inr d ↦ elim (prev_inside next prev (some x) xs t c (ground arith)) [
    | inl r ↦ inr (rw r refl)
    | inr (y, r, k) ↦ inr (rw r refl)
  ]
]

-- A chain has no member twice.
removed :
    (next prev : ℕ → Option ℕ) (p : Option ℕ) (xs : List ℕ) (t : ℕ)
    → Chain next prev p xs
    → has t (remove_in t xs) ≡ false
unfolding remove_in
removed next prev p [] t c = refl
removed next prev p (x ∷ xs) t (before, behind, new, c) =
    ground (arith, removed next prev (some x) xs t c, ap (λ z. has z xs))

module _ (cavl : Cavl) (platform : Platform) where
  is_mortal-has :
      (s : Cy cavl platform) (t : ℕ) (xs : List ℕ)
      → Linked cavl platform s xs
      → is_mortal cavl platform s t ≡ has t xs
  unfolding is_mortal is_some
  is_mortal-has s t xs l = elim (Bool-cases (has t xs)) [
    | inl e ↦ elim (prev-has (next_of cavl platform s) (prev_of cavl platform s) xs t l.chain e) [
      | inl r ↦ ground (arith, e, r, l.first)
      | inr r ↦ ground (arith, e, r)
    ]
    | inr d ↦ ground (arith, d, l.outside t d, l.first, head-apart t xs d)
  ]

  -- mortal_animate moves a mortal topic to the head of the list and keeps the order of the others;
  -- for a topic that is not mortal nothing changes.
  pub mortal_animate-Linked :
      (s : Cy cavl platform) (t : ℕ) (xs : List ℕ)
      → Linked cavl platform s xs
      → Linked cavl platform (mortal_animate cavl platform s t) (to_front t xs)
  unfolding mortal_animate
  mortal_animate-Linked s t xs l = elim (Bool-cases (has t xs)) [
    | inl e ↦
        rw (is_mortal-has s t xs l, e)
          (mortal_enlist-Linked cavl platform (mortal_delist cavl platform s t) t (remove_in t xs)
            (mortal_delist-Linked cavl platform s t xs l e)
            (removed (next_of cavl platform s) (prev_of cavl platform s) none xs t l.chain))
    | inr d ↦ rw (is_mortal-has s t xs l, d) l
  ]

  -- Neither a transfer nor a gossip within the timeout.
  abbrev pub expired : Cy cavl platform → ℕ → ℤ → Bool
  expired s t now =
      ltb_ℤ ((s.topics t).ts_received +ℤ s.mortal_topic_timeout) now
      && ltb_ℤ ((s.topics t).ts_testified +ℤ s.mortal_topic_timeout) now

  abbrev pub survivors : Cy cavl platform → Option ℕ → ℤ → List ℕ → List ℕ
  survivors s none now xs = xs
  survivors s (some t) now xs = if expired s t now then remove_in t xs else xs

  last-has : (xs : List ℕ) (t : ℕ) → last_after none xs ≡ some t → has t xs ≡ true
  last-has [] t e = ground (arith, e)
  last-has (x ∷ xs) t e =
      let (z, q, h) = last_member x xs in
      subst (λ y. has y (x ∷ xs) ≡ true) (some_injective (sym q ∙ e)) h

  retire-Linked :
      (s : Cy cavl platform) (o : Option ℕ) (now : ℤ) (xs : List ℕ)
      → Linked cavl platform s xs
      → last_after none xs ≡ o
      → Linked cavl platform (retire cavl platform s o now) (survivors s o now xs)
  unfolding retire topic_destroy
  retire-Linked s none now xs l e = l
  retire-Linked s (some t) now xs l e = elim (Bool-cases (expired s t now)) [
    | inl b ↦ rw b (mortal_delist-Linked cavl platform s t xs l (last-has xs t e))
    | inr b ↦ rw b l
  ]

  -- mortal_retire_timed_out retires the mortal topic that was animated longest ago, if neither a
  -- transfer nor a gossip reached it within the timeout, and no other topic.
  pub mortal_retire_timed_out-Linked :
      (s : Cy cavl platform) (now : ℤ) (xs : List ℕ)
      → Linked cavl platform s xs
      → Linked cavl platform
          (mortal_retire_timed_out cavl platform s now)
          (survivors s (last_after none xs) now xs)
  unfolding mortal_retire_timed_out
  mortal_retire_timed_out-Linked s now xs l =
      subst
        (λ o.
          Linked cavl platform (retire cavl platform s o now)
            (survivors s (last_after none xs) now xs))
        (sym l.last) (retire-Linked s (last_after none xs) now xs l refl)
