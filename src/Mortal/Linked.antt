-- ===== src/Mortal/Linked.antt =====
-- The mortal topics of cy/cy.c as a list, under mortal_delist and mortal_enlist.
use cy.Prelude.{
  ℕ, ◌≡◌, ◌≢◌, refl, sym, ap, subst, ◌∙◌, inl, inr, true, false, Option, none, some, List, [], ◌∷◌,
  ◌==◌, if◌then◌else◌, arith, Bool-cases,
}
use cy.Index.{Cavl, has, remove_in, head_in}
use cy.Platform.{Platform}
use cy.Node.{Cy}
use cy.Mortal.{points_to, is_some, mortal_delist, mortal_enlist}
use cy.Mortal.Fields.{
  next_of, prev_of, next_of-mortal_delist, prev_of-mortal_delist, head-mortal_delist,
  tail-mortal_delist, next_of-mortal_enlist, prev_of-mortal_enlist, head-mortal_enlist,
  tail-mortal_enlist,
}
use cy.Allocation.Rank.{has-remove_in_ne}
use cy.Mortal.Links.{
  apart, clash, absent_head, absent_rest, some_injective, present_head, present_rest, within,
  remove_later, remove_first, head_cons, prev_inside, next_inside, bypass-kept, Chain, Chain-frame,
  Chain-bypass, last_after, bypass,
}

head-remove_in :
    (next prev : ℕ → Option ℕ) (p : Option ℕ) (xs : List ℕ) (t : ℕ)
    → Chain next prev p xs
    → has t xs ≡ true
    → head_in (remove_in t xs) ≡ (if points_to (head_in xs) t then next t else head_in xs)
unfolding head_in remove_in points_to
head-remove_in next prev p [] t c h = ground arith
head-remove_in next prev p (x ∷ xs) t (before, behind, new, c) h = elim (Bool-cases (t == x)) [
  | inl e ↦ let same : t ≡ x = ground arith in ground (arith, ap next same)
  | inr d ↦ ground arith
]

pub last_member :
    (x : ℕ) (xs : List ℕ) → (z : ℕ) × (last_after (some x) xs ≡ some z) × (has z (x ∷ xs) ≡ true)
last_member x [] = (x, refl, present_head x [])
last_member x (y ∷ ys) = let (z, e, h) = last_member y ys in (z, e, present_rest z x (y ∷ ys) h)

pub points_to_self : (t : ℕ) → points_to (some t) t ≡ true
unfolding points_to
points_to_self t = ground arith

differs : (x y : ℕ) → x ≢ y → (x == y) ≡ false
differs x y ne = ground arith

bypass_outside :
    (t x : ℕ) (a b : Option ℕ) (link : ℕ → Option ℕ) (xs : List ℕ)
    → (has x xs ≡ false → link x ≡ none)
    → has x (remove_in t xs) ≡ false
    → ((q : ℕ) → a ≡ some q → has q xs ≡ true)
    → bypass t a b link x ≡ none
unfolding bypass
bypass_outside t x a b link xs free i inside = elim (Bool-cases (x == t)) [
  | inl e ↦ rw e refl
  | inr d ↦
      let ne : x ≢ t = ground arith in
      let out : has x xs ≡ false = sym (has-remove_in_ne x t xs ne) ∙ i in
      bypass-kept t x a b link ne (λ q. clash (inside x q) out) ∙ free out
]

points_to-false : (o : Option ℕ) (t z : ℕ) → o ≡ some z → z ≢ t → points_to o t ≡ false
unfolding points_to
points_to-false o t z e ne = rw e (ground arith)

last-remove_first :
    (prev : ℕ → Option ℕ) (p : Option ℕ) (t : ℕ) (xs : List ℕ)
    → prev t ≡ p
    → has t xs ≡ false
    → last_after p xs
      ≡ (if points_to (last_after (some t) xs) t then prev t else last_after (some t) xs)
last-remove_first prev p t [] before new = rw (points_to_self t) (sym before)
last-remove_first prev p t (y ∷ ys) before new =
    let (z, e, h) = last_member y ys in
    rw (points_to-false (last_after (some y) ys) t z e (apart t z (y ∷ ys) new h)) refl

last-remove_in :
    (next prev : ℕ → Option ℕ) (p : Option ℕ) (xs : List ℕ) (t : ℕ)
    → Chain next prev p xs
    → has t xs ≡ true
    → last_after p (remove_in t xs)
      ≡ (if points_to (last_after p xs) t then prev t else last_after p xs)
last-remove_in next prev p [] t c h = ground arith
last-remove_in next prev p (x ∷ xs) t (before, behind, new, c) h = elim (Bool-cases (t == x)) [
  | inl e ↦
      let same : t ≡ x = ground arith in
      subst
        (λ z.
          last_after p (remove_in t (z ∷ xs))
          ≡ (if points_to (last_after (some z) xs) t then prev t else last_after (some z) xs))
        same
        (rw (remove_first t xs)
          (last-remove_first prev p t xs (ap prev same ∙ before) (ap (λ z. has z xs) same ∙ new)))
  | inr d ↦
      rw (remove_later t x xs d) (last-remove_in next prev (some x) xs t c (within t x xs d h))
]

pub head-apart : (t : ℕ) (xs : List ℕ) → has t xs ≡ false → points_to (head_in xs) t ≡ false
unfolding points_to head_in
head-apart t [] h = refl
head-apart t (x ∷ xs) h = ground arith

last_enlist :
    (t : ℕ) (xs : List ℕ)
    → (if is_some (last_after none xs) then last_after none xs else some t) ≡ last_after (some t) xs
unfolding is_some
last_enlist t [] = refl
last_enlist t (y ∷ ys) = let (z, e, h) = last_member y ys in rw e refl

module _ (cavl : Cavl) (platform : Platform) where
  -- The mortal topics are xs, the one animated last in front; no other topic has a link.
  pub record Linked (s : Cy cavl platform) (xs : List ℕ) : Type 0 where
    pub chain : Chain (next_of cavl platform s) (prev_of cavl platform s) none xs
    pub first : s.mortal_head ≡ head_in xs
    pub last : s.mortal_tail ≡ last_after none xs
    pub outside :
        (x : ℕ)
        → has x xs ≡ false
        → (next_of cavl platform s x ≡ none) × (prev_of cavl platform s x ≡ none)

  -- mortal_delist takes a mortal topic out of the list, wherever it stands.
  pub mortal_delist-Linked :
      (s : Cy cavl platform) (t : ℕ) (xs : List ℕ)
      → Linked s xs
      → has t xs ≡ true
      → Linked (mortal_delist cavl platform s t) (remove_in t xs)
  mortal_delist-Linked s t xs l h = record {
    chain =
        Chain-frame
          (bypass t (prev_of cavl platform s t) (next_of cavl platform s t)
            (next_of cavl platform s))
          (bypass t (next_of cavl platform s t) (prev_of cavl platform s t)
            (prev_of cavl platform s))
          none (remove_in t xs)
          (λ x i.
            (next_of-mortal_delist cavl platform s t x, prev_of-mortal_delist cavl platform s t x))
          (Chain-bypass (next_of cavl platform s) (prev_of cavl platform s) none xs t l.chain h
            (λ q e. ground arith));
    first =
        head-mortal_delist cavl platform s t
        ∙ rw l.first (
            sym (
              head-remove_in (next_of cavl platform s) (prev_of cavl platform s) none xs t l.chain
                h));
    last =
        tail-mortal_delist cavl platform s t
        ∙ rw l.last (
            sym (
              last-remove_in (next_of cavl platform s) (prev_of cavl platform s) none xs t l.chain
                h));
    outside = λ x i. (
      next_of-mortal_delist cavl platform s t x
          ∙ bypass_outside t x (prev_of cavl platform s t) (next_of cavl platform s t)
              (next_of cavl platform s) xs (λ o. (l.outside x o).0) i
              (λ q e.
                elim (prev_inside (next_of cavl platform s) (prev_of cavl platform s) none xs t
                  l.chain h) [
                    | inl r ↦ ground (arith, sym r ∙ e)
                    | inr (y, r, k) ↦ subst (λ z. has z xs ≡ true) (some_injective (sym r ∙ e)) k
                  ]),
      prev_of-mortal_delist cavl platform s t x
          ∙ bypass_outside t x (next_of cavl platform s t) (prev_of cavl platform s t)
              (prev_of cavl platform s) xs (λ o. (l.outside x o).1) i
              (λ q e.
                elim (next_inside (next_of cavl platform s) (prev_of cavl platform s) none xs t
                  l.chain h) [
                    | inl r ↦ ground (arith, sym r ∙ e)
                    | inr (y, r, k) ↦ subst (λ z. has z xs ≡ true) (some_injective (sym r ∙ e)) k
                  ]),
    );
  }

  -- The links of the first member change, when another topic is put before it.
  enlist-Chain :
      (s : Cy cavl platform) (t : ℕ) (xs : List ℕ)
      → s.mortal_head ≡ head_in xs
      → Chain (next_of cavl platform s) (prev_of cavl platform s) none xs
      → has t xs ≡ false
      → Chain
          (next_of cavl platform (mortal_enlist cavl platform s t))
          (prev_of cavl platform (mortal_enlist cavl platform s t))
          (some t)
          xs
  enlist-Chain s t [] e c h = tt
  enlist-Chain s t (y ∷ ys) e (before, behind, new, c) h =
      let next' = next_of-mortal_enlist cavl platform s t in
      let prev' = prev_of-mortal_enlist cavl platform s t in
      let front = e ∙ head_cons y ys in
      (
        prev' y ∙ rw front (rw (points_to_self y) refl),
        next' y ∙ rw (differs y t (λ q. absent_head t y ys h (sym q))) behind,
        new,
        Chain-frame (next_of cavl platform s) (prev_of cavl platform s) (some y) ys
            (λ z i. (
              next' z ∙ rw (differs z t (apart t z ys (absent_rest t y ys h) i)) refl,
              prev' z
                  ∙ rw (points_to-false s.mortal_head z y front (λ q. apart y z ys new i (sym q)))
                      refl,
            ))
            c,
      )

  -- mortal_enlist puts a topic that is not mortal yet to the head of the list.
  pub mortal_enlist-Linked :
      (s : Cy cavl platform) (t : ℕ) (xs : List ℕ)
      → Linked s xs
      → has t xs ≡ false
      → Linked (mortal_enlist cavl platform s t) (t ∷ xs)
  mortal_enlist-Linked s t xs l h = record {
    chain = (
      prev_of-mortal_enlist cavl platform s t t
          ∙ rw l.first (ground (arith, (l.outside t h).1, head-apart t xs h)),
      next_of-mortal_enlist cavl platform s t t ∙ ground (arith, l.first),
      h,
      enlist-Chain s t xs l.first l.chain h,
    );
    first = head-mortal_enlist cavl platform s t ∙ sym (head_cons t xs);
    last = tail-mortal_enlist cavl platform s t ∙ rw l.last (last_enlist t xs);
    outside = λ x i. (
      next_of-mortal_enlist cavl platform s t x
          ∙ rw (differs x t (absent_head x t xs i)) (l.outside x (absent_rest x t xs i)).0,
      prev_of-mortal_enlist cavl platform s t x
          ∙ rw l.first (
              ground (
                arith,
                (l.outside x (absent_rest x t xs i)).1,
                head-apart x xs (absent_rest x t xs i),
              )),
    );
  }
