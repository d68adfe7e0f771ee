-- ===== src/Mortal/Frame.antt =====
-- What the list of mortal topics (cy/cy.c) leaves alone: the subscribers' roots and the couplings.
use cy.Prelude.{ℕ, ◌≡◌, refl, ◌∙◌, Bool, true, false, Option, none, some, arith, if◌then◌else◌}
use cy.Index.{Cavl}
use cy.Platform.{Platform}
use cy.Node.{Cy}
use cy.Mortal.{
  set_next, set_prev, set_next_at, set_prev_at, move_head, move_tail, mortal_delist, mortal_enlist,
  mortal_animate, is_mortal,
}

module _ (cavl : Cavl) (platform : Platform) where
  pub record Coupled (s s1 : Cy cavl platform) : Type 0 where
    pub roots : s1.roots ≡ s.roots
    pub couplings : (x : ℕ) → (s1.topics x).couplings ≡ (s.topics x).couplings

  pub Coupled-refl : (s : Cy cavl platform) → Coupled s s
  Coupled-refl s = record { roots = refl; couplings = λ x. refl }

  pub Coupled-trans : {s s1 s2 : Cy cavl platform} → Coupled s s1 → Coupled s1 s2 → Coupled s s2
  Coupled-trans k l = record {
    roots = l.roots ∙ k.roots;
    couplings = λ x. l.couplings x ∙ k.couplings x;
  }

  pub set_next-Coupled :
      (s : Cy cavl platform) (y : ℕ) (v : Option ℕ) → Coupled s (set_next cavl platform s y v)
  unfolding set_next
  set_next-Coupled s y v = record { roots = refl; couplings = λ x. ground arith }

  pub set_prev-Coupled :
      (s : Cy cavl platform) (y : ℕ) (v : Option ℕ) → Coupled s (set_prev cavl platform s y v)
  unfolding set_prev
  set_prev-Coupled s y v = record { roots = refl; couplings = λ x. ground arith }

  set_next_at-Coupled :
      (s : Cy cavl platform) (o v : Option ℕ) → Coupled s (set_next_at cavl platform s o v)
  unfolding set_next_at
  set_next_at-Coupled s none v = Coupled-refl s
  set_next_at-Coupled s (some y) v = set_next-Coupled s y v

  set_prev_at-Coupled :
      (s : Cy cavl platform) (o v : Option ℕ) → Coupled s (set_prev_at cavl platform s o v)
  unfolding set_prev_at
  set_prev_at-Coupled s none v = Coupled-refl s
  set_prev_at-Coupled s (some y) v = set_prev-Coupled s y v

  moves-Coupled :
      (s : Cy cavl platform) (t : ℕ)
      → Coupled s (move_tail cavl platform (move_head cavl platform s t) t)
  unfolding move_tail move_head
  moves-Coupled s t = record { roots = ground arith; couplings = λ x. ground arith }

  pub mortal_delist-Coupled :
      (s : Cy cavl platform) (t : ℕ) → Coupled s (mortal_delist cavl platform s t)
  unfolding mortal_delist
  mortal_delist-Coupled s t =
      let s1 = set_prev_at cavl platform s (s.topics t).mortal_next (s.topics t).mortal_prev in
      let s2 = set_next_at cavl platform s1 (s1.topics t).mortal_prev (s1.topics t).mortal_next in
      let s3 = move_tail cavl platform (move_head cavl platform s2 t) t in
      Coupled-trans (set_prev_at-Coupled s (s.topics t).mortal_next (s.topics t).mortal_prev) (
        Coupled-trans (set_next_at-Coupled s1 (s1.topics t).mortal_prev (s1.topics t).mortal_next) (
          Coupled-trans (moves-Coupled s2 t) (
            Coupled-trans (set_next-Coupled s3 t none)
              (set_prev-Coupled (set_next cavl platform s3 t none) t none))))

  pub mortal_enlist-Coupled :
      (s : Cy cavl platform) (t : ℕ) → Coupled s (mortal_enlist cavl platform s t)
  unfolding mortal_enlist
  mortal_enlist-Coupled s t = record { roots = ground arith; couplings = λ x. ground arith }

  pub mortal_animate-Coupled :
      (s : Cy cavl platform) (t : ℕ) → Coupled s (mortal_animate cavl platform s t)
  unfolding mortal_animate
  mortal_animate-Coupled s t = animated (is_mortal cavl platform s t)
    where
      animated :
          (b : Bool)
          → Coupled s
              (if b then mortal_enlist cavl platform (mortal_delist cavl platform s t) t else s)
      animated true =
          Coupled-trans (mortal_delist-Coupled s t)
            (mortal_enlist-Coupled (mortal_delist cavl platform s t) t)
      animated false = Coupled-refl s
