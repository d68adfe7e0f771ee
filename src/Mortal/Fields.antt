-- ===== src/Mortal/Fields.antt =====
-- The links after mortal_delist and mortal_enlist (cy/cy.c), object by object.
use cy.Prelude.{ℕ, ◌≡◌, refl, ap, ◌∙◌, Option, none, some, ◌==◌, if◌then◌else◌, arith}
use cy.Index.{Cavl}
use cy.Platform.{Platform}
use cy.Node.{Cy}
use cy.Mortal.{
  points_to, is_some, mortal_delist, mortal_enlist, set_next, set_prev, set_next_at, set_prev_at,
  move_head, move_tail,
}
use cy.Mortal.Links.{bypass}

module _ (cavl : Cavl) (platform : Platform) where
  abbrev pub next_of : Cy cavl platform → ℕ → Option ℕ
  next_of s x = (s.topics x).mortal_next

  abbrev pub prev_of : Cy cavl platform → ℕ → Option ℕ
  prev_of s x = (s.topics x).mortal_prev

  next_of-set_next :
      (s : Cy cavl platform) (y : ℕ) (v : Option ℕ) (x : ℕ)
      → next_of (set_next cavl platform s y v) x ≡ (if x == y then v else next_of s x)
  unfolding set_next
  next_of-set_next s y v x = ground arith

  prev_of-set_next :
      (s : Cy cavl platform) (y : ℕ) (v : Option ℕ) (x : ℕ)
      → prev_of (set_next cavl platform s y v) x ≡ prev_of s x
  unfolding set_next
  prev_of-set_next s y v x = ground arith

  next_of-set_prev :
      (s : Cy cavl platform) (y : ℕ) (v : Option ℕ) (x : ℕ)
      → next_of (set_prev cavl platform s y v) x ≡ next_of s x
  unfolding set_prev
  next_of-set_prev s y v x = ground arith

  prev_of-set_prev :
      (s : Cy cavl platform) (y : ℕ) (v : Option ℕ) (x : ℕ)
      → prev_of (set_prev cavl platform s y v) x ≡ (if x == y then v else prev_of s x)
  unfolding set_prev
  prev_of-set_prev s y v x = ground arith

  next_of-set_next_at :
      (s : Cy cavl platform) (o v : Option ℕ) (x : ℕ)
      → next_of (set_next_at cavl platform s o v) x ≡ (if points_to o x then v else next_of s x)
  unfolding set_next_at points_to
  next_of-set_next_at s o v x = ground arith

  prev_of-set_next_at :
      (s : Cy cavl platform) (o v : Option ℕ) (x : ℕ)
      → prev_of (set_next_at cavl platform s o v) x ≡ prev_of s x
  unfolding set_next_at
  prev_of-set_next_at s o v x = ground arith

  next_of-set_prev_at :
      (s : Cy cavl platform) (o v : Option ℕ) (x : ℕ)
      → next_of (set_prev_at cavl platform s o v) x ≡ next_of s x
  unfolding set_prev_at
  next_of-set_prev_at s o v x = ground arith

  prev_of-set_prev_at :
      (s : Cy cavl platform) (o v : Option ℕ) (x : ℕ)
      → prev_of (set_prev_at cavl platform s o v) x ≡ (if points_to o x then v else prev_of s x)
  unfolding set_prev_at points_to
  prev_of-set_prev_at s o v x = ground arith

  next_of-moves :
      (s : Cy cavl platform) (t x : ℕ)
      → next_of (move_tail cavl platform (move_head cavl platform s t) t) x ≡ next_of s x
  unfolding move_tail move_head
  next_of-moves s t x = ground arith

  prev_of-moves :
      (s : Cy cavl platform) (t x : ℕ)
      → prev_of (move_tail cavl platform (move_head cavl platform s t) t) x ≡ prev_of s x
  unfolding move_tail move_head
  prev_of-moves s t x = ground arith

  same_prev :
      (s : Cy cavl platform) (o : Option ℕ) (t : ℕ)
      → prev_of (set_prev_at cavl platform s o (prev_of s t)) t ≡ prev_of s t
  same_prev s o t = prev_of-set_prev_at s o (prev_of s t) t ∙ ground arith

  pub next_of-mortal_delist :
      (s : Cy cavl platform) (t x : ℕ)
      → next_of (mortal_delist cavl platform s t) x
        ≡ bypass t (prev_of s t) (next_of s t) (next_of s) x
  unfolding mortal_delist bypass
  next_of-mortal_delist s t x =
      let s1 = set_prev_at cavl platform s (next_of s t) (prev_of s t) in
      let s2 = set_next_at cavl platform s1 (prev_of s1 t) (next_of s1 t) in
      let s3 = move_tail cavl platform (move_head cavl platform s2 t) t in
      next_of-set_prev (set_next cavl platform s3 t none) t none x
      ∙ next_of-set_next s3 t none x
      ∙ ap (λ o. if x == t then none else o)
          (next_of-moves s2 t x
            ∙ next_of-set_next_at s1 (prev_of s1 t) (next_of s1 t) x
            ∙ rw
                (
                  same_prev s (next_of s t) t,
                  next_of-set_prev_at s (next_of s t) (prev_of s t) t,
                  next_of-set_prev_at s (next_of s t) (prev_of s t) x,
                )
                refl)

  pub prev_of-mortal_delist :
      (s : Cy cavl platform) (t x : ℕ)
      → prev_of (mortal_delist cavl platform s t) x
        ≡ bypass t (next_of s t) (prev_of s t) (prev_of s) x
  unfolding mortal_delist bypass
  prev_of-mortal_delist s t x =
      let s1 = set_prev_at cavl platform s (next_of s t) (prev_of s t) in
      let s2 = set_next_at cavl platform s1 (prev_of s1 t) (next_of s1 t) in
      let s3 = move_tail cavl platform (move_head cavl platform s2 t) t in
      prev_of-set_prev (set_next cavl platform s3 t none) t none x
      ∙ ap (λ o. if x == t then none else o)
          (prev_of-set_next s3 t none x
            ∙ prev_of-moves s2 t x
            ∙ prev_of-set_next_at s1 (prev_of s1 t) (next_of s1 t) x
            ∙ prev_of-set_prev_at s (next_of s t) (prev_of s t) x)

  pub head-mortal_delist :
      (s : Cy cavl platform) (t : ℕ)
      → (mortal_delist cavl platform s t).mortal_head
        ≡ (if points_to s.mortal_head t then next_of s t else s.mortal_head)
  unfolding mortal_delist points_to set_next set_prev set_next_at set_prev_at move_head move_tail
  head-mortal_delist s t = ground arith

  pub tail-mortal_delist :
      (s : Cy cavl platform) (t : ℕ)
      → (mortal_delist cavl platform s t).mortal_tail
        ≡ (if points_to s.mortal_tail t then prev_of s t else s.mortal_tail)
  unfolding mortal_delist points_to set_next set_prev set_next_at set_prev_at move_head move_tail
  tail-mortal_delist s t = ground arith

  pub next_of-mortal_enlist :
      (s : Cy cavl platform) (t x : ℕ)
      → next_of (mortal_enlist cavl platform s t) x
        ≡ (if x == t then s.mortal_head else next_of s x)
  unfolding mortal_enlist
  next_of-mortal_enlist s t x = ground arith

  pub prev_of-mortal_enlist :
      (s : Cy cavl platform) (t x : ℕ)
      → prev_of (mortal_enlist cavl platform s t) x
        ≡ (if points_to s.mortal_head x then some t else prev_of s x)
  unfolding mortal_enlist points_to
  prev_of-mortal_enlist s t x = ground arith

  pub head-mortal_enlist :
      (s : Cy cavl platform) (t : ℕ) → (mortal_enlist cavl platform s t).mortal_head ≡ some t
  unfolding mortal_enlist
  head-mortal_enlist s t = ground arith

  pub tail-mortal_enlist :
      (s : Cy cavl platform) (t : ℕ)
      → (mortal_enlist cavl platform s t).mortal_tail
        ≡ (if is_some s.mortal_tail then s.mortal_tail else some t)
  unfolding mortal_enlist
  tail-mortal_enlist s t = ground arith
