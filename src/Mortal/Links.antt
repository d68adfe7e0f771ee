-- ===== src/Mortal/Links.antt =====
-- Doubly linked lists, as the two links of every object.
use cy.Prelude.{
  ℕ, ◌≡◌, ◌≢◌, refl, sym, ap, ◌∙◌, subst, ◌⊎◌, inl, inr, Bool, true, false, Option, none, some,
  List, [], ◌∷◌, ◌==◌, if◌then◌else◌, arith, Bool-cases,
}
use cy.Index.{or_else, has, remove_in, head_in}
use cy.Mortal.{points_to}

-- The objects xs are linked in this order, none of them twice; `p` is the link before the first.
abbrev pub Chain : (ℕ → Option ℕ) → (ℕ → Option ℕ) → Option ℕ → List ℕ → Type 0
Chain next prev p [] = Unit {0}
Chain next prev p (x ∷ xs) =
    (prev x ≡ p) × (next x ≡ head_in xs) × (has x xs ≡ false) × Chain next prev (some x) xs

abbrev pub last_after : Option ℕ → List ℕ → Option ℕ
last_after p [] = p
last_after p (x ∷ xs) = last_after (some x) xs

-- The links after a write that takes t out: `a` is the object before t, `b` the one behind it.
unfoldable pub bypass : ℕ → Option ℕ → Option ℕ → (ℕ → Option ℕ) → ℕ → Option ℕ
unfolding points_to
bypass t a b link x = if x == t then none else if points_to a x then b else link x

pub bypass-kept :
    (t x : ℕ) (a b : Option ℕ) (link : ℕ → Option ℕ)
    → x ≢ t
    → (a ≡ some x → ⊥)
    → bypass t a b link x ≡ link x
unfolding bypass points_to
bypass-kept t x none b link d far = ground arith
bypass-kept t x (some y) b link d far = elim (Bool-cases (y == x)) [
  | inl e ↦ absurd (far (ap some (ground arith)))
  | inr n ↦ ground arith
]

bypass-moved :
    (t x : ℕ) (a b : Option ℕ) (link : ℕ → Option ℕ) → x ≢ t → a ≡ some x → bypass t a b link x ≡ b
unfolding bypass points_to
bypass-moved t x a b link d at = rw at (ground arith)

pub apart : (x y : ℕ) (xs : List ℕ) → has x xs ≡ false → has y xs ≡ true → y ≢ x
apart x y xs out inside e = ground (arith, ap (λ z. has z xs) e)

pub remove_later :
    (t x : ℕ) (xs : List ℕ) → (t == x) ≡ false → remove_in t (x ∷ xs) ≡ x ∷ remove_in t xs
unfolding remove_in
remove_later t x xs d = rw d refl

pub remove_first : (t : ℕ) (xs : List ℕ) → remove_in t (t ∷ xs) ≡ xs
unfolding remove_in
remove_first t xs = ground arith

head-first : (t y : ℕ) (ys : List ℕ) → (t == y) ≡ true → head_in (remove_in t (y ∷ ys)) ≡ head_in ys
unfolding remove_in
head-first t y ys e = rw e refl

head-later : (t y : ℕ) (ys : List ℕ) → (t == y) ≡ false → head_in (remove_in t (y ∷ ys)) ≡ some y
unfolding remove_in head_in
head-later t y ys d = rw d refl

pub head_cons : (y : ℕ) (ys : List ℕ) → head_in (y ∷ ys) ≡ some y
unfolding head_in
head_cons y ys = refl

-- What absence says of the first member, and of the others.
pub absent_head : (x y : ℕ) (ys : List ℕ) → has x (y ∷ ys) ≡ false → x ≢ y
absent_head x y ys h = ground arith

pub absent_rest : (x y : ℕ) (ys : List ℕ) → has x (y ∷ ys) ≡ false → has x ys ≡ false
absent_rest x y ys h = ground arith

pub present_head : (y : ℕ) (ys : List ℕ) → has y (y ∷ ys) ≡ true
present_head y ys = ground arith

pub present_rest : (x y : ℕ) (ys : List ℕ) → has x ys ≡ true → has x (y ∷ ys) ≡ true
present_rest x y ys h = ground arith

pub within : (t y : ℕ) (ys : List ℕ) → (t == y) ≡ false → has t (y ∷ ys) ≡ true → has t ys ≡ true
within t y ys d h = ground arith

pub clash : {b : Bool} → b ≡ true → b ≡ false → ⊥
clash h k = ground arith

pub some_injective : {x y : ℕ} → some x ≡ some y → x ≡ y
some_injective h = ap (λ o. or_else o 0) h

pub has-remove_in-false :
    (x t : ℕ) (xs : List ℕ) → has x xs ≡ false → has x (remove_in t xs) ≡ false
unfolding remove_in
has-remove_in-false x t [] h = refl
has-remove_in-false x t (y ∷ xs) h = ground (arith, has-remove_in-false x t xs)

module _ (next prev : ℕ → Option ℕ) where
  pub Chain-frame :
      {next1 prev1 : ℕ → Option ℕ} (p : Option ℕ) (xs : List ℕ)
      → ((x : ℕ) → has x xs ≡ true → (next1 x ≡ next x) × (prev1 x ≡ prev x))
      → Chain next prev p xs
      → Chain next1 prev1 p xs
  Chain-frame p [] same c = c
  Chain-frame p (x ∷ xs) same (before, behind, new, c) =
      let (n, q) = same x (ground arith) in
      (ground arith, ground arith, new, Chain-frame (some x) xs (λ y h. same y (ground arith)) c)

  -- The links of a member lead to members, or out at the ends.
  pub prev_inside :
      (p : Option ℕ) (xs : List ℕ) (t : ℕ)
      → Chain next prev p xs
      → has t xs ≡ true
      → (prev t ≡ p) ⊎ ((y : ℕ) × (prev t ≡ some y) × (has y xs ≡ true))
  prev_inside p [] t c h = absurd (ground arith)
  prev_inside p (x ∷ xs) t (before, behind, new, c) h = elim (Bool-cases (t == x)) [
    | inl e ↦ inl (ground arith)
    | inr d ↦ elim (prev_inside (some x) xs t c (ground arith)) [
      | inl q ↦ inr (x, q, ground arith)
      | inr (y, q, i) ↦ inr (y, q, ground arith)
    ]
  ]

  pub next_inside :
      (p : Option ℕ) (xs : List ℕ) (t : ℕ)
      → Chain next prev p xs
      → has t xs ≡ true
      → (next t ≡ none) ⊎ ((y : ℕ) × (next t ≡ some y) × (has y xs ≡ true))
  unfolding head_in
  next_inside p [] t c h = absurd (ground arith)
  next_inside p (x ∷ []) t (before, behind, new, c) h = inl (ground arith)
  next_inside p (x ∷ z ∷ xs) t (before, behind, new, c) h = elim (Bool-cases (t == x)) [
    | inl e ↦ inr (z, ground arith, ground arith)
    | inr d ↦ elim (next_inside (some x) (z ∷ xs) t c (ground arith)) [
      | inl q ↦ inl q
      | inr (y, q, i) ↦ inr (y, q, ground arith)
    ]
  ]

  -- Taking out the first member: the links of the others close over it.
  bypass_first :
      (p : Option ℕ) (t : ℕ) (xs : List ℕ)
      → Chain next prev p (t ∷ xs)
      → ((q : ℕ) → p ≡ some q → has q (t ∷ xs) ≡ false)
      → Chain (bypass t (prev t) (next t) next) (bypass t (next t) (prev t) prev) p xs
  bypass_first p t [] c out = tt
  bypass_first p t (y ∷ ys) (before, behind, new, (before1, behind1, new1, c)) out =
      let ne : y ≢ t = λ e. absent_head t y ys new (sym e) in
      let ahead : next t ≡ some y = behind ∙ head_cons y ys in
      let free : (z : ℕ) → has z (y ∷ ys) ≡ true → prev t ≡ some z → ⊥ =
        λ z i h. clash (present_rest z t (y ∷ ys) i) (out z (sym before ∙ h)) in
      (
        bypass-moved t y (next t) (prev t) prev ne ahead ∙ before,
        bypass-kept t y (prev t) (next t) next ne (free y (present_head y ys)) ∙ behind1,
        new1,
        Chain-frame (some y) ys
            (λ z i.
              let nz : z ≢ t = apart t z ys (absent_rest t y ys new) i in
              let ny : z ≢ y = apart y z ys new1 i in
              (
                bypass-kept t z (prev t) (next t) next nz (free z (present_rest z y ys i)),
                bypass-kept t z (next t) (prev t) prev nz
                    (λ h. ny (some_injective (sym h ∙ ahead))),
              ))
            c,
      )

  -- The link of x, when t lies behind it.
  bypass_link :
      (x t : ℕ) (p : Option ℕ) (xs : List ℕ)
      → Chain next prev p (x ∷ xs)
      → has t xs ≡ true
      → x ≢ t
      → bypass t (prev t) (next t) next x ≡ head_in (remove_in t xs)
  unfolding remove_in head_in
  bypass_link x t p [] c h ne = absurd (ground arith)
  bypass_link x t p (y ∷ ys) (before, behind, new, (before1, behind1, new1, c)) h ne =
      elim (Bool-cases (t == y)) [
        | inl e ↦
            let same : t ≡ y = ground arith in
            bypass-moved t x (prev t) (next t) next ne (ap prev same ∙ before1)
            ∙ ap next same
            ∙ behind1
            ∙ sym (head-first t y ys e)
        | inr d ↦
            bypass-kept t x (prev t) (next t) next ne (λ q.
              elim (prev_inside (some y) ys t c (within t y ys d h)) [
                | inl r ↦ absent_head x y ys new (some_injective (sym q ∙ r))
                | inr (z, r, i) ↦
                    apart x z ys (absent_rest x y ys new) i (some_injective (sym r ∙ q))
              ])
            ∙ behind
            ∙ head_cons y ys
            ∙ sym (head-later t y ys d)
      ]

  -- Taking out a member: the links of the others close over it.
  pub Chain-bypass :
      (p : Option ℕ) (xs : List ℕ) (t : ℕ)
      → Chain next prev p xs
      → has t xs ≡ true
      → ((q : ℕ) → p ≡ some q → has q xs ≡ false)
      → Chain (bypass t (prev t) (next t) next) (bypass t (next t) (prev t) prev) p (remove_in t xs)
  Chain-bypass p [] t c h out = absurd (ground arith)
  Chain-bypass p (x ∷ xs) t (before, behind, new, c) h out = elim (Bool-cases (t == x)) [
    | inl e ↦
        let same : t ≡ x = ground arith in
        subst
          (λ z.
            Chain next prev p (z ∷ xs)
            → ((q : ℕ) → p ≡ some q → has q (z ∷ xs) ≡ false)
            → Chain (bypass t (prev t) (next t) next) (bypass t (next t) (prev t) prev) p
                (remove_in t (z ∷ xs)))
          same (λ c' out'. rw (remove_first t xs) (bypass_first p t xs c' out'))
          (before, behind, new, c) out
    | inr d ↦
        let inside : has t xs ≡ true = ground arith in
        let ne : x ≢ t = ground arith in
        rw (remove_later t x xs d) (
          bypass-kept t x (next t) (prev t) prev ne (λ q.
                elim (next_inside (some x) xs t c inside) [
                  | inl r ↦ ground (arith, sym r ∙ q)
                  | inr (z, r, i) ↦ apart x z xs new i (some_injective (sym r ∙ q))
                ])
              ∙ before,
          bypass_link x t p xs (before, behind, new, c) inside ne,
          has-remove_in-false x t xs new,
          Chain-bypass (some x) xs t c inside (λ q e. ground (arith, some_injective e)),
        )
  ]
