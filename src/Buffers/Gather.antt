-- ===== src/Buffers/Gather.antt =====
-- cy_buffer_borrowed_gather of cy/cy.c against the concatenation of the fragments.
use cy.Prelude.{
  ℕ, zero, suc, ◌+◌, ◌-◌, ◌≤◌, ◌<◌, ◌≡◌, refl, sym, ap, ap₂, ◌∙◌, inl, inr, none, some, List, [],
  ◌∷◌, ◌++◌, ltb, arith, length, take, length-append, Bool-cases, ltb→lt, ◌⊎◌,
}
use cy.Age.{smaller}
use cy.Buffers.{size_from, cy_buffer_borrowed_size, memmove, gather_from, cy_buffer_borrowed_gather}

-- The bytes of all fragments.
abbrev pub joined : List (List ℕ) → List ℕ
joined [] = []
joined (f ∷ fs) = f ++ joined fs

size_from-joined : (out : ℕ) (fs : List (List ℕ)) → size_from out fs ≡ out + length (joined fs)
unfolding size_from
size_from-joined out [] = omega arith
size_from-joined out (f ∷ fs) =
    omega (arith, size_from-joined (out + length f) fs, length-append f (joined fs))

length-memmove : (o : ℕ) (d s : List ℕ) → length (memmove o d s) ≡ length d
unfolding memmove
length-memmove o [] s = refl
length-memmove zero (d ∷ ds) [] = refl
length-memmove zero (d ∷ ds) (b ∷ bs) = ap suc (length-memmove zero ds bs)
length-memmove (suc o) (d ∷ ds) s = ap suc (length-memmove o ds s)

memmove-take : (o m : ℕ) (d s : List ℕ) → length d ≤ o + m → memmove o d (take m s) ≡ memmove o d s
unfolding memmove
memmove-take o m [] s h = refl
memmove-take zero zero (d ∷ ds) s h = absurd (omega arith)
memmove-take zero (suc m) (d ∷ ds) [] h = refl
memmove-take zero (suc m) (d ∷ ds) (b ∷ bs) h =
    ap (λ z. b ∷ z) (memmove-take zero m ds bs (omega arith))
memmove-take (suc o) m (d ∷ ds) s h = ap (λ z. d ∷ z) (memmove-take o m ds s (omega arith))

memmove-append :
    (o k : ℕ) (d f g : List ℕ)
    → k ≡ o + length f
    → memmove k (memmove o d f) g ≡ memmove o d (f ++ g)
unfolding memmove
memmove-append o k [] f g h = refl
memmove-append zero zero (d ∷ ds) [] g h = refl
memmove-append zero (suc k) (d ∷ ds) [] g h = absurd (omega arith)
memmove-append zero zero (d ∷ ds) (b ∷ bs) g h = absurd (omega arith)
memmove-append zero (suc k) (d ∷ ds) (b ∷ bs) g h =
    ap (λ z. b ∷ z) (memmove-append zero k ds bs g (omega arith))
memmove-append (suc o) zero (d ∷ ds) f g h = absurd (omega arith)
memmove-append (suc o) (suc k) (d ∷ ds) f g h =
    ap (λ z. d ∷ z) (memmove-append o k ds f g (omega arith))

memmove_full : (o : ℕ) (d s : List ℕ) → length d ≤ o → memmove o d s ≡ d
unfolding memmove
memmove_full o [] s h = refl
memmove_full zero (d ∷ ds) s h = absurd (omega arith)
memmove_full (suc o) (d ∷ ds) s h = ap (λ z. d ∷ z) (memmove_full o ds s (omega arith))

pub take_all : (n : ℕ) (f : List ℕ) → length f ≤ n → take n f ≡ f
take_all zero [] h = refl
take_all zero (x ∷ f) h = absurd (omega arith)
take_all (suc n) [] h = refl
take_all (suc n) (x ∷ f) h = ap (λ z. x ∷ z) (take_all n f (omega arith))

memmove_nothing : (o : ℕ) (d : List ℕ) → memmove o d [] ≡ d
unfolding memmove
memmove_nothing o [] = refl
memmove_nothing zero (d ∷ ds) = refl
memmove_nothing (suc o) (d ∷ ds) = ap (λ z. d ∷ z) (memmove_nothing o ds)

smaller_cases : (a b : ℕ) → ((smaller a b ≡ a) × (a ≤ b)) ⊎ ((smaller a b ≡ b) × (b ≤ a))
unfolding smaller
smaller_cases a b = ground arith

take-smaller : (m : ℕ) (f : List ℕ) → take (smaller (length f) m) f ≡ take m f
take-smaller m f = elim (smaller_cases (length f) m) [
  | inl (e, h) ↦ rw e (take_all (length f) f (omega arith) ∙ sym (take_all m f h))
  | inr (e, h) ↦ rw e refl
]

-- One fragment, of which only a part may have room.
memmove-joined :
    (o : ℕ) (d f g : List ℕ)
    → memmove
        (o + smaller (length f) (length d - o))
        (memmove o d (take (smaller (length f) (length d - o)) f))
        g
      ≡ memmove o d (f ++ g)
memmove-joined o d f g =
    let part : memmove o d (take (smaller (length f) (length d - o)) f) ≡ memmove o d f =
      ap (memmove o d) (take-smaller (length d - o) f)
      ∙ memmove-take o (length d - o) d f (omega arith) in
    rw part (elim (smaller_cases (length f) (length d - o)) [
      | inl (e, h) ↦ rw e (memmove-append o (o + length f) d f g refl)
      | inr (e, h) ↦ rw e (
          memmove_full (o + (length d - o)) (memmove o d f) g (omega (arith, length-memmove o d f))
          ∙ sym
              (memmove_full (o + length f) (memmove o d f) g (omega (arith, length-memmove o d f)))
          ∙ memmove-append o (o + length f) d f g refl)
    ])

smaller_reached :
    (o f m j : ℕ) → o < m → smaller (o + smaller f (m - o) + j) m ≡ smaller (o + (f + j)) m
unfolding smaller
smaller_reached o f m j h = ground arith

smaller_right : (a b : ℕ) → b ≤ a → smaller a b ≡ b
unfolding smaller
smaller_right a b h = ground arith

pub smaller_left : (a b : ℕ) → a ≤ b → smaller a b ≡ a
unfolding smaller
smaller_left a b h = ground arith

pub gather_from-joined :
    (fs : List (List ℕ)) (o : ℕ) (d : List ℕ)
    → o ≤ length d
    → gather_from fs o d ≡ (smaller (o + length (joined fs)) (length d), memmove o d (joined fs))
unfolding gather_from
gather_from-joined [] o d h =
    ap₂ (λ a b. (a, b)) (omega (arith, smaller_left (o + 0) (length d) (omega arith)))
      (sym (memmove_nothing o d))
gather_from-joined (f ∷ fs) o d h = elim (Bool-cases (ltb o (length d))) [
  | inl below ↦
      let n = smaller (length f) (length d - o) in
      let d' = memmove o d (take n f) in
      let kept = length-memmove o d (take n f) in
      let room : o + n ≤ length d' =
        omega (arith, kept, smaller_cases (length f) (length d - o), ltb→lt o (length d) below) in
      rw below (
        gather_from-joined fs (o + n) d' room
        ∙ ap₂ (λ a b. (a, b))
            (ap (smaller (o + n + length (joined fs))) kept
              ∙ smaller_reached o (length f) (length d) (length (joined fs))
                  (ltb→lt o (length d) below)
              ∙ ap (λ z. smaller (o + z) (length d)) (sym (length-append f (joined fs))))
            (memmove-joined o d f (joined fs)))
  | inr full ↦
      let all : length d ≤ o = ground arith in
      rw full (
        ap₂ (λ a b. (a, b))
          (omega (arith, smaller_right (o + length (f ++ joined fs)) (length d) (omega arith)))
          (sym (memmove_full o d (f ++ joined fs) all)))
]

-- The size of a payload is the number of its bytes. A gather fills the destination with as many of
-- them as it has room for, in their order, keeps what lies behind them, and returns how many bytes
-- it wrote; with no destination it does nothing and returns zero.
pub cy_buffer_borrowed_gather-joined :
    (payload : List (List ℕ)) (dest : List ℕ)
    → (cy_buffer_borrowed_size payload ≡ length (joined payload))
      × (cy_buffer_borrowed_gather payload none ≡ (0, none))
      × (cy_buffer_borrowed_gather payload (some dest) ≡ (
        smaller (cy_buffer_borrowed_size payload) (length dest),
        some (memmove 0 dest (joined payload)),
      ))
unfolding cy_buffer_borrowed_size cy_buffer_borrowed_gather
cy_buffer_borrowed_gather-joined payload dest = (
  omega (arith, size_from-joined 0 payload),
  refl,
  rw (gather_from-joined payload 0 dest (omega arith), size_from-joined 0 payload) refl,
)
