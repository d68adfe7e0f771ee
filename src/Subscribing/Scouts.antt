-- ===== src/Subscribing/Scouts.antt =====
-- The queue of scouts of cy/cy.c, which ensure_subscriber_root lengthens: its links seen as a list.
use cy.Prelude.{
  ℕ, zero, suc, ◌<◌, ◌≡◌, ◌≢◌, refl, ap, ◌∙◌, true, false, Option, none, some, List, [], ◌∷◌, ◌++◌,
  arith, length,
}
use cy.Index.{Cavl, has}
use cy.Platform.{Platform}
use cy.Node.{SubscriberRoot, Cy, update}
use cy.Subscribing.{set_root, last_scout, append_behind, append_scout}

-- From the link o on, the roots xs follow each other.
abbrev pub Chain : (ℕ → SubscriberRoot) → Option ℕ → List ℕ → Type 0
Chain roots o [] = o ≡ none
Chain roots o (x ∷ xs) = (o ≡ some x) × Chain roots (roots x).next_scout xs

abbrev pub Once : List ℕ → Type 0
Once [] = Unit {0}
Once (x ∷ xs) = (has x xs ≡ false) × Once xs

abbrev last_of : ℕ → List ℕ → ℕ
last_of x [] = x
last_of x (y ∷ ys) = last_of y ys

has-last_of : (x : ℕ) (xs : List ℕ) → has (last_of x xs) (x ∷ xs) ≡ true
has-last_of x [] = ground arith
has-last_of x (y ∷ ys) = ground (arith, has-last_of y ys)

-- The link to the new root is written into the last one.
abbrev linked : (ℕ → SubscriberRoot) → ℕ → ℕ → ℕ → SubscriberRoot
linked roots last root = update roots last (record (roots last) { next_scout = some root })

linked_same :
    (roots : ℕ → SubscriberRoot) (last root : ℕ)
    → (linked roots last root last).next_scout ≡ some root
unfolding update
linked_same roots last root = ground arith

linked_other :
    (roots : ℕ → SubscriberRoot) (last root x : ℕ)
    → x ≢ last
    → (linked roots last root x).next_scout ≡ (roots x).next_scout
unfolding update
linked_other roots last root x ne = ground arith

has_ne : (x y : ℕ) (xs : List ℕ) → has x xs ≡ true → has y xs ≡ false → y ≢ x
has_ne x y xs h k e = ground (arith, ap (λ z. has z xs) e)

Chain-linked :
    (roots : ℕ → SubscriberRoot) (root : ℕ) (o : Option ℕ) (x : ℕ) (xs : List ℕ)
    → Chain roots o (x ∷ xs)
    → Once (x ∷ xs)
    → has root (x ∷ xs) ≡ false
    → (roots root).next_scout ≡ none
    → Chain (linked roots (last_of x xs) root) o (x ∷ xs ++ root ∷ [])
Chain-linked roots root o x [] c once new free =
    (c.0, (linked_same roots x root, linked_other roots x root root (ground arith) ∙ free))
Chain-linked roots root o x (y ∷ ys) c once new free = (
  c.0,
  rw
      (linked_other roots (last_of y ys) root x
        (has_ne (last_of y ys) x (y ∷ ys) (has-last_of y ys) once.0))
      (Chain-linked roots root (roots x).next_scout y ys c.1 once.1 (ground arith) free),
)

module _ (cavl : Cavl) (platform : Platform) (rapidhash : List ℕ → ℕ) where
  last_scout_run :
      (rounds : ℕ) (s : Cy cavl platform) (x : ℕ) (xs : List ℕ)
      → Chain s.roots (s.roots x).next_scout xs
      → length xs < rounds
      → last_scout cavl platform rapidhash rounds s x ≡ some (last_of x xs)
  unfolding last_scout
  last_scout_run zero s x xs c room = absurd (omega arith)
  last_scout_run (suc rounds) s x [] c room = rw (last_scout, c) refl
  last_scout_run (suc rounds) s x (y ∷ ys) c room =
      rw (last_scout, c.0) (last_scout_run rounds s y ys c.1 (ground arith))

  append_run :
      (rounds : ℕ) (s : Cy cavl platform) (root x last : ℕ)
      → s.next_scout ≡ some x
      → last_scout cavl platform rapidhash rounds s x ≡ some last
      → append_scout cavl platform rapidhash rounds s root
        ≡ some (
            set_root cavl platform rapidhash s last
              (record (s.roots last) { next_scout = some root }))
  unfolding append_scout append_behind
  append_run rounds s root x last first run =
      ap (append_behind cavl platform rapidhash rounds s root) first ∙ behind
    where
      behind :
          append_behind cavl platform rapidhash rounds s root (some x)
          ≡ some (
              set_root cavl platform rapidhash s last
                (record (s.roots last) { next_scout = some root }))
      behind = rw (append_behind, run) refl

  -- With one round for each scout of the queue, append_scout returns, and puts a root that is not in
  -- the queue behind all the others.
  pub append_scout-Chain :
      (rounds : ℕ) (s : Cy cavl platform) (root : ℕ) (xs : List ℕ)
      → Chain s.roots s.next_scout xs
      → Once xs
      → has root xs ≡ false
      → (s.roots root).next_scout ≡ none
      → length xs < suc rounds
      → (s1 : Cy cavl platform) × (append_scout cavl platform rapidhash rounds s root ≡ some s1)
        × Chain s1.roots s1.next_scout (xs ++ root ∷ [])
  unfolding append_scout append_behind set_root
  append_scout-Chain rounds s root [] c once new free room = (
    record s { next_scout = some root },
    ap (append_behind cavl platform rapidhash rounds s root) c,
    (refl, free),
  )
  append_scout-Chain rounds s root (x ∷ xs) c once new free room =
      let last = last_of x xs in
      (
        set_root cavl platform rapidhash s last (record (s.roots last) { next_scout = some root }),
        append_run rounds s root x last c.0 (last_scout_run rounds s x xs c.1 (ground arith)),
        Chain-linked s.roots root s.next_scout x xs c once new free,
      )
