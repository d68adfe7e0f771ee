-- ===== src/Futures/Retire.antt =====
-- retire_timed_out_futures of cy/cy.c on the index of deadlines, with callbacks that leave the
-- futures alone.
use cy.Prelude.{
  ℕ, zero, suc, ◌<◌, ◌≡◌, refl, ap, subst, ◌∙◌, inl, inr, Bool, true, false, Option, none, some,
  List, [], ◌∷◌, arith, ◌==◌, if◌then◌else◌, length, Bool-cases,
}
use cy.Prelude.Int.{ℤ, ltb_ℤ}
use cy.Index.{Cavl, has, remove_in, head_in}
use cy.Platform.{Platform}
use cy.Allocation.{set_topic}
use cy.Node.{Future, response_timeout, Cy, update}
use cy.Futures.{
  set_future, unlist_future, set_transfer_futures, topic_of_publisher, notify, time_out,
  retire_timed_out_futures,
}

-- The deadlines in the order of the index, those at one time in any order.
abbrev pub AllLater : (ℕ → ℤ) → ℤ → List ℕ → Type 0
AllLater deadline bound [] = Unit {0}
AllLater deadline bound (f ∷ fs) = (ltb_ℤ (deadline f) bound ≡ false) × AllLater deadline bound fs

abbrev pub Ordered : (ℕ → ℤ) → List ℕ → Type 0
Ordered deadline [] = Unit {0}
Ordered deadline (f ∷ fs) = AllLater deadline (deadline f) fs × Ordered deadline fs

-- The futures whose deadlines have passed, and the others.
unfoldable pub due : (ℕ → ℤ) → ℤ → List ℕ → List ℕ
due deadline now [] = []
due deadline now (f ∷ fs) = if ltb_ℤ (deadline f) now then f ∷ due deadline now fs else []

unfoldable pub live : (ℕ → ℤ) → ℤ → List ℕ → List ℕ
live deadline now [] = []
live deadline now (f ∷ fs) = if ltb_ℤ (deadline f) now then live deadline now fs else f ∷ fs

later_trans : (a b c : ℤ) → ltb_ℤ a b ≡ false → ltb_ℤ b c ≡ false → ltb_ℤ a c ≡ false
later_trans a b c h k = ground arith

AllLater-trans :
    (deadline : ℕ → ℤ) (a b : ℤ) (fs : List ℕ)
    → AllLater deadline a fs
    → ltb_ℤ a b ≡ false
    → AllLater deadline b fs
AllLater-trans deadline a b [] l h = tt
AllLater-trans deadline a b (f ∷ fs) (first, rest) h =
    (later_trans (deadline f) a b first h, AllLater-trans deadline a b fs rest h)

live-AllLater :
    (deadline : ℕ → ℤ) (now : ℤ) (fs : List ℕ)
    → Ordered deadline fs
    → AllLater deadline now (live deadline now fs)
unfolding live
live-AllLater deadline now [] o = tt
live-AllLater deadline now (f ∷ fs) (later, o) = elim (Bool-cases (ltb_ℤ (deadline f) now)) [
  | inl e ↦ rw e (live-AllLater deadline now fs o)
  | inr e ↦ rw e (e, AllLater-trans deadline (deadline f) now fs later e)
]

due-congr :
    (d e : ℕ → ℤ) (now : ℤ) (fs : List ℕ) → ((x : ℕ) → d x ≡ e x) → due d now fs ≡ due e now fs
unfolding due
due-congr d e now [] h = refl
due-congr d e now (f ∷ fs) h = rw (h f, due-congr d e now fs h) refl

live-congr :
    (d e : ℕ → ℤ) (now : ℤ) (fs : List ℕ) → ((x : ℕ) → d x ≡ e x) → live d now fs ≡ live e now fs
unfolding live
live-congr d e now [] h = refl
live-congr d e now (f ∷ fs) h = rw (h f, live-congr d e now fs h) refl

first_removed : (f : ℕ) (fs : List ℕ) → remove_in f (f ∷ fs) ≡ fs
unfolding remove_in
first_removed f fs = ground arith

module _ (cavl : Cavl) (platform : Platform) (rapidhash : List ℕ → ℕ)
    (on_future : ℕ → ℕ → Cy cavl platform → Cy cavl platform) where
  open cavl use {to_list, remove_lem, min_lem}

  abbrev pub deadline_of : Cy cavl platform → ℕ → ℤ
  deadline_of s f = (s.futures f).deadline

  -- A callback that leaves the futures and the index of deadlines alone.
  abbrev pub KeepsFutures : Type 0
  KeepsFutures =
      (callback f : ℕ) (s : Cy cavl platform)
      → ((on_future callback f s).futures_by_deadline ≡ s.futures_by_deadline)
        × ((on_future callback f s).futures ≡ s.futures)

  notify_keeps :
      (s : Cy cavl platform) (f : ℕ) (callback : Option ℕ)
      → KeepsFutures
      → ((notify cavl platform rapidhash on_future s f callback).futures_by_deadline
          ≡ s.futures_by_deadline)
        × ((notify cavl platform rapidhash on_future s f callback).futures ≡ s.futures)
  unfolding notify
  notify_keeps s f none keeps = (refl, refl)
  notify_keeps s f (some callback) keeps = keeps callback f s

  abbrev timed : (ℕ → Future) → ℕ → ℕ → Future
  timed futures f = update futures f (record (futures f) { state = response_timeout })

  unlist_future-futures :
      (s : Cy cavl platform) (t f : ℕ)
      → ((unlist_future cavl platform rapidhash s t f).futures_by_deadline
          ≡ cavl.remove f s.futures_by_deadline)
        × ((unlist_future cavl platform rapidhash s t f).futures ≡ s.futures)
  unfolding unlist_future set_transfer_futures set_topic
  unlist_future-futures s t f = (refl, refl)

  set_future-futures :
      (s : Cy cavl platform) (f : ℕ) (v : Future)
      → ((set_future cavl platform rapidhash s f v).futures_by_deadline ≡ s.futures_by_deadline)
        × ((set_future cavl platform rapidhash s f v).futures ≡ update s.futures f v)
  unfolding set_future
  set_future-futures s f v = (refl, refl)

  time_out_lem :
      (s : Cy cavl platform) (f : ℕ)
      → KeepsFutures
      → ((time_out cavl platform rapidhash on_future s f).futures_by_deadline
          ≡ cavl.remove f s.futures_by_deadline)
        × ((time_out cavl platform rapidhash on_future s f).futures ≡ timed s.futures f)
  unfolding time_out
  time_out_lem s f keeps =
      let t = topic_of_publisher cavl platform rapidhash s (s.futures f).publisher in
      let s1 = unlist_future cavl platform rapidhash s t f in
      let v = record (s1.futures f) { state = response_timeout } in
      let s2 = set_future cavl platform rapidhash s1 f v in
      let (d, k) = notify_keeps s2 f (s2.futures f).callback keeps in
      let (d2, k2) = set_future-futures s1 f v in
      let (d1, k1) = unlist_future-futures s t f in (d ∙ d2 ∙ d1, k ∙ k2 ∙ ap (λ g. timed g f) k1)

  timed-deadline :
      (futures : ℕ → Future) (f x : ℕ) → (timed futures f x).deadline ≡ (futures x).deadline
  unfolding update
  timed-deadline futures f x = ground arith

  -- The futures of a list are timed out, the others are as they were.
  abbrev pub TimedOut : (ℕ → Future) → List ℕ → (ℕ → Future) → Type 0
  TimedOut futures fs futures1 =
      (x : ℕ)
      → futures1 x
        ≡ (if has x fs then record (futures x) { state = response_timeout } else futures x)

  either : (b : Bool) (v : Future) → (if b then v else v) ≡ v
  either true v = refl
  either false v = refl

  timed-TimedOut :
      (futures futures1 : ℕ → Future) (f : ℕ) (fs : List ℕ)
      → TimedOut (timed futures f) fs futures1
      → TimedOut futures (f ∷ fs) futures1
  unfolding update
  timed-TimedOut futures futures1 f fs h x = elim (Bool-cases (x == f)) [
    | inl e ↦
        let same : f ≡ x = ground arith in
        let hit : timed futures f x ≡ record (futures x) { state = response_timeout } =
          rw e (ap (λ z. record (futures z) { state = response_timeout }) same) in
        h x ∙ rw (hit, e) (either (has x fs) (record (futures x) { state = response_timeout }))
    | inr e ↦ h x ∙ rw e refl
  ]

  retire_step :
      (rounds f : ℕ) (s : Cy cavl platform) (now : ℤ)
      → cavl.min s.futures_by_deadline ≡ some f
      → ltb_ℤ (deadline_of s f) now ≡ true
      → retire_timed_out_futures cavl platform rapidhash on_future (suc rounds) s now
        ≡ retire_timed_out_futures cavl platform rapidhash on_future rounds
            (time_out cavl platform rapidhash on_future s f)
            now
  unfolding retire_timed_out_futures
  retire_step rounds f s now first e = rw (first, e, retire_timed_out_futures) refl

  retire_stop :
      (rounds f : ℕ) (s : Cy cavl platform) (now : ℤ)
      → cavl.min s.futures_by_deadline ≡ some f
      → ltb_ℤ (deadline_of s f) now ≡ false
      → retire_timed_out_futures cavl platform rapidhash on_future (suc rounds) s now ≡ some s
  unfolding retire_timed_out_futures
  retire_stop rounds f s now first e = rw (first, e, retire_timed_out_futures) refl

  retire_empty :
      (rounds : ℕ) (s : Cy cavl platform) (now : ℤ)
      → cavl.min s.futures_by_deadline ≡ none
      → retire_timed_out_futures cavl platform rapidhash on_future (suc rounds) s now ≡ some s
  unfolding retire_timed_out_futures
  retire_empty rounds s now first = rw (first, retire_timed_out_futures) refl

  retire_run :
      (rounds : ℕ) (s : Cy cavl platform) (now : ℤ) (fs : List ℕ)
      → KeepsFutures
      → to_list s.futures_by_deadline ≡ fs
      → length fs < rounds
      → (s1 : Cy cavl platform) × (retire_timed_out_futures cavl platform rapidhash on_future rounds
            s now
          ≡ some s1)
        × (to_list s1.futures_by_deadline ≡ live (deadline_of s) now fs)
        × TimedOut s.futures (due (deadline_of s) now fs) s1.futures
  unfolding live due head_in
  retire_run zero s now fs keeps listed room = absurd (omega arith)
  retire_run (suc rounds) s now [] keeps listed room = (
    s,
    retire_empty rounds s now (min_lem s.futures_by_deadline ∙ ap head_in listed),
    listed,
    λ x. refl,
  )
  retire_run (suc rounds) s now (f ∷ fs) keeps listed room =
      let first = min_lem s.futures_by_deadline ∙ ap head_in listed in
      elim (Bool-cases (ltb_ℤ (deadline_of s f) now)) [
        | inl e ↦
            let s' = time_out cavl platform rapidhash on_future s f in
            let (tree, futures) = time_out_lem s f keeps in
            let listed' : to_list s'.futures_by_deadline ≡ fs =
              ap to_list tree
              ∙ remove_lem f s.futures_by_deadline (rw listed (ground arith))
              ∙ ap (remove_in f) listed
              ∙ first_removed f fs in
            let same : (x : ℕ) → deadline_of s' x ≡ deadline_of s x =
              λ x. ap (λ g. (g x).deadline) futures ∙ timed-deadline s.futures f x in
            let (s1, run, rest, done) = retire_run rounds s' now fs keeps listed' (omega arith) in
            (
              s1,
              retire_step rounds f s now first e ∙ run,
              rest ∙ rw (e, live-congr (deadline_of s') (deadline_of s) now fs same) refl,
              rw e (
                  timed-TimedOut s.futures s1.futures f (due (deadline_of s) now fs) (
                    subst (λ g. TimedOut g (due (deadline_of s) now fs) s1.futures) futures
                      (subst (λ l. TimedOut s'.futures l s1.futures)
                        (due-congr (deadline_of s') (deadline_of s) now fs same) done))),
            )
        | inr e ↦ (s, retire_stop rounds f s now first e, listed ∙ rw e refl, rw e (λ x. refl))
      ]

  -- With callbacks that leave the futures alone, and an index in the order of the deadlines: the loop
  -- ends, with one round for each future and one more. The futures whose deadlines have passed are
  -- out of the index of deadlines, and their state is response_timeout; the others are in it, none
  -- of them with a deadline that has passed, and are as they were.
  pub retire_timed_out_futures_total :
      (rounds : ℕ) (s : Cy cavl platform) (now : ℤ) (fs : List ℕ)
      → KeepsFutures
      → to_list s.futures_by_deadline ≡ fs
      → Ordered (deadline_of s) fs
      → length fs < rounds
      → (s1 : Cy cavl platform) × (retire_timed_out_futures cavl platform rapidhash on_future rounds
            s now
          ≡ some s1)
        × (to_list s1.futures_by_deadline ≡ live (deadline_of s) now fs)
        × AllLater (deadline_of s) now (live (deadline_of s) now fs)
        × TimedOut s.futures (due (deadline_of s) now fs) s1.futures
  retire_timed_out_futures_total rounds s now fs keeps listed ordered room =
      let (s1, run, rest, done) = retire_run rounds s now fs keeps listed room in
      (s1, run, rest, live-AllLater (deadline_of s) now fs ordered, done)
