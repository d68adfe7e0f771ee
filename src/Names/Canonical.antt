-- ===== src/Names/Canonical.antt =====
-- The strings that resolve_name of cy/cy.c leaves.
use cy.Prelude.{
  ℕ, zero, suc, ◌+◌, ◌≤◌, ◌<◌, ◌≡◌, refl, ◌≢◌, ◌⊎◌, inl, inr, ◌&&◌, some, List, [], ◌∷◌, ◌++◌,
  arith, ◌==◌, if◌then◌else◌, length, subst, ap, take, Bool-cases, Option-cases,
}
use cy.Names.{
  topic_name_max, tmp_size, first, strip_tilde, format_name, canonicalize, drop_last, trim_slash,
  non_empty, resolve_name,
}

-- No slash at the front (or after `prev` where that is one), no two in a row.
abbrev pub NoDouble : ℕ → List ℕ → Type 0
NoDouble prev [] = Unit {0}
NoDouble prev (c ∷ cs) = ((c ≡ b'/') → (prev ≡ b'/') → ⊥) × NoDouble c cs

abbrev pub last_or : ℕ → List ℕ → ℕ
last_or d [] = d
last_or d (c ∷ cs) = last_or c cs

-- A canonical name: not empty, no leading, trailing or repeated slash.
pub record IsCanonical (s : List ℕ) : Type 0 where
  pub filled : s ≢ []
  pub spaced : NoDouble b'/' s
  pub closed : last_or b'/' s ≢ b'/'

-- What the loop has written when it ends: well spaced, ending in the last byte read, and short.
record Written (pos prev : ℕ) (cs out : List ℕ) (last : ℕ) : Type 0 where
  spaced : NoDouble prev out
  ends : last_or prev out ≡ last
  short : length out ≤ length cs
  within : (cs ≡ []) ⊎ (pos + length cs ≤ topic_name_max + 1)

abbrev emit : ℕ → ℕ → List ℕ → List ℕ
emit prev c out = if c == b'/' && prev == b'/' then out else c ∷ out

Written-emit :
    (pos prev c : ℕ) (cs out : List ℕ) (last : ℕ)
    → pos ≤ topic_name_max
    → Written (pos + 1) c cs out last
    → Written pos prev (c ∷ cs) (emit prev c out) last
Written-emit pos prev c cs out last h w = elim (Bool-cases (c == b'/' && prev == b'/')) [
  | inl skip ↦
      let same : c ≡ prev = ground arith in
      rw skip (record {
        spaced = subst (λ p. NoDouble p out) same w.spaced;
        ends = rw (← same) w.ends;
        short = omega (arith, w.short);
        within = ground arith;
      })
  | inr keep ↦ rw keep (record {
    spaced = (ground arith, w.spaced);
    ends = w.ends;
    short = omega (arith, w.short);
    within = ground arith;
  })
]

canonicalize-Written :
    (pos prev : ℕ) (cs : List ℕ) {out : List ℕ} {last : ℕ}
    → canonicalize pos prev cs ≡ some (out, last)
    → Written pos prev cs out last
unfolding canonicalize
canonicalize-Written pos prev [] h = record {
  spaced = ground arith;
  ends = ground arith;
  short = ground arith;
  within = inl refl;
}
canonicalize-Written pos prev (c ∷ cs) {out} {last} h =
    elim (Option-cases (canonicalize (pos + 1) c cs)) [
      | inl e ↦ absurd (ground arith)
      | inr ((out', last'), e) ↦
          let w = canonicalize-Written (pos + 1) c cs e in
          let ho : emit prev c out' ≡ out = ground arith in
          let hl : last' ≡ last = ground arith in
          rw (← ho, ← hl) (Written-emit pos prev c cs out' last' (ground arith) w)
    ]

-- Dropping the last byte of a well spaced string that ends in a slash leaves no slash at the end.
drop_last-NoDouble : (p : ℕ) (s : List ℕ) → NoDouble p s → NoDouble p (drop_last s)
unfolding drop_last
drop_last-NoDouble p [] h = tt
drop_last-NoDouble p (c ∷ []) h = tt
drop_last-NoDouble p (c ∷ d ∷ cs) h = (h.0, drop_last-NoDouble c (d ∷ cs) h.1)

drop_last-closed :
    (p c : ℕ) (cs : List ℕ)
    → NoDouble p (c ∷ cs)
    → last_or c cs ≡ b'/'
    → last_or p (drop_last (c ∷ cs)) ≢ b'/'
unfolding drop_last
drop_last-closed p c [] h e = h.0 e
drop_last-closed p c (d ∷ cs) h e = drop_last-closed c d cs h.1 e

length-drop_last : (s : List ℕ) → length (drop_last s) ≤ length s
unfolding drop_last
length-drop_last [] = omega arith
length-drop_last (c ∷ []) = omega arith
length-drop_last (c ∷ d ∷ cs) = omega (arith, length-drop_last (d ∷ cs))

trim_slash-closed :
    (s : List ℕ) (last : ℕ)
    → NoDouble b'/' s
    → last_or b'/' s ≡ last
    → trim_slash (s, last) ≢ []
    → last_or b'/' (trim_slash (s, last)) ≢ b'/'
unfolding trim_slash
trim_slash-closed [] last h e ne = absurd (ne (rw (← e) refl))
trim_slash-closed (c ∷ cs) last h e ne = elim (Bool-cases (last == b'/')) [
  | inl slash ↦ rw slash (drop_last-closed b'/' c cs h (ground arith))
  | inr other ↦ rw other (ground arith)
]

trim_slash-NoDouble :
    (s : List ℕ) (last : ℕ) → NoDouble b'/' s → NoDouble b'/' (trim_slash (s, last))
unfolding trim_slash
trim_slash-NoDouble s last h = ground (arith, drop_last-NoDouble b'/' s h)

length-trim_slash : (s : List ℕ) (last : ℕ) → length (trim_slash (s, last)) ≤ length s
unfolding trim_slash
length-trim_slash s last = ground (arith, length-drop_last s)

non_empty-some : (s : List ℕ) {out : List ℕ} → non_empty s ≡ some out → (out ≡ s) × (s ≢ [])
unfolding non_empty
non_empty-some [] h = absurd (ground arith)
non_empty-some (c ∷ cs) h = (ground arith, λ e. cc)

trimmed :
    (s : List ℕ) (last : ℕ) {out : List ℕ}
    → NoDouble b'/' s
    → last_or b'/' s ≡ last
    → non_empty (trim_slash (s, last)) ≡ some out
    → IsCanonical out × (length out ≤ length s)
trimmed s last {out} h e q =
    let (same, ne) = non_empty-some (trim_slash (s, last)) q in
    rw same (
      record {
        filled = ne;
        spaced = trim_slash-NoDouble s last h;
        closed = trim_slash-closed s last h e ne;
      },
      length-trim_slash s last,
    )

-- Whatever the namespace, the node name and the name given, a name that resolve_name accepts is
-- canonical, and is at most one byte longer than CY_TOPIC_NAME_MAX.
pub resolve_name-IsCanonical :
    (ns user name : List ℕ) {out : List ℕ}
    → resolve_name ns user name ≡ some out
    → IsCanonical out × (length out ≤ topic_name_max + 1)
unfolding resolve_name
resolve_name-IsCanonical ns user name {out} h =
    elim (Option-cases (canonicalize 0 b'/' (format_name ns user name))) [
      | inl e ↦ absurd (ground arith)
      | inr ((s, last), e) ↦
          let w = canonicalize-Written 0 b'/' (format_name ns user name) e in
          let r = trimmed s last {out = out} w.spaced w.ends (ground arith) in
          (r.0, ground (arith, r.1, w.short, w.within))
    ]

-- A string that is well spaced and fits passes the loop unchanged.
canonicalize-NoDouble :
    (pos prev : ℕ) (cs : List ℕ)
    → NoDouble prev cs
    → pos + length cs ≤ topic_name_max + 1
    → canonicalize pos prev cs ≡ some (cs, last_or prev cs)
unfolding canonicalize
canonicalize-NoDouble pos prev [] h fit = refl
canonicalize-NoDouble pos prev (c ∷ cs) h fit =
    rw (canonicalize-NoDouble (pos + 1) c cs h.1 (omega arith)) (ground (arith, h.0))

take-all : (n : ℕ) (cs : List ℕ) → length cs ≤ n → take n cs ≡ cs
take-all zero [] h = refl
take-all zero (c ∷ cs) h = absurd (omega arith)
take-all (suc n) [] h = refl
take-all (suc n) (c ∷ cs) h = ap (◌∷◌ c) (take-all n cs (omega arith))

-- A canonical string is kept as it is.
kept : (s : List ℕ) → IsCanonical s → non_empty (trim_slash (s, last_or b'/' s)) ≡ some s
unfolding non_empty trim_slash
kept [] h = absurd (h.filled refl)
kept (c ∷ cs) h = ground (arith, h.closed)

-- A canonical name of at most CY_TOPIC_NAME_MAX bytes, written with a leading slash, resolves to
-- itself under every namespace: resolved names are fixed points.
pub resolve_name-absolute :
    (ns user s : List ℕ)
    → IsCanonical s
    → length s ≤ topic_name_max
    → resolve_name ns user (b'/' ∷ s) ≡ some s
unfolding resolve_name format_name first canonicalize
resolve_name-absolute ns user s h fit =
    rw
      (
        take-all (topic_name_max + 8) s (omega arith),
        canonicalize-NoDouble 1 b'/' s h.spaced (omega arith),
      )
      (kept s h)

-- `~` and namespaces aside, the relative name is the namespace, a slash and the name.
abbrev pub joined : List ℕ → List ℕ → List ℕ
joined ns name = ns ++ (b'/' ∷ name)

strip_tilde-relative : (name : List ℕ) → first name ≢ b'~' → strip_tilde name ≡ name
unfolding strip_tilde first
strip_tilde-relative [] h = refl
strip_tilde-relative (c ∷ cs) h = ground arith

format_name-relative :
    (ns user name : List ℕ)
    → first ns ≢ b'~'
    → first name ≢ b'~'
    → first name ≢ b'/'
    → format_name ns user name ≡ take tmp_size (joined ns name)
unfolding format_name
format_name-relative ns user name hn ht hs = rw (strip_tilde-relative name ht) (ground arith)

-- When neither the namespace nor the name begins with `~`, the name does not begin with a slash, and
-- the two joined by a slash are canonical and have exactly one byte more than CY_TOPIC_NAME_MAX,
-- resolve_name accepts them all: with the NUL it writes 90 bytes, where both callers give it a
-- buffer of CY_TOPIC_NAME_MAX + 1 = 89.
pub resolve_name-overrun :
    (ns user name : List ℕ)
    → first ns ≢ b'~'
    → first name ≢ b'~'
    → first name ≢ b'/'
    → IsCanonical (joined ns name)
    → length (joined ns name) ≡ topic_name_max + 1
    → (resolve_name ns user name ≡ some (joined ns name))
      × (topic_name_max + 1 < length (joined ns name) + 1)
unfolding resolve_name
resolve_name-overrun ns user name hn ht hs h len = (
  rw
      (
        format_name-relative ns user name hn ht hs,
        take-all tmp_size (joined ns name) (omega arith),
        canonicalize-NoDouble 0 b'/' (joined ns name) h.spaced (omega arith),
      )
      (kept (joined ns name) h),
  omega arith,
)
