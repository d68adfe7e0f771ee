-- ===== src/Joining.antt =====
-- The allocation of the node-ID, of cy/cy.c: random_u64, random_uint, pick_node_id, ensure_joined,
-- mark_neighbor, cy_joined, cy_notify_node_id_collision. rapidhash is a parameter.
pub mod Bits
pub mod Pick
pub mod Joined
mod Tests
use cy.Prelude.{
  ℕ, zero, suc, ◌+◌, ◌-◌, ◌*◌, ◌/◌, ◌%◌, ◌^◌, Bool, true, false, not, ◌&&◌, Option, none, some,
  List, [], ◌∷◌, ◌++◌, ltb, leb, ◌==◌, if◌then◌else◌,
}
use cy.Prelude.Int.{ℤ, pos, ◌+ℤ◌}
use cy.Subject.{u64_mod}
use cy.Age.{smaller}
use cy.Index.{Cavl}
use cy.Platform.{Platform, Err, cy_ok}
use cy.Node.{Bloom64, Cy}
use cy.Bloom.{test_bit, bloom64_get, bloom64_set, bloom64_purge}

abbrev pub u64_max : ℕ
u64_max = 2 ^ 64 - 1

abbrev pub u16_mod : ℕ
u16_mod = 2 ^ 16

-- The bytes of an unsigned integer, the low ones first.
unfoldable pub bytes_of : ℕ → ℕ → List ℕ
bytes_of zero n = []
bytes_of (suc count) n = (n % 256) ∷ bytes_of count (n / 256)

-- The loop over the words, from `word_index` on: `rounds` are left.
unfoldable pub find_word : (ℕ → ℕ) → ℕ → ℕ → ℕ → ℕ
find_word storage num_words zero word_index = word_index
find_word storage num_words (suc rounds) word_index =
    if not (storage word_index == u64_max)
    then word_index
    else find_word storage num_words rounds ((word_index + 1) % num_words)

-- The loop over the bits, on fuel: none when it runs out.
unfoldable pub find_bit : ℕ → ℕ → ℕ → Option ℕ
find_bit zero word bit_index = none
find_bit (suc rounds) word bit_index = elim (test_bit word bit_index) [
  | true ↦ find_bit rounds word ((bit_index + 1) % 64)
  | false ↦ some bit_index
]

unfoldable pub num_words : ℕ → ℕ → ℕ
num_words node_id_max n_bits = (smaller node_id_max n_bits + 63) / 64

module _ (cavl : Cavl) (platform : Platform) (rapidhash : List ℕ → ℕ) where
  open platform use {now, prng, node_id_set, node_id_max}

  unfoldable pub cy_now : Cy cavl platform → ℤ × Cy cavl platform
  cy_now s = ((now s.platform_state).0, record s { platform_state = (now s.platform_state).1 })

  unfoldable pub random_u64 : Cy cavl platform → ℕ × Cy cavl platform
  random_u64 s =
      let (p, state) = prng s.platform_state in
      (rapidhash (bytes_of 8 p ++ bytes_of 8 s.uid), record s { platform_state = state })

  unfoldable pub random_uint : Cy cavl platform → ℕ → ℕ → ℕ × Cy cavl platform
  random_uint s min max =
      if ltb min max then ((random_u64 s).0 % (max - min) + min, (random_u64 s).1) else (min, s)

  -- The part behind the choice of the word and of a free bit in it.
  unfoldable pub take_bit : Cy cavl platform → ℕ → ℕ → ℕ → ℕ × Cy cavl platform
  take_bit s id_max word_index bit_index =
      let (r, s1) = random_uint s 0 (id_max / s.node_id_bloom.n_bits) in
      let node_id = word_index * 64 + bit_index + r * s.node_id_bloom.n_bits in
      (node_id % u16_mod, record s1 { node_id_bloom = bloom64_set s1.node_id_bloom node_id })

  unfoldable pub pick_in_word : Cy cavl platform → ℕ → ℕ → Option (ℕ × Cy cavl platform)
  pick_in_word s id_max word_index =
      let word = s.node_id_bloom.storage word_index in
      elim (word == u64_max) [
        | true ↦ some ((random_uint s 0 id_max).0 % u16_mod, (random_uint s 0 id_max).1)
        | false ↦ elim (find_bit 64 word ((random_uint s 0 63).0 % 256)) [
          | none ↦ none
          | some bit_index ↦ some (take_bit (random_uint s 0 63).1 id_max word_index bit_index)
        ]
      ]

  unfoldable pub pick_node_id : Cy cavl platform → ℕ → Option (ℕ × Cy cavl platform)
  pick_node_id s id_max =
      let words = num_words id_max s.node_id_bloom.n_bits in
      let (first_word, s1) = random_uint s 0 ((words + u64_mod - 1) % u64_mod) in
      pick_in_word s1 id_max (find_word s1.node_id_bloom.storage words words first_word)

  -- The call of node_id_set, and what follows.
  unfoldable pub adopt : Cy cavl platform → Err × Cy cavl platform
  adopt s =
      let (res, state) = node_id_set s.node_id s.platform_state in
      let s1 = record s { platform_state = state } in
      if res == cy_ok then (res, s1) else (
        res,
        record s1 { node_id = node_id_max; node_id_bloom = bloom64_purge s1.node_id_bloom },
      )

  unfoldable pub ensure_joined : Cy cavl platform → Option (Err × Cy cavl platform)
  ensure_joined s = elim (leb node_id_max s.node_id) [
    | true ↦ elim (pick_node_id s node_id_max) [
      | none ↦ none
      | some (id, s1) ↦ some (adopt (record s1 { node_id = id }))
    ]
    | false ↦ some (cy_ok, s)
  ]

  unfoldable pub cy_joined : Cy cavl platform → Bool
  cy_joined s = leb s.node_id node_id_max

  -- The filter is purged when it is congested.
  unfoldable pub decongest : Cy cavl platform → Cy cavl platform
  decongest s =
      if ltb (s.node_id_bloom.n_bits * 31 % u64_mod / 32) s.node_id_bloom.popcount
      then record s { node_id_bloom = bloom64_purge s.node_id_bloom }
      else s

  unfoldable pub mark_neighbor : Cy cavl platform → ℕ → Cy cavl platform
  mark_neighbor s remote_node_id =
      let s1 = decongest s in
      let s2 =
        if ltb node_id_max s1.node_id && not (bloom64_get s1.node_id_bloom remote_node_id)
        then (let (r, s') = random_uint s1 0 2_000_000 in
            record s' { heartbeat_next = s'.heartbeat_next +ℤ pos r })
        else s1 in
      record s2 { node_id_bloom = bloom64_set s2.node_id_bloom remote_node_id }

  unfoldable pub cy_notify_node_id_collision : Cy cavl platform → Cy cavl platform
  cy_notify_node_id_collision s =
      if not s.node_id_collision && leb s.node_id node_id_max
      then record s { node_id_collision = true }
      else s
