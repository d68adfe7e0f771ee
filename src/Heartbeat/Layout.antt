-- ===== src/Heartbeat/Layout.antt =====
-- What on_heartbeat (cy/cy.c) reads of a message that publish_heartbeat has laid out.
use cy.Prelude.{
  ℕ, zero, suc, ◌+◌, ◌/◌, ◌^◌, ◌≤◌, ◌<◌, ◌≡◌, refl, ap, ◌∙◌, List, [], ◌∷◌, ◌++◌, arith, length,
  take, replicate, length-append,
}
use cy.Prelude.Int.{ℤ}
use cy.Names.{topic_name_max}
use cy.Age.{smaller}
use cy.Age.Log.{IsLogAge}
use cy.Joining.{bytes_of}
use cy.Buffers.{memmove}
use cy.Buffers.Gather.{joined, gather_from-joined, take_all, smaller_left}
use cy.Heartbeat.{
  Heartbeat, number_of, byte_of_int, int_of_byte, name_offset, heartbeat_size, header_bytes,
  message_bytes, field, heartbeat_of, receive, key_of,
}

number_of-bytes_of : (count n : ℕ) → n < 256 ^ count → number_of (bytes_of count n) ≡ n
unfolding number_of bytes_of
number_of-bytes_of zero n h = omega arith
number_of-bytes_of (suc count) n h = omega (arith, number_of-bytes_of count (n / 256) (omega arith))

int_of_byte-byte_of_int : (z : ℤ) → IsLogAge z → int_of_byte (byte_of_int z + 0) ≡ z
unfolding int_of_byte byte_of_int
int_of_byte-byte_of_int z h = ground arith

-- The integers fit their fields, and the name has its length.
pub record Fits (m : Heartbeat) : Type 0 where
  pub uptime : m.uptime < 2 ^ 32
  pub user_word : m.user_word < 2 ^ 24
  pub version : m.version < 2 ^ 8
  pub uid : m.uid < 2 ^ 64
  pub topic_hash : m.topic_hash < 2 ^ 64
  pub topic_evictions : m.topic_evictions < 2 ^ 32
  pub reserved : m.reserved < 2 ^ 8
  pub topic_log_age : IsLogAge m.topic_log_age
  pub flags : m.flags < 2 ^ 8
  pub topic_name_len : m.topic_name_len ≡ length m.topic_name
  pub short : length m.topic_name ≤ topic_name_max

-- The bytes of a structure: the header, and the field of the name behind it.
abbrev name_field : List ℕ → List ℕ
name_field name = memmove 0 (replicate 96 0) name

-- Equal but for the bytes behind the name.
pub record Same (m m1 : Heartbeat) : Type 0 where
  pub uptime : m1.uptime ≡ m.uptime
  pub user_word : m1.user_word ≡ m.user_word
  pub version : m1.version ≡ m.version
  pub uid : m1.uid ≡ m.uid
  pub topic_hash : m1.topic_hash ≡ m.topic_hash
  pub topic_evictions : m1.topic_evictions ≡ m.topic_evictions
  pub reserved : m1.reserved ≡ m.reserved
  pub topic_log_age : m1.topic_log_age ≡ m.topic_log_age
  pub flags : m1.flags ≡ m.flags
  pub topic_name_len : m1.topic_name_len ≡ m.topic_name_len

heartbeat_of-Same :
    (m : Heartbeat) (tail : List ℕ) → Fits m → Same m (heartbeat_of (header_bytes m ++ tail))
unfolding heartbeat_of header_bytes field bytes_of number_of byte_of_int
heartbeat_of-Same m tail f = record {
  uptime = number_of-bytes_of 4 m.uptime f.uptime;
  user_word = number_of-bytes_of 3 m.user_word f.user_word;
  version = number_of-bytes_of 1 m.version f.version;
  uid = number_of-bytes_of 8 m.uid f.uid;
  topic_hash = number_of-bytes_of 8 m.topic_hash f.topic_hash;
  topic_evictions = number_of-bytes_of 4 m.topic_evictions f.topic_evictions;
  reserved = number_of-bytes_of 1 m.reserved f.reserved;
  topic_log_age = int_of_byte-byte_of_int m.topic_log_age f.topic_log_age;
  flags = number_of-bytes_of 1 m.flags f.flags;
  topic_name_len = number_of-bytes_of 1 m.topic_name_len (omega (arith, f.topic_name_len, f.short));
}

name-memmove :
    (k : ℕ) (d s rest : List ℕ)
    → length s ≤ k
    → length s ≤ length d
    → take (length s) (take k (memmove 0 d s) ++ rest) ≡ s
unfolding memmove
name-memmove k d [] rest h le = refl
name-memmove k [] (b ∷ s) rest h le = absurd (omega arith)
name-memmove zero (x ∷ d) (b ∷ s) rest h le = absurd (omega arith)
name-memmove (suc k) (x ∷ d) (b ∷ s) rest h le =
    ap (λ z. b ∷ z) (name-memmove k d s rest (omega arith) (omega arith))

header-memmove :
    (m : Heartbeat) (name : List ℕ)
    → memmove 0 (replicate heartbeat_size 0) (header_bytes m ++ name)
      ≡ header_bytes m ++ name_field name
unfolding memmove header_bytes bytes_of
header-memmove m name = refl

header-length : (m : Heartbeat) → length (header_bytes m) ≡ name_offset
unfolding header_bytes bytes_of
header-length m = refl

heartbeat_of-name :
    (m : Heartbeat) (tail : List ℕ)
    → (heartbeat_of (header_bytes m ++ tail)).topic_name ≡ take (topic_name_max + 1) tail
unfolding heartbeat_of header_bytes bytes_of
heartbeat_of-name m tail = refl

append_nil : (xs : List ℕ) → xs ++ [] ≡ xs
append_nil [] = refl
append_nil (x ∷ xs) = ap (λ z. x ∷ z) (append_nil xs)

message_bytes_whole :
    (m : Heartbeat) → Fits m → joined (message_bytes m ∷ []) ≡ header_bytes m ++ m.topic_name
unfolding message_bytes
message_bytes_whole m f =
    append_nil (header_bytes m ++ take m.topic_name_len m.topic_name)
    ∙ ap (λ z. header_bytes m ++ z)
        (take_all m.topic_name_len m.topic_name (omega (arith, f.topic_name_len)))

-- The bytes of a heartbeat whose fields fit are read back as they were laid out: the size of the
-- message, every field, and the name, whatever lies in the memory behind the structure.
pub receive-message_bytes :
    (m : Heartbeat) (beyond : List ℕ)
    → Fits m
    → ((receive (message_bytes m ∷ [])).0 ≡ name_offset + length m.topic_name)
      × Same m (receive (message_bytes m ∷ [])).1
      × (key_of beyond (receive (message_bytes m ∷ [])).1 ≡ m.topic_name)
unfolding receive key_of
receive-message_bytes m beyond f =
    let gathered =
      gather_from-joined (message_bytes m ∷ []) 0 (replicate heartbeat_size 0) (omega arith) in
    let bytes = message_bytes_whole m f in
    let structure =
      ap (memmove 0 (replicate heartbeat_size 0)) bytes ∙ header-memmove m m.topic_name in
    let total : length (joined (message_bytes m ∷ [])) ≡ name_offset + length m.topic_name =
      ap length bytes
      ∙ length-append (header_bytes m) m.topic_name
      ∙ ap (λ z. z + length m.topic_name) (header-length m) in
    let size : smaller (0 + length (joined (message_bytes m ∷ []))) heartbeat_size
        ≡ name_offset + length m.topic_name =
      smaller_left (0 + length (joined (message_bytes m ∷ []))) heartbeat_size
        (omega (arith, total, f.short))
      ∙ omega (arith, total) in
    let same = heartbeat_of-Same m (name_field m.topic_name) f in
    rw (gathered, structure)
      (
        size,
        same,
        rw (same.topic_name_len ∙ f.topic_name_len, heartbeat_of-name m (name_field m.topic_name))
            (name-memmove (topic_name_max + 1) (replicate 96 0) m.topic_name beyond
              (omega (arith, f.short)) (omega (arith, f.short))),
      )
