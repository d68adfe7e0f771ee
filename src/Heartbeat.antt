-- ===== src/Heartbeat.antt =====
-- The heartbeat message, heartbeat_t of cy/cy.c, and its bytes: the structure is copied as it lies in
-- the memory of a little-endian machine with eight-byte alignment.
pub mod Layout
mod Tests
use cy.Prelude.{
  ℕ, zero, suc, ◌+◌, ◌-◌, ◌*◌, ◌/◌, ◌%◌, ◌^◌, Bool, true, false, List, [], ◌∷◌, ◌++◌, ltb,
  if◌then◌else◌, length, take, drop, replicate,
}
use cy.Prelude.Int.{ℤ, pos, negsuc}
use cy.Names.{topic_name_max}
use cy.Bloom.{test_bit}
use cy.Joining.{bytes_of}
use cy.Buffers.{cy_buffer_borrowed_gather, gather_from}

pub record Heartbeat : Type 0 where
  pub uptime : ℕ
  pub user_word : ℕ
  pub version : ℕ
  pub uid : ℕ
  pub topic_hash : ℕ
  pub topic_evictions : ℕ
  pub reserved : ℕ
  pub topic_log_age : ℤ
  pub flags : ℕ
  pub topic_name_len : ℕ
  pub topic_name : List ℕ

abbrev pub flag_publishing : ℕ
flag_publishing = 1

abbrev pub flag_subscribed : ℕ
flag_subscribed = 2

abbrev pub flag_receiving : ℕ
flag_receiving = 4

abbrev pub flag_scout : ℕ
flag_scout = 8

-- The number of a little-endian string of bytes.
unfoldable pub number_of : List ℕ → ℕ
number_of [] = 0
number_of (b ∷ bs) = b + 256 * number_of bs

-- int8_t
unfoldable pub byte_of_int : ℤ → ℕ
byte_of_int (pos n) = n % 256
byte_of_int (negsuc n) = 255 - n % 256

unfoldable pub int_of_byte : ℕ → ℤ
int_of_byte b = if ltb b 128 then pos b else negsuc (255 - b)

-- offsetof(heartbeat_t, topic_name) and sizeof(heartbeat_t)
abbrev pub name_offset : ℕ
name_offset = 32

abbrev pub heartbeat_size : ℕ
heartbeat_size = 128

-- The bytes before the name.
unfoldable pub header_bytes : Heartbeat → List ℕ
header_bytes m =
    bytes_of 4 m.uptime
    ++ (bytes_of 3 m.user_word
        ++ (bytes_of 1 m.version
            ++ (bytes_of 8 m.uid
                ++ (bytes_of 8 m.topic_hash
                    ++ (bytes_of 4 m.topic_evictions
                        ++ (bytes_of 1 m.reserved
                            ++ (byte_of_int m.topic_log_age
                                ∷ (bytes_of 1 m.flags ++ bytes_of 1 m.topic_name_len))))))))

-- The first message_size bytes of the structure.
unfoldable pub message_bytes : Heartbeat → List ℕ
message_bytes m = header_bytes m ++ take m.topic_name_len m.topic_name

unfoldable pub field : ℕ → ℕ → List ℕ → ℕ
field offset count bytes = number_of (take count (drop offset bytes))

-- The structure that lies in some bytes.
unfoldable pub heartbeat_of : List ℕ → Heartbeat
heartbeat_of bytes = record {
  uptime = field 0 4 bytes;
  user_word = field 4 3 bytes;
  version = field 7 1 bytes;
  uid = field 8 8 bytes;
  topic_hash = field 16 8 bytes;
  topic_evictions = field 24 4 bytes;
  reserved = field 28 1 bytes;
  topic_log_age = int_of_byte (field 29 1 bytes);
  flags = field 30 1 bytes;
  topic_name_len = field 31 1 bytes;
  topic_name = take (topic_name_max + 1) (drop 32 bytes);
}

-- The gather at the head of on_heartbeat: into a structure of zeros.
unfoldable pub receive : List (List ℕ) → ℕ × Heartbeat
receive payload =
    let (size, bytes) = gather_from payload 0 (replicate heartbeat_size 0) in
    (size, heartbeat_of bytes)

-- The key that on_heartbeat makes of the name and its length. The length is not checked: `beyond` is
-- what lies in the memory behind the name.
unfoldable pub key_of : List ℕ → Heartbeat → List ℕ
key_of beyond m = take m.topic_name_len (m.topic_name ++ beyond)
