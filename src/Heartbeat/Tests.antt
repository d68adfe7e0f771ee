-- ===== src/Heartbeat/Tests.antt =====
-- The heartbeat of a topic named "ab".
use cy.Prelude.{◌+◌, ◌≡◌, refl, [], ◌∷◌, arith}
use cy.Prelude.Int.{pos}
use cy.Heartbeat.{Heartbeat, name_offset, message_bytes, receive, key_of}
use cy.Heartbeat.Layout.{Fits, Same, receive-message_bytes}

abbrev gossip_of_ab : Heartbeat
gossip_of_ab = record {
  uptime = 3;
  user_word = 0;
  version = 1;
  uid = 42;
  topic_hash = 987_654_321;
  topic_evictions = 2;
  reserved = 0;
  topic_log_age = pos 9;
  flags = 3;
  topic_name_len = 2;
  topic_name = b'a' ∷ b'b' ∷ [];
}

ab-Fits : Fits gossip_of_ab
ab-Fits = record {
  uptime = omega arith;
  user_word = omega arith;
  version = omega arith;
  uid = omega arith;
  topic_hash = omega arith;
  topic_evictions = omega arith;
  reserved = omega arith;
  topic_log_age = omega arith;
  flags = omega arith;
  topic_name_len = refl;
  short = omega arith;
}

receive-message_bytes_example :
    ((receive (message_bytes gossip_of_ab ∷ [])).0 ≡ name_offset + 2)
    × Same gossip_of_ab (receive (message_bytes gossip_of_ab ∷ [])).1
    × (key_of (7 ∷ []) (receive (message_bytes gossip_of_ab ∷ [])).1 ≡ b'a' ∷ b'b' ∷ [])
receive-message_bytes_example = receive-message_bytes gossip_of_ab (7 ∷ []) ab-Fits
