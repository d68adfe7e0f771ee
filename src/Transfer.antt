-- ===== src/Transfer.antt =====
-- Transfers and their payloads, of cy/cy.h, and cy_buffer_owned_release of cy/cy.c.
use cy.Prelude.{ℕ, Option, none, List, []}
use cy.Prelude.Int.{ℤ, pos}

-- cy_transfer_metadata_t
pub record TransferMetadata : Type 0 where
  pub priority : ℕ
  pub remote_node_id : ℕ
  pub transfer_id : ℕ

-- cy_buffer_owned_t: the bytes of the first view, none when its pointer is NULL; the views of the
-- chain behind it; and the origin, by its address.
pub record BufferOwned : Type 0 where
  pub view : Option (List ℕ)
  pub next : List (List ℕ)
  pub origin : Option ℕ

-- cy_transfer_owned_t
pub record TransferOwned : Type 0 where
  pub timestamp : ℤ
  pub metadata : TransferMetadata
  pub payload : BufferOwned

-- All bytes zero.
abbrev pub no_transfer : TransferOwned
no_transfer = record {
  timestamp = pos 0;
  metadata = record { priority = 0; remote_node_id = 0; transfer_id = 0 };
  payload = record { view = none; next = []; origin = none };
}
