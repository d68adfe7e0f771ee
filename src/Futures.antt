-- ===== src/Futures.antt =====
-- Publication and the futures of responses, of cy/cy.c: cy_future_new, cy_publish,
-- retire_timed_out_futures, cy_ingest_topic_response_transfer, cy_buffer_owned_release, cy_respond.
pub mod Retire
mod Tests
use cy.Prelude.{
  ℕ, zero, suc, ◌+◌, ◌-◌, ◌%◌, Bool, true, false, not, ◌&&◌, Option, none, some, List, [], ◌∷◌, ltb,
  ◌==◌, if◌then◌else◌, length, take, drop,
}
use Prim.Native.Nat.{bit_and}
use cy.Prelude.Int.{ℤ, pos, ltb_ℤ}
use cy.Subject.{u64_mod}
use cy.Index.{Cavl}
use cy.Transfer.{TransferMetadata, BufferOwned, TransferOwned, no_transfer}
use cy.Platform.{Platform, Err, cy_ok, cy_err_capacity}
use cy.Node.{FutureState, fresh, pending, success, response_timeout, Future, Cy, update}
use cy.Allocation.{set_topic}
use cy.Lookup.{
  cavl_comp_future_transfer_id_masked, cavl_comp_future_deadline, cy_topic_find_by_hash,
}
use cy.Heartbeat.{number_of}
use cy.Joining.{bytes_of, ensure_joined, mark_neighbor}
use cy.Gossip.{transmit, count_transfer}

-- CY_P2P_SERVICE_ID_TOPIC_RESPONSE
abbrev pub response_service_id : ℕ
response_service_id = 510

-- The pointers of a released payload.
unfoldable pub released : BufferOwned → BufferOwned
released payload = record payload { next = []; origin = none }

-- The view behind the topic hash; the first view of a payload that is long enough.
unfoldable pub strip_hash : BufferOwned → List ℕ → BufferOwned
strip_hash payload bytes = record payload { view = some (drop 8 bytes) }

module _ (cavl : Cavl) (platform : Platform) (rapidhash : List ℕ → ℕ) where
  open cavl use {find, find_or_insert, remove, min}
  open platform use {p2p, buffer_release, transfer_id_mask}

  unfoldable pub set_future : Cy cavl platform → ℕ → Future → Cy cavl platform
  set_future s f v = record s { futures = update s.futures f v }

  unfoldable pub set_transfer_futures : Cy cavl platform → ℕ → cavl.Tree → Cy cavl platform
  set_transfer_futures s t tree =
      set_topic cavl platform s t (record (s.topics t) { futures_by_transfer_id = tree })

  unfoldable pub cy_future_new : Cy cavl platform → ℕ → Option ℕ → Cy cavl platform
  cy_future_new s f callback = set_future s f (record {
    publisher = 0;
    state = fresh;
    transfer_id_masked = 0;
    deadline = pos 0;
    last_response = no_transfer;
    callback = callback;
  })

  -- The topic of a publisher.
  abbrev pub topic_of_publisher : Cy cavl platform → ℕ → ℕ
  topic_of_publisher s pub_address = (s.publishers pub_address).topic

  unfoldable pub prepare_future : Cy cavl platform → ℕ → ℕ → ℤ → Cy cavl platform
  prepare_future s pub_address f response_deadline = set_future s f (record (s.futures f) {
    publisher = pub_address;
    state = pending;
    transfer_id_masked =
        bit_and (s.topics (topic_of_publisher s pub_address)).pub_transfer_id transfer_id_mask;
    deadline = response_deadline;
    last_response = no_transfer;
  })

  -- The future in the index of its topic; false when another one has its transfer-ID.
  unfoldable pub enter_future : Cy cavl platform → ℕ → ℕ → Bool × Cy cavl platform
  enter_future s t f =
      let (owner, tree) =
        find_or_insert
          (cavl_comp_future_transfer_id_masked cavl platform s (s.futures f).transfer_id_masked) f
          (s.topics t).futures_by_transfer_id in
      (owner == f, if owner == f then set_transfer_futures s t tree else s)

  -- What follows the transmission, for a future.
  unfoldable pub conclude_future : Cy cavl platform → ℕ → ℕ → Err → Cy cavl platform
  conclude_future s t f res =
      if res == cy_ok
      then record s {
        futures_by_deadline =
            (find_or_insert (cavl_comp_future_deadline cavl platform s (s.futures f).deadline) f
              s.futures_by_deadline).1;
      }
      else set_transfer_futures s t (remove f (s.topics t).futures_by_transfer_id)

  unfoldable pub publish_with_future :
      Cy cavl platform → ℕ → ℤ → List (List ℕ) → ℤ → ℕ → Err × Cy cavl platform
  publish_with_future s pub_address tx_deadline payload response_deadline f =
      let t = topic_of_publisher s pub_address in
      let (entered, s1) = enter_future (prepare_future s pub_address f response_deadline) t f in
      elim entered [
        | false ↦ (cy_err_capacity, s1)
        | true ↦
            let (res, s2) = transmit cavl platform rapidhash s1 pub_address tx_deadline payload in
            (res, count_transfer cavl platform rapidhash (conclude_future s2 t f res) t)
      ]

  unfoldable pub publish_plain : Cy cavl platform → ℕ → ℤ → List (List ℕ) → Err × Cy cavl platform
  publish_plain s pub_address tx_deadline payload =
      let (res, s1) = transmit cavl platform rapidhash s pub_address tx_deadline payload in
      (res, count_transfer cavl platform rapidhash s1 (topic_of_publisher s1 pub_address))

  unfoldable pub publish_joined :
      Cy cavl platform → ℕ → ℤ → List (List ℕ) → ℤ → Option ℕ → Err × Cy cavl platform
  publish_joined s pub_address tx_deadline payload response_deadline none =
      publish_plain s pub_address tx_deadline payload
  publish_joined s pub_address tx_deadline payload response_deadline (some f) =
      publish_with_future s pub_address tx_deadline payload response_deadline f

  unfoldable pub cy_publish :
      Cy cavl platform → ℕ → ℤ → List (List ℕ) → ℤ → Option ℕ → Option (Err × Cy cavl platform)
  cy_publish s pub_address tx_deadline payload response_deadline future =
      elim (ensure_joined cavl platform rapidhash s) [
        | none ↦ none
        | some (res, s1) ↦ elim (res == cy_ok) [
          | true ↦ some (publish_joined s1 pub_address tx_deadline payload response_deadline future)
          | false ↦ some (res, s1)
        ]
      ]

  unfoldable pub cy_respond :
      Cy cavl platform → ℕ → ℤ → TransferMetadata → List (List ℕ) → Option (Err × Cy cavl platform)
  cy_respond s t tx_deadline metadata payload = elim (ensure_joined cavl platform rapidhash s) [
    | none ↦ none
    | some (res, s1) ↦ elim (res == cy_ok) [
      | true ↦
          let (res1, state) =
            p2p s1.node_id response_service_id metadata tx_deadline
              (bytes_of 8 (s1.topics t).hash ∷ payload) s1.platform_state in
          some (res1, record s1 { platform_state = state })
      | false ↦ some (res, s1)
    ]
  ]

  unfoldable pub release_payload : Cy cavl platform → BufferOwned → Cy cavl platform
  release_payload s payload = record s { platform_state = buffer_release payload s.platform_state }

  -- cy_buffer_owned_release of a payload, with the payload that is left.
  unfoldable pub cy_buffer_owned_release :
      Cy cavl platform → BufferOwned → Cy cavl platform × BufferOwned
  cy_buffer_owned_release s payload = elim payload.origin [
    | none ↦ (s, payload)
    | some origin ↦ (release_payload s payload, released payload)
  ]

  -- A future leaves both indexes.
  unfoldable pub unlist_future : Cy cavl platform → ℕ → ℕ → Cy cavl platform
  unlist_future s t f =
      let s1 = record s { futures_by_deadline = remove f s.futures_by_deadline } in
      set_transfer_futures s1 t (remove f (s1.topics t).futures_by_transfer_id)

  -- The user's callbacks, by their addresses.
  module _ (on_future : ℕ → ℕ → Cy cavl platform → Cy cavl platform) where
    unfoldable pub notify : Cy cavl platform → ℕ → Option ℕ → Cy cavl platform
    notify s f none = s
    notify s f (some callback) = on_future callback f s

    unfoldable pub time_out : Cy cavl platform → ℕ → Cy cavl platform
    time_out s f =
        let s1 = unlist_future s (topic_of_publisher s (s.futures f).publisher) f in
        let s2 = set_future s1 f (record (s1.futures f) { state = response_timeout }) in
        notify s2 f (s2.futures f).callback

    -- The loop, on fuel, as the callbacks may add futures.
    unfoldable pub retire_timed_out_futures : ℕ → Cy cavl platform → ℤ → Option (Cy cavl platform)
    retire_timed_out_futures zero s now = none
    retire_timed_out_futures (suc rounds) s now = elim (min s.futures_by_deadline) [
      | none ↦ some s
      | some f ↦ elim (ltb_ℤ (s.futures f).deadline now) [
        | true ↦ retire_timed_out_futures rounds (time_out s f) now
        | false ↦ some s
      ]
    ]

    -- The response that a future waited for.
    unfoldable pub complete : Cy cavl platform → ℕ → ℕ → TransferOwned → Cy cavl platform
    complete s t f transfer =
        let s1 = set_future s f (record (s.futures f) { state = success }) in
        let (s2, old) = cy_buffer_owned_release s1 (s1.futures f).last_response.payload in
        let s3 = set_future s2 f (record (s2.futures f) { last_response = transfer }) in
        notify (unlist_future s3 t f) f (s3.futures f).callback

    unfoldable pub deliver_response : Cy cavl platform → ℕ → TransferOwned → Cy cavl platform
    deliver_response s t transfer =
        elim (find
          (cavl_comp_future_transfer_id_masked cavl platform s
            (bit_and transfer.metadata.transfer_id transfer_id_mask))
          (s.topics t).futures_by_transfer_id) [
            | none ↦ release_payload s transfer.payload
            | some f ↦ complete s t f transfer
          ]

    -- The response whose first view holds at least the hash.
    unfoldable pub route_response : Cy cavl platform → List ℕ → TransferOwned → Cy cavl platform
    route_response s bytes transfer =
        let stripped = record transfer { payload = strip_hash transfer.payload bytes } in
        elim (cy_topic_find_by_hash cavl platform s (number_of (take 8 bytes))) [
          | none ↦ release_payload s stripped.payload
          | some t ↦ deliver_response s t stripped
        ]

    unfoldable pub response_with_view :
        Cy cavl platform → Option (List ℕ) → TransferOwned → Cy cavl platform
    response_with_view s none transfer = release_payload s transfer.payload
    response_with_view s (some bytes) transfer =
        if ltb (length bytes) 8
        then release_payload s transfer.payload
        else route_response s bytes transfer

    unfoldable pub cy_ingest_topic_response_transfer :
        Cy cavl platform → TransferOwned → Cy cavl platform
    cy_ingest_topic_response_transfer s transfer =
        response_with_view
          (mark_neighbor cavl platform rapidhash s transfer.metadata.remote_node_id)
          transfer.payload.view transfer
