-- ===== src/Posix/Layer.antt =====
-- The platform that cy_udp_posix/cy_udp_posix.c gives to the node, g_platform: the interface of
-- cy/cy_platform.h filled by the functions on sockets.
use cy.Prelude.{ℕ, ◌-◌, ◌^◌, Option, none, ltb, if◌then◌else◌}
use cy.Prelude.Int.{ℤ}
use cy.Transfer.{BufferOwned}
use cy.Wkv.{Wkv}
use cy.Platform.{Platform, Err}
use cy.Index.{Cavl}
use cy.Node.{Cy}
use cy.Os.{Os}
use cy.Udpard.{Udpard}
use cy.Posix.{Memory, Posix, cy_udp_posix_now, set_world}
use cy.Posix.NodeId.{platform_node_id_set, platform_node_id_clear}
use cy.Posix.Topics.{
  platform_p2p, platform_topic_new, platform_topic_destroy, platform_topic_publish,
  platform_topic_subscribe, platform_topic_unsubscribe, platform_topic_advertise,
}

module _ (os : Os) (udpard : Udpard (Memory os)) where
  unfoldable pub platform_now : Posix os udpard → ℤ × Posix os udpard
  platform_now p = let (t, m) = cy_udp_posix_now os p.memory in (t, record p { memory = m })

  -- platform_realloc of NULL, and to the size zero.
  unfoldable pub platform_alloc : ℕ → Posix os udpard → Option ℕ × Posix os udpard
  platform_alloc new_size p =
      if ltb 0 new_size
      then (let (out, w) = os.malloc new_size p.memory.world in (out, set_world os udpard p w))
      else (none, p)

  unfoldable pub platform_free : ℕ → Posix os udpard → Posix os udpard
  platform_free pointer p = set_world os udpard p (os.free pointer p.memory.world)

  unfoldable pub platform_prng : Posix os udpard → ℕ × Posix os udpard
  platform_prng p =
      let (nsec, w) = os.monotonic_raw_nsec p.memory.world in (nsec, set_world os udpard p w)

  unfoldable pub platform_buffer_release : BufferOwned → Posix os udpard → Posix os udpard
  platform_buffer_release buf p = record p { memory = udpard.fragment_free buf p.memory }

  -- It only traces.
  unfoldable pub platform_topic_on_subscription_error :
      Option ℕ → Err → Posix os udpard → Posix os udpard
  platform_topic_on_subscription_error topic error p = p

  -- `topic_size` is the size of cy_udp_posix_topic_t.
  abbrev pub g_platform : Wkv (Posix os udpard) → ℕ → Platform
  g_platform wkv topic_size = record {
    State = Posix os udpard;
    wkv = wkv;
    now = platform_now;
    prng = platform_prng;
    mem_alloc = platform_alloc;
    mem_free = platform_free;
    buffer_release = platform_buffer_release;
    node_id_set = platform_node_id_set os udpard;
    node_id_clear = platform_node_id_clear os udpard;
    p2p = platform_p2p os udpard;
    topic_new = platform_topic_new os udpard topic_size;
    topic_destroy = platform_topic_destroy os udpard;
    topic_publish = platform_topic_publish os udpard;
    topic_subscribe = platform_topic_subscribe os udpard;
    topic_unsubscribe = λ t subject_id. platform_topic_unsubscribe os udpard t;
    topic_advertise = λ node_id t. platform_topic_advertise os udpard node_id;
    topic_on_subscription_error = platform_topic_on_subscription_error;
    node_id_max = udpard.node_id_max;
    transfer_id_mask = 2 ^ 64 - 1;
  }

-- cy_udp_posix_t: the node with its platform.
module _ (cavl : Cavl) (os : Os) (udpard : Udpard (Memory os)) (wkv : Wkv (Posix os udpard))
    (topic_size : ℕ) where
  abbrev pub CyUdp : Type 0
  CyUdp = Cy cavl (g_platform os udpard wkv topic_size)

  unfoldable pub with_posix : CyUdp → Posix os udpard → CyUdp
  with_posix s p = record s { platform_state = p }
