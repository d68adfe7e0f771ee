-- ===== src/Lib.antt =====
-- Verification of Cy, a library for decentralised publish/subscribe over named topics.
--
-- A node of Cy (cy/cy.c, cy/cy.h, cy/cy_platform.h) resolves the names of topics, hashes them,
-- and gives every topic a subject-ID, a 13-bit number under which its transfers travel. Two topics
-- that meet on one subject-ID are arbitrated by their ages and hashes; the loser moves on, and
-- nodes tell each other about it with gossips, which are heartbeats that carry a topic. A node
-- chooses its own node-ID with a Bloom filter of those that it hears. Below Cy lies a platform, a
-- record of functions. One platform is in the repository: cy_udp_posix runs a node on UDP sockets,
-- with libudpard for the protocol. Its event loop sends the frames that wait, waits for datagrams,
-- hands them to libudpard and the transfers that come out to Cy, and lets Cy publish heartbeats.
--
-- The files and the code they are about, all of it in cy/cy.c where nothing else is said:
--   Prelude       lists, booleans, integers and orders over the native numbers
--   Names         resolve_name: a name, its namespace and the node's name as strings of bytes,
--                 without the NUL at their ends; a refusal is none
--   Subject       parse_pinned, topic_hash, is_pinned, topic_subject_id
--   Age           log2_floor, pow2, the minima and maxima, left_wins
--   Index         the search tree that the node's indexes use
--   Wkv           the index of names and patterns that the node uses
--   Transfer      the transfers of cy/cy.h, their metadata and their owned buffers
--   Platform      cy_platform_t and cy_err_t (cy/cy_platform.h, cy/cy.h)
--   Node          cy_t, cy_topic_t, the couplings, subscribers, publishers and futures
--   Bloom         bloom64_set, bloom64_get, bloom64_purge
--   Joining       random_uint, pick_node_id, ensure_joined, mark_neighbor, cy_joined, cy_now
--   Allocation    the comparators of two indexes, update_gossip_order, prioritize_gossip,
--                 deduce_subscription_params, topic_ensure_subscribed, topic_allocate
--   Mortal        is_mortal, mortal_delist, mortal_enlist, mortal_animate, mortal_retire_timed_out
--   Lookup        the other comparators and the finders of topics
--   Creation      topic_new, topic_ensure, topic_couple, topic_subscribe_if_matching
--   Heartbeat     heartbeat_t in memory: what is published and what a gather reads of it
--   Gossip        topic_age, publish_heartbeat and its two callers
--   Merge         on_heartbeat: divergences (Merge.Verdict) and collisions (Merge.Collision)
--   Futures       cy_publish, cy_respond, the timeouts of futures, the receipt of responses
--   Subscribing   cy_subscribe_with_params, ensure_subscriber_root, cy_advertise
--   Ingest        cy_ingest_topic_transfer
--   Update        cy_update, cy_ready, cy_notify_topic_hash_collision
--   Hint          cy_topic_hint
--   Setup         cy_new
--   Buffers       cy_buffer_borrowed_size, cy_buffer_borrowed_gather
--   Os            the calls of the operating system that the sockets need
--   Udpard        the calls of libudpard
--   Wrapper       cy_udp_posix/udp_wrapper.c: the UDP sockets; those that receive are in
--                 Wrapper.Receiving
--   Posix         cy_udp_posix/cy_udp_posix.c: its state, memory and codes of errors, and as child
--                 modules Posix.NodeId and Posix.Topics (the functions of the platform),
--                 Posix.Layer (g_platform), Posix.Offload (tx_offload), Posix.Reading
--                 (read_socket), Posix.Spin (the event loop), Posix.Start (cy_udp_posix_new)
--
-- How the code's objects are seen: every object has an address, a number, and cy_t holds the memory
-- of each type of object as a function of addresses. A link of a list is left out where the list
-- itself stands in the owner; the list of mortal topics and the queue of scouts keep their links.
-- The Bloom filter, which the platform owns, is a part of the node. Times are integers: the code's
-- int64_t sums are taken not to overflow. The code's uint32_t and uint64_t wrap where it adds to
-- them. An operation that returns a code gives the code and the node after it.
--
-- Parameters, for code that is not this project's own: the tree of lib/cavl2.h is the record
-- Index.Cavl, whose laws say what a search, an insertion, a removal and the minimum are on a tree
-- that the comparator divides into a left and a right part; list_index meets them. The index of
-- names is the record Wkv.Wkv, without laws. The platform is the record Platform.Platform, with a
-- state of its own and no laws; memory may run out. rapidhash is a function of the bytes. The
-- callbacks of subscribers and of futures are functions of the node; what a theorem needs of them
-- it names. The bytes in memory behind a received heartbeat are the parameter `beyond`, since the
-- length of the name is not checked there. The operating system is the record Os.Os, without laws,
-- on a state of its own; libudpard is the record Udpard.Udpard, whose laws say that the frames of a
-- queue are peeked at and popped in their order. What the node's memory resources change, the system
-- and two counters, is the state of libudpard's calls. The handlers of socket errors are functions
-- of the node, and `stale` is what a new buffer holds before a datagram is read into it. The size of
-- a topic of the POSIX layer is the parameter topic_size.
--
-- Fuel: canonicalize and the digits of a pinned name recur on the string. The 64 steps of
-- count_leading_zeros are the 64 bits of the word. topic_allocate calls itself, and has a loop that
-- only the arbitration ends: it takes a depth, one level for every topic of the node and one more
-- being enough, and a number of rounds for each loop, (topics + 2) * 2 ^ 32 of them being enough,
-- since after each wrap of the 32-bit counter at least one more topic is known to be settled. The
-- search for a free bit in a word takes 64 rounds, one for each bit. The loops over futures and over
-- subscribers run on fuel as the callbacks may change what they run over; the loop over the futures
-- needs one round for each and one more. The loop of cy_topic_hint needs twice
-- CY_TOPIC_SUBJECT_COUNT rounds, and the walk along the queue of scouts one for each scout. The purge
-- of a transmission queue has as many rounds as the queue has frames. The loop that sends the frames
-- of a queue runs on fuel as the handler of errors may add frames; one round for each frame and one
-- more are enough where it adds none. The event loop, which runs until its deadline, takes a number
-- of turns.
--
-- Not modelled: tracing and assertions; cy_unsubscribe, cy_unadvertise and topic_destroy, which are
-- empty; cy_topic_iter_next and cy_subscriber_name, which only call the libraries; the default
-- handlers of socket errors, which only trace, the variant of the sockets for Windows, and the abort
-- when the clock cannot be read; the diagnostic pattern that mem_free writes; the examples.
pub mod Prelude
pub mod Names
pub mod Subject
pub mod Age
pub mod Index
pub mod Transfer
pub mod Wkv
pub mod Platform
pub mod Node
pub mod Bloom
pub mod Joining
pub mod Allocation
pub mod Mortal
pub mod Lookup
pub mod Creation
pub mod Heartbeat
pub mod Gossip
pub mod Merge
pub mod Futures
pub mod Subscribing
pub mod Ingest
pub mod Update
pub mod Hint
pub mod Setup
pub mod Buffers
pub mod Os
pub mod Wrapper
pub mod Udpard
pub mod Posix
