-- ===== src/Apportioned/Acks.antt =====
-- `handle_ack` of src/replication/craq/craq_replication.cpp and
-- src/replication/crown/crown_replication.cpp.
use mathlib.Core.List.{append-nil}
use crown_kv.Common.{
  ℕ, ◌≡◌, ◌≢◌, refl, inl, inr, arith, if◌then◌else◌, leb, nat_beq, Option-cases, Option, none, some,
  List, [], ◌++◌, Text, text_eq, nat_eq, ◌==◌, find,
}
use crown_kv.Messages.{PutRequest}
use crown_kv.KvStore.{mark_clean}
use crown_kv.KvStore.Views.{
  committed, dirty_record, promote, committed-mark_clean, dirty_record-mark_clean,
}
use crown_kv.Replication.{Stub, Call, PendingEntry, send_ack, Replication, Node, erase_pending_ack}
use crown_kv.Replication.Pending.{find-erase_pending_ack}
use crown_kv.Apportioned.{Roles, handle_ack}
use crown_kv.Apportioned.Puts.{write_acks, commit_acks}

-- Where an ack goes on to: to the predecessor, or to the client without one.
abbrev pub passed_on : PutRequest → Option Stub → List Call
passed_on q none = commit_acks q
passed_on q (some prev) = write_acks q (some prev)

pub calls-send_ack :
    (q : PutRequest) (next : Option Stub) (r : Replication)
    → (send_ack q next r).calls ≡ r.calls ++ passed_on q next
unfolding send_ack
calls-send_ack q none r = ground (arith, append-nil r.calls)
calls-send_ack q (some prev) r = refl

pending_acks-send_ack :
    (q : PutRequest) (next : Option Stub) (r : Replication)
    → (send_ack q next r).pending_acks ≡ r.pending_acks
unfolding send_ack
pending_acks-send_ack q none r = ground arith
pending_acks-send_ack q (some prev) r = refl

module _ (roles : Roles) (id : ℕ) (n : Node) where
  -- An ack for a request that is not pending changes nothing.
  pub handle_ack-unknown : find id n.repl.pending_acks ≡ none → handle_ack roles id n ≡ n
  unfolding handle_ack
  handle_ack-unknown h = ground arith

  module _ (entry : PendingEntry) (e : find id n.repl.pending_acks ≡ some entry) where
    kv-handle_ack :
        (handle_ack roles id n).kv ≡ mark_clean n.kv entry.request.key entry.request.version
    unfolding handle_ack
    kv-handle_ack = ground (arith, e)

    pending_acks-handle_ack :
        n.repl.ring_size ≢ 0
        → (handle_ack roles id n).repl.pending_acks ≡ erase_pending_ack id n.repl.pending_acks
    unfolding handle_ack
    pending_acks-handle_ack h =
        ground (arith, e, pending_acks-send_ack entry.request n.repl.prev_stub n.repl)

    calls-handle_ack :
        n.repl.ring_size ≢ 0
        → (handle_ack roles id n).repl.calls
          ≡ n.repl.calls
            ++ (if nat_beq n.repl.node_index (roles.head entry.request.key n.repl.ring_size)
                then []
                else passed_on entry.request n.repl.prev_stub)
    unfolding handle_ack
    calls-handle_ack h =
        ground
          (arith, e, append-nil n.repl.calls, calls-send_ack entry.request n.repl.prev_stub n.repl)

  -- An ack for a pending request, at a node with a membership: the request's version of its key is
  -- committed if it is dirty here and newer, its dirty records up to that version go, other keys
  -- stay; the request alone is no longer pending; and the ack is passed on, but not by the head.
  pub handle_ack_lem :
      (entry : PendingEntry)
      → find id n.repl.pending_acks ≡ some entry
      → n.repl.ring_size ≢ 0
      → let n' = handle_ack roles id n in
        let q = entry.request in
        ((k : Text)
          → committed n'.kv k ≡ (
              if q.key == k
              then promote (dirty_record n.kv q.key q.version) (committed n.kv k)
              else committed n.kv k))
        × ((k : Text) (v : ℕ)
            → dirty_record n'.kv k v ≡ (
                if q.key == k
                then (if leb v q.version then none else dirty_record n.kv k v)
                else dirty_record n.kv k v))
        × ((j : ℕ)
            → find j n'.repl.pending_acks ≡ (if id == j then none else find j n.repl.pending_acks))
        × (n'.repl.calls
            ≡ n.repl.calls
              ++ (if nat_beq n.repl.node_index (roles.head q.key n.repl.ring_size)
                  then []
                  else passed_on q n.repl.prev_stub))
  handle_ack_lem entry e h =
      let q = entry.request in
      (
        (λ k. rw (kv-handle_ack entry e) (committed-mark_clean n.kv q.key q.version k)),
        (λ k v. rw (kv-handle_ack entry e) (dirty_record-mark_clean n.kv q.key q.version k v)),
        (λ j.
            rw (pending_acks-handle_ack entry e h)
              (find-erase_pending_ack id j n.repl.pending_acks)),
        calls-handle_ack entry e h,
      )

module _ (roles : Roles) (id : ℕ) (n : Node) where
  -- At a node with a membership a second ack for the same request changes nothing.
  pub handle_ack_twice :
      n.repl.ring_size ≢ 0 → handle_ack roles id (handle_ack roles id n) ≡ handle_ack roles id n
  handle_ack_twice h = elim (Option-cases (find id n.repl.pending_acks)) [
    | inl e ↦
        handle_ack-unknown roles id (handle_ack roles id n) (rw (handle_ack-unknown roles id n e) e)
    | inr (entry, e) ↦ handle_ack-unknown roles id (handle_ack roles id n) (
        rw (pending_acks-handle_ack roles id n entry e h)
          (ground (arith, find-erase_pending_ack id id n.repl.pending_acks)))
  ]
