-- ===== src/Network/Acks.antt =====
-- An ack that arrives: `handle_ack` of src/replication/craq/craq_replication.cpp and
-- src/replication/crown/crown_replication.cpp keeps what holds of the cluster.
use mathlib.Core.Path.{subst}
use mathlib.Core.List.{Memᴰ}
use crown_kv.Common.{
  ℕ, ◌≤◌, ◌<◌, ◌≡◌, ◌≢◌, inl, inr, sym, ◌∙◌, arith, true, false, nat_beq, some, Option-cases, List,
  text_eq, nat_eq, if◌then◌else◌, All-find, All-member, length, find,
}
use crown_kv.Messages.{PutRequest, NodeInfo, WriteAck}
use crown_kv.KvStore.{KvStore, mark_clean}
use crown_kv.KvStore.Views.{committed_version}
use crown_kv.Replication.{Stub, write_ack_call, PendingEntry, send_ack}
use crown_kv.Apportioned.{Roles, handle_ack}
use crown_kv.Network.{write_of, IsPlaced, System, update, set_node}
use crown_kv.Network.Stores.{Holds, Grows, mark_clean-Grows}
use crown_kv.Network.Safety.{update-Grows}
use crown_kv.Network.Moves.{clean-IsSafe}
use crown_kv.Network.Traffic.{
  IsSettled, IsSound, HasSound, HasSound-later, IsSettled-later, IsAwaited,
}
use crown_kv.Network.Methods.{HasSound-send_ack, HasSound-erase_pending_ack}
use crown_kv.Network.Invariant.{Kept, Inv, set-Kept, set_repl-Kept, stores_of}
use crown_kv.Network.Handlers.{handle_ack-none, handle_ack-found}

module _ (roles : Roles) (members : List NodeInfo) (s : System) (j : ℕ) (l : j < length members)
    (h : Inv roles members s) where
  -- An ack for a write that the tail has committed.
  settled_ack :
      (entry : PendingEntry) (id : ℕ)
      → IsAwaited roles members (stores_of s.nodes) s.issued j (id, entry)
      → find id (s.nodes j).repl.pending_acks ≡ some entry
      → IsSettled roles members (stores_of s.nodes) s.issued (write_of entry.request)
      → Kept roles members s (set_node s j (handle_ack roles id (s.nodes j)))
  settled_ack entry id (same, carried) found (w, le) =
      rw (handle_ack-found roles id (s.nodes j) entry found sized) (
        set-Kept roles members s j _ s.issued h marked.0 (λ x m. m)
          (clean-IsSafe roles (length members) stores s.issued j h.safe l q.key q.version held
            (inl (carried.1, le)))
          (HasSound-erase_pending_ack roles members stores' s.issued j id _ acked))
    where
      q : PutRequest
      q = entry.request

      stores : ℕ → KvStore
      stores = stores_of s.nodes

      placed : IsPlaced members j (s.nodes j).repl
      placed = (h.sound j l).placed

      sized : (s.nodes j).repl.ring_size ≢ 0
      sized e = omega (arith, e, placed.size, l)

      held : Holds (stores j) q.key q.version
      held = carried.2 j l (omega arith)

      marked :
          Grows (stores j) (mark_clean (stores j) q.key q.version)
          × (q.version ≤ committed_version (mark_clean (stores j) q.key q.version) q.key)
      marked = mark_clean-Grows (stores j) q.key q.version (h.safe.stored j l).consistent held

      stores' : ℕ → KvStore
      stores' = update stores j (mark_clean (stores j) q.key q.version)

      sound : HasSound roles members stores' s.issued j (s.nodes j).repl
      sound =
          HasSound-later roles members stores s.issued j stores' s.issued
            (update-Grows stores j _ marked.0) (λ x m. m) _ (h.sound j l)

      settled : IsSettled roles members stores' s.issued (write_of q)
      settled =
          IsSettled-later roles members stores s.issued j stores' s.issued
            (update-Grows stores j _ marked.0) (λ x m. m) (write_of q) (w, le)

      acked : HasSound roles members stores' s.issued j (
          if nat_beq (s.nodes j).repl.node_index (roles.head q.key (s.nodes j).repl.ring_size)
          then (s.nodes j).repl
          else send_ack q (s.nodes j).repl.prev_stub (s.nodes j).repl)
      acked =
          elim (nat_beq (s.nodes j).repl.node_index (roles.head q.key (s.nodes j).repl.ring_size))
            as (λ b. HasSound roles members stores' s.issued j (
              if b
              then (s.nodes j).repl
              else send_ack q (s.nodes j).repl.prev_stub (s.nodes j).repl)) [
                | true ↦ sound
                | false ↦ HasSound-send_ack roles members stores' s.issued j q _ _ settled sound
              ]

  pub ack-Kept :
      (i : ℕ) (stub : Stub) (a : WriteAck)
      → i < length members
      → Memᴰ (write_ack_call stub a) (s.nodes i).repl.calls
      → Kept roles members s (set_node s j (handle_ack roles a.request_id (s.nodes j)))
  ack-Kept i stub a b m = elim (Option-cases (find a.request_id (s.nodes j).repl.pending_acks)) [
    | inl e ↦
        rw (handle_ack-none roles a.request_id (s.nodes j) e)
          (set_repl-Kept roles members s j (s.nodes j).repl h (h.sound j l))
    | inr (entry, e) ↦
        let (w, settled, id, _, _) =
          All-member (IsSound roles members (stores_of s.nodes) s.issued i) _ (h.sound i b).calls
            m in
        let awaited =
          All-find (IsAwaited roles members (stores_of s.nodes) s.issued j) a.request_id _
            (h.sound j l).pending e in
        let one : w ≡ write_of entry.request =
          h.safe.numbered.by_id w (write_of entry.request) settled.0 awaited.1.0
            (id ∙ sym awaited.0) in
        settled_ack entry a.request_id awaited e
          (subst (IsSettled roles members (stores_of s.nodes) s.issued) one settled)
  ]
