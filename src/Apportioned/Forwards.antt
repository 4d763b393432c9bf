-- ===== src/Apportioned/Forwards.antt =====
-- Writes at the nodes before the last: `handle_put` of src/replication/craq/craq_replication.cpp and
-- src/replication/crown/crown_replication.cpp, with `forward_put` of
-- src/replication/common/replication_common.cpp.
use crown_kv.Common.{
  ℕ, ◌+◌, ◌≤◌, ◌<◌, ◌^◌, ◌≡◌, ◌⊎◌, split_bound, refl, inl, inr, arith, le→leb, leb-false, nat_beq,
  true, false, Bool-cases, Option, none, some, [], ◌∷◌, ◌++◌, Text, text_eq, eq_refl, nat_eq, find,
}
use crown_kv.Messages.{PutRequest}
use crown_kv.KvStore.{KvStore, get_latest_version, put}
use crown_kv.KvStore.Views.{
  committed, committed_version, dirty_record, committed-add_dirty, dirty_record-add_dirty,
}
use crown_kv.KvStore.Latest.{get_latest_version-IsLatest, put-assigns}
use crown_kv.KvStore.Commit.{put-offered}
use crown_kv.Replication.{
  Stub, put_call, Replication, Node, restage, ForwardTask, add_to_pending_acks, forward_put,
}
use crown_kv.Replication.Pending.{find-add_to_pending_acks}
use crown_kv.Replication.Retries.{pending_acks-enqueue}
use crown_kv.Replication.Queue.{outgoing, enqueue_forward_task-outgoing}
use crown_kv.Apportioned.{Roles, is_last, put_at_head, put_versioned, handle_put}
use crown_kv.Apportioned.Puts.{
  accepts, write_version, HasRoom, put_at_head-before, put_versioned-before,
}

pub committed-put :
    (s : KvStore) (key x : Text) (version : Option ℕ) (k : Text)
    → committed (put s key x version).0 k ≡ committed s k
unfolding put
committed-put s key x none k = committed-add_dirty s key _ _ k
committed-put s key x (some v) k =
    ground (arith, committed-add_dirty s key v (record { verison = v; value = x }) k)

-- A forwarded request goes out under the node's epoch, and is pending under its id.
forward_put_lem :
    (now : ℕ) (q : PutRequest) (next : Option Stub) (stub : Stub) (r : Replication)
    → next ≡ some stub
    → r.forward_shutdown ≡ false
    → let r' = forward_put now q next r in
      let q' : PutRequest = record q { epoch = r.epoch } in
      (find q.request_id r'.pending_acks ≡ some (restage now q' (find q.request_id r.pending_acks)))
      × (outgoing r' ≡ outgoing r ++ put_call stub q' ∷ [])
unfolding forward_put
forward_put_lem now q next stub r e w =
    let q' : PutRequest = record q { epoch = r.epoch } in
    let staged : Replication = record r {
      pending_acks = add_to_pending_acks now q' r.pending_acks;
    } in
    let task : ForwardTask = record { request = q'; stub = stub } in
    rw e (
      rw (pending_acks-enqueue staged q' stub)
          (ground (arith, find-add_to_pending_acks now q' r.pending_acks q.request_id)),
      enqueue_forward_task-outgoing task staged w,
    )

module _ (roles : Roles) (now : ℕ) (q : PutRequest) (n : Node) (stub : Stub) where
  -- A node before the last one, with a successor, stores an accepted write as dirty, keeps every
  -- committed record, holds the write as pending under its id and enqueues it for its successor,
  -- under its version and the node's epoch and behind all that it has enqueued before. A write that
  -- is not above the committed version leaves the store as it is and is enqueued too. (The version
  -- has to fit 64 bits, and the node is not shutting down.)
  pub handle_put-forwards :
      accepts roles q n ≡ true
      → is_last (roles.tail q.key n.repl.ring_size) n.repl ≡ false
      → n.repl.next_stub ≡ some stub
      → HasRoom q n
      → n.repl.forward_shutdown ≡ false
      → let (n', response) = handle_put roles now q n in
        let v = write_version q n in
        let q' : PutRequest = record q { version = v; epoch = n.repl.epoch } in
        (response.success ≡ true)
        × (response.version ≡ v)
        × ((k : Text) → committed n'.kv k ≡ committed n.kv k)
        × (((committed_version n.kv q.key < v)
              × (dirty_record n'.kv q.key v ≡ some (record { verison = v; value = q.value })))
            ⊎ ((v ≤ committed_version n.kv q.key) × (n'.kv ≡ n.kv)))
        × (find q.request_id n'.repl.pending_acks
            ≡ some (restage now q' (find q.request_id n.repl.pending_acks)))
        × (outgoing n'.repl ≡ outgoing n.repl ++ put_call stub q' ∷ [])
  unfolding handle_put
  handle_put-forwards a l e h w = elim (Bool-cases (nat_beq q.version 0)) [
    | inl z ↦
        let room : get_latest_version n.kv q.key + 1 < 2 ^ 64 = ground (arith, h) in
        let v = get_latest_version n.kv q.key + 1 in
        let c = (get_latest_version-IsLatest n.kv q.key).committed_le in
        let f = forward_put_lem now (record q { version = v }) n.repl.next_stub stub n.repl e w in
        let taken : (handle_put roles now q n)
            ≡ put_at_head now (roles.tail q.key n.repl.ring_size) q n =
          ground arith in
        rw (taken, put_at_head-before now _ q n l room, z)
          (
            refl,
            refl,
            (λ k. committed-put n.kv q.key q.value none k),
            inl (omega arith, (put-assigns n.kv q.key q.value room).3),
            f.0,
            f.1,
          )
    | inr z ↦
        let f = forward_put_lem now q n.repl.next_stub stub n.repl e w in
        let taken : (handle_put roles now q n)
            ≡ put_versioned now (roles.tail q.key n.repl.ring_size) q n =
          ground arith in
        rw (taken, put_versioned-before now _ q n l, z)
          (
            refl,
            refl,
            (λ k. ground (arith, committed-put n.kv q.key q.value (some q.version) k)),
            split_bound (committed_version n.kv q.key) q.version
                (λ g.
                  rw
                    (
                      leb-false q.version (committed_version n.kv q.key) g,
                      put-offered n.kv q.key q.value q.version g,
                    )
                    (ground (
                      arith,
                      dirty_record-add_dirty n.kv q.key q.version
                          (record { verison = q.version; value = q.value }) q.key q.version,
                      eq_refl q.key,
                    )))
                (λ g. rw (le→leb q.version (committed_version n.kv q.key) g)),
            f.0,
            f.1,
          )
  ]
