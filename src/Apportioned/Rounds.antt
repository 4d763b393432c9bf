-- ===== src/Apportioned/Rounds.antt =====
-- A write at a node before the last, from its arrival to its ack: `handle_put` and `handle_ack` of
-- src/replication/craq/craq_replication.cpp and src/replication/crown/crown_replication.cpp.
use crown_kv.Common.{
  Bool-cases, ℕ, ◌<◌, ◌≡◌, ◌≢◌, ap, refl, ◌∙◌, inl, inr, arith, if◌then◌else◌, true, false, Option,
  none, some, Text, text_eq, text_beq_iff, eq_sound, nat_eq, ◌==◌, find,
}
use crown_kv.Messages.{PutRequest}
use crown_kv.KvStore.{KvStore, Record, put}
use crown_kv.KvStore.Views.{
  committed, committed_version, dirty_record, promote, dirty_record-add_dirty,
}
use crown_kv.Replication.{Stub, PendingEntry, Node, restage}
use crown_kv.Apportioned.{Roles, is_last, put_at_head, put_versioned, handle_put, handle_ack}
use crown_kv.Apportioned.Puts.{accepts, write_version, HasRoom}
use crown_kv.Apportioned.Forwards.{handle_put-forwards}
use crown_kv.Apportioned.Acks.{handle_ack_lem}
use crown_kv.Server.Views.{view-apportioned_put}

request-restage :
    (now : ℕ) (q : PutRequest) (o : Option PendingEntry) → (restage now q o).request ≡ q
request-restage now q none = refl
request-restage now q (some entry) = refl

promote_newer :
    (v : ℕ) (x : Text) (c : Option Record)
    → (elim c [ none ↦ 0 | some r ↦ r.verison ]) < v
    → promote (some (record { verison = v; value = x })) c
      ≡ some (record { verison = v; value = x })
promote_newer v x none h = refl
promote_newer v x (some r) h = ground arith

dirty_record-put :
    (s : KvStore) (key x : Text) (version : Option ℕ) (k : Text) (u : ℕ)
    → (key == k) ≡ false
    → dirty_record (put s key x version).0 k u ≡ dirty_record s k u
unfolding put
dirty_record-put s key x none k u h = dirty_record-add_dirty s key _ _ k u ∙ rw h
dirty_record-put s key x (some v) k u h =
    ground (arith, h, dirty_record-add_dirty s key v (record { verison = v; value = x }) k u)

module _ (roles : Roles) (now : ℕ) (q : PutRequest) (n : Node) (stub : Stub) where
  ring_size-handle_put : (handle_put roles now q n).0.repl.ring_size ≡ n.repl.ring_size
  ring_size-handle_put = ap (λ t. t.ring_size) (view-apportioned_put roles now q n)

  -- The committed records after the ack, once the request that was pending is known.
  committed_ack :
      (v : ℕ) (s1 s2 : KvStore) (j : Text) (t : PutRequest)
      → t ≡ record q { version = v; epoch = n.repl.epoch }
      → dirty_record s1 q.key v ≡ some (record { verison = v; value = q.value })
      → committed s1 j ≡ committed n.kv j
      → committed_version n.kv q.key < v
      → committed s2 j ≡ (
          if t.key == j
          then promote (dirty_record s1 t.key t.version) (committed s1 j)
          else committed s1 j)
      → committed s2 j
        ≡ (if q.key == j then some (record { verison = v; value = q.value }) else committed n.kv j)
  unfolding committed_version
  committed_ack v s1 s2 j t p d e g h =
      let c = rw p at h in
      elim (Bool-cases (q.key == j)) [
        | inl i ↦
            c
            ∙ rw (i, d, e)
                (promote_newer v q.value (committed n.kv j) (rw (eq_sound q.key j i) at g))
        | inr i ↦ c ∙ rw (i, e)
      ]

  -- A write that is above the committed version of its key, and that a node before the last one
  -- accepts and forwards, is committed at that node under its version when its ack arrives; the
  -- committed records of other keys stay, and nothing is pending under its id. (The version has to
  -- fit 64 bits, and the node is not shutting down.)
  pub handle_ack-handle_put :
      accepts roles q n ≡ true
      → is_last (roles.tail q.key n.repl.ring_size) n.repl ≡ false
      → n.repl.next_stub ≡ some stub
      → HasRoom q n
      → n.repl.forward_shutdown ≡ false
      → committed_version n.kv q.key < write_version q n
      → let n' = handle_ack roles q.request_id (handle_put roles now q n).0 in
        ((k : Text)
          → committed n'.kv k ≡ (
              if q.key == k
              then some (record { verison = write_version q n; value = q.value })
              else committed n.kv k))
        × (find q.request_id n'.repl.pending_acks ≡ none)
  unfolding committed_version
  handle_ack-handle_put a l e h w g =
      let v = write_version q n in
      let q' : PutRequest = record q { version = v; epoch = n.repl.epoch } in
      let f = handle_put-forwards roles now q n stub a l e h w in
      let entry : PendingEntry = restage now q' (find q.request_id n.repl.pending_acks) in
      let p : entry.request ≡ q' = request-restage now q' (find q.request_id n.repl.pending_acks) in
      let n1 = (handle_put roles now q n).0 in
      let d : dirty_record n1.kv q.key v ≡ some (record { verison = v; value = q.value }) =
        elim f.3 [ inl (_, d) ↦ d | inr (b, _) ↦ absurd (omega (arith, b, g)) ] in
      let ring : n1.repl.ring_size ≢ 0 = rw ring_size-handle_put (ground (arith, a)) in
      let k = handle_ack_lem roles q.request_id n1 entry f.4 ring in
      (
        (λ j.
            committed_ack v n1.kv (handle_ack roles q.request_id n1).kv j entry.request p d (f.2 j)
              g (k.0 j)),
        ground (arith, k.2 q.request_id),
      )

  dirty_record-handle_put :
      (k : Text) (u : ℕ)
      → (q.key == k) ≡ false
      → is_last (roles.tail q.key n.repl.ring_size) n.repl ≡ false
      → dirty_record (handle_put roles now q n).0.kv k u ≡ dirty_record n.kv k u
  unfolding handle_put put_at_head put_versioned
  dirty_record-handle_put k u h l = ground (
    arith,
    l,
    h,
    dirty_record-put n.kv q.key q.value none k u h,
    dirty_record-put n.kv q.key q.value (some q.version) k u h,
  )

  -- A write under the id of a pending write of another key replaces it: after one ack for that id
  -- the earlier write is no longer pending, but still dirty and not committed. (The later one is
  -- accepted and forwarded, its version fits 64 bits, and the node is not shutting down.)
  pub handle_ack_replaced :
      (old : PendingEntry) (d : Record)
      → accepts roles q n ≡ true
      → is_last (roles.tail q.key n.repl.ring_size) n.repl ≡ false
      → n.repl.next_stub ≡ some stub
      → HasRoom q n
      → n.repl.forward_shutdown ≡ false
      → find q.request_id n.repl.pending_acks ≡ some old
      → old.request.key ≢ q.key
      → dirty_record n.kv old.request.key old.request.version ≡ some d
      → let n' = handle_ack roles q.request_id (handle_put roles now q n).0 in
        (find q.request_id n'.repl.pending_acks ≡ none)
        × (dirty_record n'.kv old.request.key old.request.version ≡ some d)
        × (committed n'.kv old.request.key ≡ committed n.kv old.request.key)
  handle_ack_replaced old d a l e h w o ne b =
      let v = write_version q n in
      let q' : PutRequest = record q { version = v; epoch = n.repl.epoch } in
      let f = handle_put-forwards roles now q n stub a l e h w in
      let entry : PendingEntry = restage now q' (find q.request_id n.repl.pending_acks) in
      let p : entry.request ≡ q' = request-restage now q' (find q.request_id n.repl.pending_acks) in
      let n1 = (handle_put roles now q n).0 in
      let ring : n1.repl.ring_size ≢ 0 = rw ring_size-handle_put (ground (arith, a)) in
      let k = handle_ack_lem roles q.request_id n1 entry f.4 ring in
      let other : (q.key == old.request.key) ≡ false =
        ground (arith, text_beq_iff q.key old.request.key, ne) in
      let c = rw p at k.0 old.request.key in
      let c' = rw p at k.1 old.request.key old.request.version in
      (
        ground (arith, k.2 q.request_id),
        c' ∙ rw other (dirty_record-handle_put old.request.key old.request.version other l ∙ b),
        c ∙ rw other (f.2 old.request.key),
      )
