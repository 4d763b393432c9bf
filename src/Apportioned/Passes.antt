-- ===== src/Apportioned/Passes.antt =====
-- A write on its way along a chain of nodes, and its acks on their way back: `handle_put` and
-- `handle_ack` of src/replication/craq/craq_replication.cpp and
-- src/replication/crown/crown_replication.cpp, one node after the other.
use crown_kv.Common.{
  ℕ, ◌<◌, ◌≡◌, ◌≢◌, ap, refl, sym, ◌∙◌, ◌^◌, arith, Bool-cases, inl, inr, if◌then◌else◌, true,
  false, Option, none, some, List, [], ◌∷◌, ◌++◌, Text, text_eq, eq_sound, nat_eq, ◌==◌,
}
use crown_kv.Messages.{PutRequest}
use crown_kv.KvStore.{put}
use crown_kv.KvStore.Views.{committed, committed_version, committed-mark_clean}
use crown_kv.Replication.{Stub, Call, put_call, Node}
use crown_kv.Replication.Queue.{outgoing}
use crown_kv.Apportioned.{Roles, is_last, put_at_head, put_versioned, handle_put, handle_ack}
use crown_kv.Apportioned.Puts.{accepts, write_version, HasRoom, handle_put-commits}
use crown_kv.Apportioned.Forwards.{committed-put, handle_put-forwards}
use crown_kv.Apportioned.Rounds.{handle_ack-handle_put}

-- The write that was handed on last.
unfoldable pub last_put : List Call → Option PutRequest
last_put [] = none
last_put (put_call stub q ∷ []) = some q
last_put (_ ∷ []) = none
last_put (_ ∷ call ∷ calls) = last_put (call ∷ calls)

last_put-append :
    (calls : List Call) (stub : Stub) (q : PutRequest)
    → last_put (calls ++ put_call stub q ∷ []) ≡ some q
unfolding last_put
last_put-append [] stub q = refl
last_put-append (c ∷ []) stub q = refl
last_put-append (c ∷ d ∷ calls) stub q = last_put-append (d ∷ calls) stub q

module _ (roles : Roles) where
  -- The chain of a key: the last node, and those before it, with a membership, and without a version
  -- of the key that is committed and not below `v`.
  abbrev pub IsPath : Text → ℕ → List Node → Type 0
  IsPath key v [] = ⊥
  IsPath key v (n ∷ []) =
      (n.repl.ring_size ≢ 0)
      × (is_last (roles.tail key n.repl.ring_size) n.repl ≡ true)
      × (committed_version n.kv key < v)
  IsPath key v (n ∷ next ∷ rest) =
      (n.repl.ring_size ≢ 0)
      × (is_last (roles.tail key n.repl.ring_size) n.repl ≡ false)
      × ((stub : Stub) × (n.repl.next_stub ≡ some stub))
      × (n.repl.forward_shutdown ≡ false)
      × (committed_version n.kv key < v)
      × IsPath key v (next ∷ rest)

-- The key's record is committed at each node, and those of other keys stay.
abbrev pub AreSettled : Text → ℕ → Text → List Node → List Node → Type 0
AreSettled key v value [] [] = Unit
AreSettled key v value (n ∷ nodes) (n' ∷ nodes') =
    ((k : Text)
      → committed n'.kv k
        ≡ (if key == k then some (record { verison = v; value = value }) else committed n.kv k))
    × AreSettled key v value nodes nodes'
AreSettled key v value _ _ = ⊥

module _ (roles : Roles) (now : ℕ) where
  -- Each node gets what the one before has handed on, and its ack once that has arrived.
  unfoldable pub pass_write : PutRequest → List Node → List Node
  unfolding last_put
  pass_write q [] = []
  pass_write q (n ∷ []) = (handle_put roles now q n).0 ∷ []
  pass_write q (n ∷ next ∷ rest) =
      let n' = (handle_put roles now q n).0 in
      elim (last_put (outgoing n'.repl)) [
        | none ↦ n' ∷ next ∷ rest
        | some q' ↦ handle_ack roles q.request_id n' ∷ pass_write q' (next ∷ rest)
      ]

  committed_other :
      (q : PutRequest) (n : Node) (k : Text)
      → (q.key == k) ≡ false
      → committed (handle_put roles now q n).0.kv k ≡ committed n.kv k
  unfolding handle_put put_at_head put_versioned
  committed_other q n k h =
      let assigned = put n.kv q.key q.value none in
      let offered = put n.kv q.key q.value (some q.version) in
      ground (
        arith,
        h,
        committed-put n.kv q.key q.value none k,
        committed-put n.kv q.key q.value (some q.version) k,
        committed-mark_clean assigned.0 q.key assigned.1 k,
        committed-mark_clean offered.0 q.key q.version k,
      )

  last_node :
      (q : PutRequest) (n : Node) (v : ℕ)
      → accepts roles q n ≡ true
      → HasRoom q n
      → write_version q n ≡ v
      → IsPath roles q.key v (n ∷ [])
      → AreSettled q.key v q.value (n ∷ []) (pass_write q (n ∷ []))
  unfolding pass_write
  last_node q n v a h e (r, l, c) = (settled, tt)
    where
      settled :
          (k : Text)
          → committed (handle_put roles now q n).0.kv k ≡ (
              if q.key == k
              then some (record { verison = v; value = q.value })
              else committed n.kv k)
      settled k = elim (Bool-cases (q.key == k)) [
        | inr o ↦ rw o (committed_other q n k o)
        | inl o ↦
            let commits = (handle_put-commits roles now q n a l h).2 in
            rw (o, sym e)
              (elim commits [
                | inl (_, d) ↦
                    ap (committed (handle_put roles now q n).0.kv) (sym (eq_sound q.key k o)) ∙ d
                | inr (b, _) ↦ absurd (omega (arith, b, c, e))
              ])
      ]

  pass_write-handed :
      (q q' : PutRequest) (n next : Node) (rest : List Node)
      → let n' = (handle_put roles now q n).0 in
        last_put (outgoing n'.repl) ≡ some q'
        → pass_write q (n ∷ next ∷ rest)
          ≡ handle_ack roles q.request_id (handle_put roles now q n).0 ∷ pass_write q' (next ∷ rest)
  unfolding pass_write
  pass_write-handed q q' n next rest e = rw (e, pass_write) refl

  -- A node takes a write that comes with a version.
  accepts_versioned :
      (q : PutRequest) (n : Node)
      → n.repl.ring_size ≢ 0
      → 0 < q.version
      → (accepts roles q n ≡ true) × (write_version q n ≡ q.version)
  accepts_versioned q n r v = ground arith

  IsPath-first :
      (key : Text) (v : ℕ) (n : Node) (rest : List Node)
      → IsPath roles key v (n ∷ rest)
      → (n.repl.ring_size ≢ 0) × (committed_version n.kv key < v)
  IsPath-first key v n [] (r, l, c) = (r, c)
  IsPath-first key v n (next ∷ rest) (r, l, s, w, c, path) = (r, c)

  -- A write that goes along a chain, where each node gets what the one before has handed on and its
  -- ack after that, is committed at every node of the chain under one version, and the committed
  -- records of other keys stay. The first node accepts it, the last one alone is the last for its
  -- key, the others have a successor and are not shutting down, each has a membership and no
  -- committed version of the key that is not below the write's, and that fits 64 bits.
  pub pass_write-AreSettled :
      (q : PutRequest) (n : Node) (rest : List Node) (v : ℕ)
      → accepts roles q n ≡ true
      → write_version q n ≡ v
      → v < 2 ^ 64
      → IsPath roles q.key v (n ∷ rest)
      → AreSettled q.key v q.value (n ∷ rest) (pass_write q (n ∷ rest))
  pass_write-AreSettled q n [] v a e h path = last_node q n v a (omega (arith, h, e)) e path
  pass_write-AreSettled q n (next ∷ rest) v a e h (r, l, (stub, at), w, c, path) =
      let q' : PutRequest = record q { version = write_version q n; epoch = n.repl.epoch } in
      let n' = (handle_put roles now q n).0 in
      let room : HasRoom q n = omega (arith, h, e) in
      let forwards = handle_put-forwards roles now q n stub a l at room w in
      let handed : last_put (outgoing n'.repl) ≡ some q' =
        ap last_put forwards.5 ∙ last_put-append (outgoing n.repl) stub q' in
      let back = (handle_ack-handle_put roles now q n stub a l at room w (omega (arith, c, e))).0 in
      let (r', c') = IsPath-first q.key v next rest path in
      let (a', e') = accepts_versioned q' next r' (omega (arith, e, c')) in
      rw (pass_write-handed q q' n next rest handed)
        (rw e at back, pass_write-AreSettled q' next rest v a' (e' ∙ e) h path)
