-- ===== src/Network/Handlers.antt =====
-- What the handlers come to at a node that has its place in the cluster:
-- `handle_put` and `handle_ack` of src/replication/craq/craq_replication.cpp and
-- src/replication/crown/crown_replication.cpp.
use crown_kv.Common.{
  ℕ, ◌<◌, ◌≡◌, ◌≢◌, refl, sym, ap, ◌∙◌, arith, nat_beq, none, some, List, [], ◌∷◌, text_eq, nat_eq,
  if◌then◌else◌, zero, suc, All, All-get_elem?, find,
}
use crown_kv.Messages.{PutRequest, NodeInfo}
use crown_kv.KvStore.{mark_clean}
use crown_kv.Replication.{
  Stub, make_replication_stub, PendingEntry, Replication, Node, send_ack, erase_pending_ack,
}
use crown_kv.Apportioned.{Roles, is_last, handle_put, handle_ack, put_versioned, put_at_head}
use crown_kv.Network.{IsAt, IsPlaced}

-- No two members have one address.
abbrev pub AreApart : List NodeInfo → Type 0
AreApart members = (i j : ℕ) (stub : Stub) → IsAt members i stub → IsAt members j stub → i ≡ j

pub placed-is_last :
    (members : List NodeInfo) (i tail : ℕ) (r : Replication)
    → IsPlaced members i r
    → is_last tail r ≡ nat_beq i tail
unfolding is_last
placed-is_last members i tail r p = let (stub, e, at) = p.next in ground (arith, e, p.index)

-- The node accepts a put that has a version.
pub handle_put-versioned :
    (roles : Roles) (now : ℕ) (q : PutRequest) (n : Node)
    → n.repl.ring_size ≢ 0
    → 0 < q.version
    → handle_put roles now q n ≡ put_versioned now (roles.tail q.key n.repl.ring_size) q n
unfolding handle_put
handle_put-versioned roles now q n r v = ground arith

pub handle_put-at_head :
    (roles : Roles) (now : ℕ) (q : PutRequest) (n : Node)
    → n.repl.ring_size ≢ 0
    → q.version ≡ 0
    → n.repl.node_index ≡ roles.head q.key n.repl.ring_size
    → handle_put roles now q n ≡ put_at_head now (roles.tail q.key n.repl.ring_size) q n
unfolding handle_put
handle_put-at_head roles now q n r v e = ground arith

pub handle_ack-none :
    (roles : Roles) (id : ℕ) (n : Node)
    → find id n.repl.pending_acks ≡ none
    → handle_ack roles id n ≡ n
unfolding handle_ack
handle_ack-none roles id n e = ground (arith, e)

pub handle_ack-found :
    (roles : Roles) (id : ℕ) (n : Node) (entry : PendingEntry)
    → find id n.repl.pending_acks ≡ some entry
    → n.repl.ring_size ≢ 0
    → let q = entry.request in
      let acked =
        if nat_beq n.repl.node_index (roles.head q.key n.repl.ring_size)
        then n.repl
        else send_ack q n.repl.prev_stub n.repl in
      handle_ack roles id n ≡ record {
        kv = mark_clean n.kv q.key q.version;
        repl = record acked { pending_acks = erase_pending_ack id acked.pending_acks };
      }
unfolding handle_ack
handle_ack-found roles id n entry e r = ground (arith, e)

-- The addresses of a list of members, each another one than those before it.
abbrev pub AreDistinct : List NodeInfo → Type 0
AreDistinct [] = Unit
AreDistinct (m ∷ ms) =
    All (λ (x : NodeInfo). make_replication_stub m ≢ make_replication_stub x) ms × AreDistinct ms

pub AreDistinct-AreApart : (ms : List NodeInfo) → AreDistinct ms → AreApart ms
AreDistinct-AreApart [] d i j stub (x, e, p) b = cc
AreDistinct-AreApart (m ∷ ms) d zero zero stub a b = refl
AreDistinct-AreApart (m ∷ ms) d zero (suc j) stub (x, e, p) (y, f, q) = absurd (
    All-get_elem? (λ (z : NodeInfo). make_replication_stub m ≢ make_replication_stub z) ms j d.0 f
      (let same : m ≡ x = cc in ap make_replication_stub same ∙ p ∙ sym q))
AreDistinct-AreApart (m ∷ ms) d (suc i) zero stub (x, e, p) (y, f, q) = absurd (
    All-get_elem? (λ (z : NodeInfo). make_replication_stub m ≢ make_replication_stub z) ms i d.0 e
      (let same : m ≡ y = cc in ap make_replication_stub same ∙ q ∙ sym p))
AreDistinct-AreApart (m ∷ ms) d (suc i) (suc j) stub a b =
    ap suc (AreDistinct-AreApart ms d.1 i j stub a b)
