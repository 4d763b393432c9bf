-- ===== src/Client/Reads.antt =====
-- The node that src/client/client.cpp sends a read to, and what that node and the tail say.
use crown_kv.Common.{
  ℕ, ◌-◌, ◌<◌, ◌≡◌, ◌≢◌, refl, inl, inr, arith, false, Bool-cases, Option-cases, nat_beq, ltb,
  Option, none, some, Text, text_eq, pos, length, get_elem?,
}
use crown_kv.Messages.{
  NodeInfo, MembershipResponse, VersionQueryRequest, VersionQueryResponse, Error,
}
use crown_kv.Ring.{head_index, tail_index}
use crown_kv.KvStore.{KvStore}
use crown_kv.Replication.{Node, make_replication_stub}
use crown_kv.Apportioned.{
  Roles, get_version, get_answered, get_dirty, get_dirty_record, has_dirty, get_committed_state,
}
use crown_kv.Apportioned
use crown_kv.Chain
use crown_kv.Craq
use crown_kv.Crown
use crown_kv.Server.{Process, Mode, chain_mode, craq_mode, crown_mode, select_mode, selected}
use crown_kv.Server.Gateway.{Query, node_of, handle_get, catch_up, get, version_query}
use crown_kv.Client.{MembershipState, select_read_node_index, refreshes_get}

-- Where the nodes serve the reads of a key, and where its tail is.
abbrev pub reader_of : Mode → Text → ℕ → ℕ
reader_of chain_mode key ring_size = ring_size - 1
reader_of craq_mode key ring_size = head_index key ring_size
reader_of crown_mode key ring_size = head_index key ring_size

abbrev pub tail_of : Mode → Text → ℕ → ℕ
tail_of chain_mode key ring_size = ring_size - 1
tail_of craq_mode key ring_size = ring_size - 1
tail_of crown_mode key ring_size = tail_index key ring_size

pub select_read_node_index-reader_of :
    (membership : MembershipState) (key : Text) (mode : Mode)
    → 0 < length membership.members
    → select_mode membership.mode ≡ some mode
    → select_read_node_index membership key ≡ pos (reader_of mode key (length membership.members))
unfolding select_read_node_index select_mode
select_read_node_index-reader_of membership key mode h e = ground (arith, e)

-- An answer after which the client does not ask for the membership.
abbrev pub IsFinal : Error → Type 0
IsFinal e = refreshes_get e ≡ false

get_version-IsFinal : (s : KvStore) (key : Text) (v : ℕ) → IsFinal (get_version s key v).error
unfolding get_version refreshes_get
get_version-IsFinal s key v = ground arith

-- What a version query brings is final, if it brings anything.
abbrev pub IsQuiet : Option VersionQueryResponse → Type 0
IsQuiet none = Unit
IsQuiet (some a) = IsFinal a.error

get_answered-IsFinal :
    (s : KvStore) (key : Text) (o : Option VersionQueryResponse)
    → IsQuiet o
    → IsFinal (get_answered s key o).error
unfolding get_answered refreshes_get
get_answered-IsFinal s key none h = refl
get_answered-IsFinal s key (some a) h =
    ground (arith, h, get_version-IsFinal s key a.committed_version)

module _ (roles : Roles) (query : Query) (key : Text) (n : Node) where
  -- If the node at the tail's place is quiet.
  abbrev pub AsksQuiet : Type 0
  AsksQuiet =
      (node : NodeInfo)
      → get_elem? n.repl.membership (roles.tail key n.repl.ring_size) ≡ some node
      → IsQuiet (query (make_replication_stub node) (record { key = key; epoch = n.repl.epoch }))

  get_dirty-IsFinal : AsksQuiet → IsFinal (get_dirty roles query key n).error
  unfolding get_dirty refreshes_get
  get_dirty-IsFinal h =
      elim (Bool-cases (nat_beq n.repl.node_index (roles.tail key n.repl.ring_size))) [
        | inl e ↦ rw (e, get_dirty) (get_version-IsFinal n.kv key _)
        | inr e ↦
            elim (Option-cases (get_elem? n.repl.membership (roles.tail key n.repl.ring_size))) [
              | inl f ↦ rw (e, f, get_dirty) refl
              | inr (node, f) ↦ rw (e, f, get_dirty) (get_answered-IsFinal n.kv key _ (h node f))
            ]
      ]

  apportioned_get-IsFinal :
      n.repl.ring_size ≢ 0 → AsksQuiet → IsFinal (Apportioned.handle_get roles query key n).error
  unfolding Apportioned.handle_get refreshes_get
  apportioned_get-IsFinal r h = ground (arith, get_dirty-IsFinal h)

chain_get-IsFinal :
    (key : Text) (n : Node)
    → n.repl.ring_size ≢ 0
    → n.repl.node_index ≡ n.repl.ring_size - 1
    → IsFinal (Chain.handle_get key n).error
unfolding Chain.handle_get refreshes_get
chain_get-IsFinal key n r i = ground arith

-- What the nodes of a mode ask the tail.
abbrev pub AsksTail : Mode → Query → Text → Node → Type 0
AsksTail chain_mode query key n = Unit
AsksTail craq_mode query key n = AsksQuiet Craq.roles query key n
AsksTail crown_mode query key n = AsksQuiet Crown.roles query key n

handle_get-IsFinal :
    (mode : Mode) (query : Query) (key : Text) (n : Node)
    → n.repl.ring_size ≢ 0
    → n.repl.node_index ≡ reader_of mode key n.repl.ring_size
    → AsksTail mode query key n
    → IsFinal (handle_get mode query key n).error
unfolding handle_get Craq.handle_get Crown.handle_get
handle_get-IsFinal chain_mode query key n r i h = chain_get-IsFinal key n r i
handle_get-IsFinal craq_mode query key n r i h = apportioned_get-IsFinal Craq.roles query key n r h
handle_get-IsFinal crown_mode query key n r i h =
    apportioned_get-IsFinal Crown.roles query key n r h

catch_up-now :
    (now : ℕ) (answer : Option MembershipResponse) (epoch : ℕ) (p : Process)
    → epoch ≡ p.server.epoch
    → catch_up now answer epoch p ≡ p
unfolding catch_up
catch_up-now now answer epoch p e =
    let known : ltb p.server.epoch epoch ≡ false = ground (arith, e) in rw known refl

-- The process, in its own epoch.
get_now :
    (now : ℕ) (answer : Option MembershipResponse) (query : Query) (key : Text) (epoch : ℕ)
    (mode : Mode) (p : Process)
    → epoch ≡ p.server.epoch
    → select_mode p.server.mode ≡ some mode
    → (get now answer query key epoch p).1 ≡ handle_get mode query key (node_of mode p)
unfolding get
get_now now answer query key epoch mode p e m =
    let fresh : ltb epoch p.server.epoch ≡ false = ground (arith, e) in
    rw (m, get) (rw (fresh, catch_up-now now answer epoch p e) refl)

apportioned_query-IsFinal :
    (roles : Roles) (q : VersionQueryRequest) (n : Node)
    → n.repl.ring_size ≢ 0
    → n.repl.node_index ≡ roles.tail q.key n.repl.ring_size
    → IsFinal (Apportioned.handle_version_query roles q n).error
unfolding Apportioned.handle_version_query refreshes_get
apportioned_query-IsFinal roles q n r i = ground arith

-- A version query of the tail, in its own epoch, in one of the two modes that have it.
pub version_query-IsFinal :
    (now : ℕ) (answer : Option MembershipResponse) (q : VersionQueryRequest) (mode : Mode)
    (p : Process)
    → q.epoch ≡ p.server.epoch
    → select_mode p.server.mode ≡ some mode
    → mode ≢ chain_mode
    → (selected mode p).ring_size ≢ 0
    → (selected mode p).node_index ≡ tail_of mode q.key (selected mode p).ring_size
    → IsFinal (version_query now answer q p).1.error
unfolding version_query selected Craq.handle_version_query Crown.handle_version_query
version_query-IsFinal now answer q chain_mode p e m c r i = absurd (c refl)
version_query-IsFinal now answer q craq_mode p e m c r i =
    let fresh : ltb q.epoch p.server.epoch ≡ false = ground (arith, e) in
    rw (fresh, m, catch_up-now now answer q.epoch p e)
      (apportioned_query-IsFinal Craq.roles q (node_of craq_mode p) r i)
version_query-IsFinal now answer q crown_mode p e m c r i =
    let fresh : ltb q.epoch p.server.epoch ≡ false = ground (arith, e) in
    rw (fresh, m, catch_up-now now answer q.epoch p e)
      (apportioned_query-IsFinal Crown.roles q (node_of crown_mode p) r i)

pub get-IsFinal :
    (now : ℕ) (answer : Option MembershipResponse) (query : Query) (key : Text) (epoch : ℕ)
    (mode : Mode) (p : Process)
    → epoch ≡ p.server.epoch
    → select_mode p.server.mode ≡ some mode
    → (selected mode p).ring_size ≢ 0
    → (selected mode p).node_index ≡ reader_of mode key (selected mode p).ring_size
    → AsksTail mode query key (node_of mode p)
    → IsFinal (get now answer query key epoch p).1.error
get-IsFinal now answer query key epoch mode p e m r i h =
    rw (get_now now answer query key epoch mode p e m)
      (handle_get-IsFinal mode query key (node_of mode p) r i h)
