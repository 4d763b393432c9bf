-- ===== src/Network/Agreement.antt =====
-- What the nodes of a cluster have in common in every state that is reached:
-- src/replication/craq/craq_replication.cpp and src/replication/crown/crown_replication.cpp.
use mathlib.Core.List.{Memᴰ}
use crown_kv.Common.{
  ℕ, ◌≤◌, ◌<◌, ◌≡◌, ◌⊎◌, inl, inr, some, List, Text, text_eq, nat_eq, All-member, length,
}
use crown_kv.Messages.{NodeInfo, CommitAck}
use crown_kv.KvStore.{Record, KvStore}
use crown_kv.KvStore.Views.{committed, committed_version, dirty_record}
use crown_kv.Replication.{commit_ack_call}
use crown_kv.Apportioned.{Roles}
use crown_kv.Network.{Write, System, Reach}
use crown_kv.Network.Rings.{IsRing}
use crown_kv.Network.Stores.{Holds}
use crown_kv.Network.Safety.{IsIssued, IsIssued-unique}
use crown_kv.Network.Traffic.{IsSound}
use crown_kv.Network.Invariant.{Inv, stores_of}
use crown_kv.Network.Handlers.{AreApart}
use crown_kv.Network.Reached.{Reach-Inv}

-- The node has the value for this version of the key, as a committed or as a dirty record.
abbrev pub HasValue : KvStore → Text → ℕ → Text → Type 0
HasValue s key v value =
    (r : Record) × (r.value ≡ value)
    × (((r.verison ≡ v) × (committed s key ≡ some r)) ⊎ (dirty_record s key v ≡ some r))

module _ (roles : Roles) (members : List NodeInfo) (ring : IsRing roles (length members))
    (apart : AreApart members) (s : System) (reach : Reach roles members s) where
  abbrev n : ℕ
  n = length members

  inv : Inv roles members s
  inv = Reach-Inv roles members ring apart reach

  HasValue-IsIssued :
      (i : ℕ) (key : Text) (v : ℕ) (value : Text)
      → i < n
      → HasValue (s.nodes i).kv key v value
      → IsIssued s.issued key v value
  HasValue-IsIssued i key v value l (r, e, inl (d, c)) =
      rw (← e, ← d) ((inv.safe.stored i l).clean key r c)
  HasValue-IsIssued i key v value l (r, e, inr d) = rw (← e) ((inv.safe.stored i l).dirty key v r d)

  -- Two nodes that have records of one key under the same version, committed or dirty, have the
  -- same value. It holds in every state that a cluster reaches from fresh nodes by client writes at
  -- the head, forwards and acks that arrive late, in any order, repeatedly or never, forward
  -- workers that take their tasks in order and send them in any, and rounds of the retry loop.
  -- (There are two or more members with different addresses, the membership stays, each key's tail
  -- is the node before its head, clients' request ids differ, and versions fit 64 bits.)
  pub records_agree :
      (i j : ℕ) (key : Text) (v : ℕ) (x y : Text)
      → i < n
      → j < n
      → HasValue (s.nodes i).kv key v x
      → HasValue (s.nodes j).kv key v y
      → x ≡ y
  records_agree i j key v x y l m f g =
      IsIssued-unique roles n (stores_of s.nodes) s.issued inv.safe.numbered key v x y
        (HasValue-IsIssued i key v x l f) (HasValue-IsIssued j key v y m g)

  -- No node has committed a later version of a key than its tail, and every node holds the version
  -- that the tail has committed: as a dirty record, or because it has committed that version too.
  -- It holds in every state that a cluster reaches from fresh nodes by client writes at the head,
  -- forwards and acks that arrive late, in any order, repeatedly or never, forward workers that
  -- take their tasks in order and send them in any, and rounds of the retry loop. (There are two or
  -- more members with different addresses, the membership stays, each key's tail is the node before
  -- its head, clients' request ids differ, and versions fit 64 bits.)
  pub committed_version-tail :
      (i : ℕ) (key : Text)
      → i < n
      → let tail = roles.tail key n in
        let v = committed_version (s.nodes tail).kv key in
        (committed_version (s.nodes i).kv key ≤ v) × Holds (s.nodes i).kv key v
  committed_version-tail i key l = (inv.safe.behind i key l, inv.safe.held i key l)

  -- A commit ack that a node has sent is for an accepted write, and the tail has committed it or a
  -- later version of the key.
  pub commit_ack_sound :
      (i : ℕ) (address : Text) (a : CommitAck)
      → i < n
      → Memᴰ (commit_ack_call address a) (s.nodes i).repl.calls
      → ((w : Write) × Memᴰ w s.issued × (w.key ≡ a.key) × (w.version ≡ a.version))
        × (a.version ≤ committed_version (s.nodes (roles.tail a.key n)).kv a.key)
  commit_ack_sound i address a l m =
      let (w, (mw, le), kw, vw) =
        All-member (IsSound roles members (stores_of s.nodes) s.issued i) _ (inv.sound i l).calls
          m in
      ((w, mw, kw, vw), rw (← kw, ← vw) le)
