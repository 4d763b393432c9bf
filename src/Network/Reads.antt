-- ===== src/Network/Reads.antt =====
-- A read at any node of the cluster: `handle_get` and `handle_version_query` of
-- src/replication/craq/craq_replication.cpp and src/replication/crown/crown_replication.cpp.
use mathlib.Core.List.{Memᴰ}
use crown_kv.Common.{
  ℕ, ◌≤◌, ◌<◌, ◌≡◌, ◌≢◌, inl, inr, refl, sym, ap, ◌∙◌, arith, Bool-cases, true, false, nat_beq,
  none, some, Option, Option-cases, List, Text, text_eq, nat_eq, length, get_elem?, get_elem?-some,
}
use crown_kv.Messages.{NodeInfo, VersionQueryRequest, VersionQueryResponse, no_error, not_found}
use crown_kv.KvStore.{Record}
use crown_kv.KvStore.Views.{committed, committed_version}
use crown_kv.Replication.{Stub, make_replication_stub, commit_ack_call, Node}
use crown_kv.Apportioned.{
  Roles, has_dirty, get_answered, get_dirty, get_success, get_committed_state, handle_get,
  handle_version_query,
}
use crown_kv.Apportioned.Gets.{
  answer, IsVersioned, get-eq, handle_get-tail, get_committed_state-clean, version-committed,
}
use crown_kv.Network.{System, Reach, IsAt, IsPlaced}
use crown_kv.Network.Rings.{IsRing, IsRing-tail}
use crown_kv.Network.Safety.{IsIssued, IsIssued-unique}
use crown_kv.Network.Invariant.{Inv, stores_of}
use crown_kv.Network.Handlers.{AreApart}
use crown_kv.Network.Reached.{Reach-Inv}
use crown_kv.Network.Agreement.{commit_ack_sound}
use crown_kv.Network.Behind.{IsBehind, caught_up, get_answered-tail}

module _ (roles : Roles) (query : Stub → VersionQueryRequest → Option VersionQueryResponse)
    (key : Text) (n : Node) (sized : n.repl.ring_size ≢ 0) where
  handle_get-clean :
      has_dirty n.kv key ≡ false → handle_get roles query key n ≡ answer (committed n.kv key)
  unfolding handle_get
  handle_get-clean d = ground (arith, d, get-eq n.kv key, version-committed n.kv key)

  handle_get-dirty :
      (node : NodeInfo)
      → has_dirty n.kv key ≡ true
      → n.repl.node_index ≢ roles.tail key n.repl.ring_size
      → get_elem? n.repl.membership (roles.tail key n.repl.ring_size) ≡ some node
      → handle_get roles query key n
        ≡ get_answered n.kv key
            (query (make_replication_stub node) (record { key = key; epoch = n.repl.epoch }))
  unfolding handle_get get_dirty
  handle_get-dirty node d ne e = ground (arith, d, e)

-- A version query of the key, whatever the epoch, is answered by the key's tail in this state.
abbrev pub IsAnswered :
    Roles
    → List NodeInfo
    → System
    → Text
    → (Stub → VersionQueryRequest → Option VersionQueryResponse)
    → Type 0
IsAnswered roles members s key query =
    (stub : Stub) (epoch : ℕ)
    → IsAt members (roles.tail key (length members)) stub
    → query stub (record { key = key; epoch = epoch })
      ≡ some (
          handle_version_query roles (record { key = key; epoch = epoch })
            (s.nodes (roles.tail key (length members))))

module _ (roles : Roles) (members : List NodeInfo) (ring : IsRing roles (length members))
    (apart : AreApart members) (s : System) (reach : Reach roles members s) (key : Text) where
  abbrev n : ℕ
  n = length members

  abbrev tail : ℕ
  tail = roles.tail key n

  inv : Inv roles members s
  inv = Reach-Inv roles members ring apart reach

  pub is_versioned : (i : ℕ) → i < n → IsVersioned (s.nodes i).kv key
  is_versioned i l r e =
      let w = (inv.safe.stored i l).clean key r e in
      omega (arith, inv.safe.numbered.positive w.0 w.1, w.3)

  pub one_value :
      (v : ℕ) (x y : Text) → IsIssued s.issued key v x → IsIssued s.issued key v y → x ≡ y
  one_value = IsIssued-unique roles n (stores_of s.nodes) s.issued inv.safe.numbered key

  behind : (i : ℕ) → i < n → IsBehind key (s.nodes i).kv (s.nodes tail).kv
  behind i l =
      let m = IsRing-tail roles n key ring in
      record {
        le = inv.safe.behind i key l;
        held = inv.safe.held i key l;
        versioned = is_versioned i l;
        versioned_tail = is_versioned tail m;
        agree = λ r t e f same. cc (
          same,
          one_value t.verison r.value t.value (rw (← same) ((inv.safe.stored i l).clean key r e))
              ((inv.safe.stored tail m).clean key t f),
        );
        agree_dirty = λ r t e f.
            one_value t.verison r.value t.value ((inv.safe.stored i l).dirty key t.verison r e)
              ((inv.safe.stored tail m).clean key t f);
      }

  sized : (i : ℕ) → i < n → (s.nodes i).repl.ring_size ≢ 0
  sized i l e = omega (arith, e, (inv.sound i l).placed.size, l)

  -- What the tail answers to a version query.
  pub tail_answer :
      (epoch : ℕ)
      → handle_version_query roles (record { key = key; epoch = epoch }) (s.nodes tail)
        ≡ (elim (committed (s.nodes tail).kv key) [
          | none ↦ record { committed_version = 0; error = not_found }
          | some t ↦ record { committed_version = t.verison; error = no_error }
        ])
  unfolding handle_version_query get_committed_state committed
  tail_answer epoch =
      let m = IsRing-tail roles n key ring in
      let p = (inv.sound tail m).placed in ground (arith, p.index, p.size, sized tail m)

  module _ (query : Stub → VersionQueryRequest → Option VersionQueryResponse)
      (answers : IsAnswered roles members s key query) where
    -- A read of a key at any node answers with what the tail has committed at that moment, value
    -- and version, or that there is none, also while writes of the key are under way. It holds in
    -- every state that a cluster reaches from fresh nodes by client writes at the head, forwards
    -- and acks that arrive late, in any order, repeatedly or never, forward workers that take their
    -- tasks in order and send them in any, and rounds of the retry loop. (There are two or more
    -- members with different addresses, the membership stays, each key's tail is the node before
    -- its head, clients' request ids differ, and versions fit 64 bits.) The version query is
    -- answered by the tail.
    pub handle_get-IsStrong :
        (i : ℕ)
        → i < n
        → handle_get roles query key (s.nodes i) ≡ answer (committed (s.nodes tail).kv key)
    handle_get-IsStrong i l = elim (Bool-cases (nat_beq i tail)) [
      | inl e ↦
          let same : i ≡ tail = ground (arith, e) in
          handle_get-tail roles query key (s.nodes i) (inv.safe.stored i l).consistent
            (is_versioned i l) (sized i l) (p.index ∙ same ∙ sym (ap (roles.tail key) p.size))
          ∙ ap (λ j. answer (committed (s.nodes j).kv key)) same
      | inr e ↦ elim (Bool-cases (has_dirty (s.nodes i).kv key)) [
        | inr d ↦
            handle_get-clean roles query key (s.nodes i) (sized i l) d
            ∙ ap answer (
                caught_up key (s.nodes i).kv (s.nodes tail).kv (behind i l) (λ r f. ground (
                  arith,
                  f,
                  get_committed_state-clean (s.nodes i).kv key d
                      (committed_version (s.nodes tail).kv key),
                )))
        | inl d ↦
            handle_get-dirty roles query key (s.nodes i) (sized i l) node.0 d
              (λ q. ground (arith, q, e, p.index, p.size)) (rw (p.all, p.size) node.1)
            ∙ ap (get_answered (s.nodes i).kv key) (
                answers (make_replication_stub node.0) (s.nodes i).repl.epoch (node.0, node.1, refl)
                ∙ ap some (tail_answer (s.nodes i).repl.epoch))
            ∙ get_answered-tail key (s.nodes i).kv (s.nodes tail).kv (behind i l)
      ]
    ]
      where
        p : IsPlaced members i (s.nodes i).repl
        p = (inv.sound i l).placed

        node : (x : NodeInfo) × (get_elem? members tail ≡ some x)
        node = get_elem?-some members tail (IsRing-tail roles n key ring)

    -- Once some node has sent a client the ack of a write, a read of its key at any node finds a
    -- record, whose version is not below the write's. It holds in every state that a cluster
    -- reaches from fresh nodes by client writes at the head, forwards and acks that arrive late, in
    -- any order, repeatedly or never, forward workers that take their tasks in order and send them
    -- in any, and rounds of the retry loop. (There are two or more members with different
    -- addresses, the membership stays, each key's tail is the node before its head, clients'
    -- request ids differ, and versions fit 64 bits.) The version query is answered by the tail.
    pub handle_get-after_ack :
        (i j : ℕ) (address : Text) (version : ℕ)
        → i < n
        → j < n
        → Memᴰ
            (commit_ack_call address (record { key = key; version = version }))
            (s.nodes j).repl.calls
        → (r : Record) × (handle_get roles query key (s.nodes i) ≡ get_success r.value r.verison)
          × (version ≤ r.verison)
    unfolding committed_version
    handle_get-after_ack i j address version l m sent =
        let ((w, mw, _, vw), le) =
          commit_ack_sound roles members ring apart s reach j address _ m sent in
        let p = inv.safe.numbered.positive w mw in
        elim (Option-cases (committed (s.nodes tail).kv key)) [
          | inl e ↦ absurd (ground (arith, e, le, p, vw))
          | inr (r, e) ↦ (r, handle_get-IsStrong i l ∙ ap answer e, ground (arith, e, le))
        ]
