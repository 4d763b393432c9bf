-- ===== src/Network/Arrivals.antt =====
-- A client's write and a put of another node, as `handle_put` of
-- src/replication/craq/craq_replication.cpp and src/replication/crown/crown_replication.cpp takes them,
-- keep what holds of the cluster.
use mathlib.Core.Path.{subst}
use mathlib.Core.List.{Memᴰ}
use crown_kv.Common.{
  ℕ, ◌+◌, ◌^◌, ◌≤◌, ◌<◌, ◌≡◌, ◌≢◌, ◌⊎◌, inl, inr, refl, sym, ap, ◌∙◌, arith, Bool-cases, false,
  nat_beq, leb, leb→le, none, some, List, ◌∷◌, text_eq, eq_refl, nat_eq, if◌then◌else◌, All,
  All-member, length,
}
use crown_kv.Messages.{PutRequest, PutResponse, NodeInfo}
use crown_kv.Ring.{next_index}
use crown_kv.KvStore.{KvStore, get_latest_version, put, add_dirty, mark_clean}
use crown_kv.KvStore.Views.{committed_version, dirty_record, dirty_record-add_dirty}
use crown_kv.KvStore.Commit.{put-assigned}
use crown_kv.Replication.{Stub, put_call, Node, forward_put}
use crown_kv.Apportioned.{Roles, is_last, handle_put, put_versioned, put_at_head}
use crown_kv.Apportioned.Puts.{
  HasRoom, put_versioned-before, put_versioned-last, put_at_head-before,
}
use crown_kv.Network.{Write, write_of, IsAt, IsPlaced, System, update, set_node}
use crown_kv.Network.Rings.{IsRing, IsRing-apart, distance, distance-head, distance-zero}
use crown_kv.Network.Stores.{Grows, add_dirty-Grows}
use crown_kv.Network.Safety.{IsSafe, update-Grows, update_self}
use crown_kv.Network.Issues.{issue-IsSafe}
use crown_kv.Network.Traffic.{HeldTo, IsCarried, IsSound, HasSound-later}
use crown_kv.Network.Methods.{HasSound-forward_put}
use crown_kv.Network.Invariant.{Kept, Inv, set-Kept, stores_of}
use crown_kv.Network.Handlers.{AreApart, placed-is_last, handle_put-versioned, handle_put-at_head}
use crown_kv.Network.Puts.{taken, held_further, pass_on-Kept, commit-Kept}

module _ (roles : Roles) (members : List NodeInfo) (ring : IsRing roles (length members))
    (s : System) (j now : ℕ) (l : j < length members) (h : Inv roles members s)
    (q : PutRequest) where
  abbrev n : ℕ
  n = length members

  abbrev node : Node
  node = s.nodes j

  placed : IsPlaced members j node.repl
  placed = (h.sound j l).placed

  sized : node.repl.ring_size ≢ 0
  sized e = omega (arith, e, placed.size, l)

  is_last-tail :
      is_last (roles.tail q.key node.repl.ring_size) node.repl ≡ nat_beq j (roles.tail q.key n)
  is_last-tail =
      placed-is_last members j _ node.repl placed
      ∙ ap (λ x. nat_beq j (roles.tail q.key x)) placed.size

  pub pass-Kept :
      (i : ℕ) (stub : Stub)
      → AreApart members
      → i < length members
      → Memᴰ (put_call stub q) (s.nodes i).repl.calls
      → IsAt members j stub
      → Kept roles members s (set_node s j (handle_put roles now q node).0)
  pass-Kept i stub apart b m at = elim (Bool-cases (nat_beq j (roles.tail q.key n))) [
    | inr ne ↦
        subst (λ x. Kept roles members s (set_node s j x))
          (sym (
            ap (λ (p : Node × PutResponse). p.0)
              (versioned ∙ put_versioned-before now _ q node (is_last-tail ∙ ne))))
          (pass_on-Kept roles members ring s j now l h q issued (λ e. ground (arith, ne, e)) held)
    | inl t ↦
        subst (λ x. Kept roles members s (set_node s j x))
          (sym (
            ap (λ (p : Node × PutResponse). p.0)
              (versioned ∙ put_versioned-last now _ q node (is_last-tail ∙ t))))
          (commit-Kept roles members ring s j now l h q issued (ground (arith, t)) held _ cleaned)
  ]
    where
      sent : IsSound roles members (stores_of s.nodes) s.issued i (put_call stub q)
      sent =
          All-member (IsSound roles members (stores_of s.nodes) s.issued i) _ (h.sound i b).calls m

      issued : Memᴰ (write_of q) s.issued
      issued = sent.1.0

      versioned :
          handle_put roles now q node
          ≡ put_versioned now (roles.tail q.key node.repl.ring_size) q node
      versioned = handle_put-versioned roles now q node sized (h.safe.numbered.positive _ issued)

      held :
          HeldTo roles members
            (update (stores_of s.nodes) j (taken roles members s j l h q issued))
            s.issued
            j
            q.key
            q.version
      held =
          held_further roles members s j l h q issued i ring
            (apart j (next_index n i) stub at sent.0) b sent.1

      cleaned :
          ((if leb q.version (committed_version node.kv q.key)
              then node.kv
              else mark_clean (put node.kv q.key q.value (some q.version)).0 q.key q.version)
            ≡ mark_clean (taken roles members s j l h q issued) q.key q.version)
          ⊎ (((if leb q.version (committed_version node.kv q.key)
                  then node.kv
                  else mark_clean (put node.kv q.key q.value (some q.version)).0 q.key q.version)
                ≡ taken roles members s j l h q issued)
              × (q.version ≤ committed_version (taken roles members s j l h q issued) q.key))
      cleaned = elim (Bool-cases (leb q.version (committed_version node.kv q.key))) [
        | inl e ↦ inr (rw e (refl, leb→le _ _ e))
        | inr e ↦ inl (rw e refl)
      ]

  pub write-Kept :
      q.version ≡ 0
      → j ≡ roles.head q.key n
      → All (λ (w : Write). w.request_id ≢ q.request_id) s.issued
      → HasRoom q node
      → Kept roles members s (record {
        nodes = update s.nodes j (handle_put roles now q node).0;
        issued =
            write_of (record q { version = (handle_put roles now q node).1.version }) ∷ s.issued;
      })
  write-Kept z at fresh room =
      subst
        (λ p. Kept roles members s (record {
          nodes = update s.nodes j p.0;
          issued = write_of (record q { version = p.1.version }) ∷ s.issued;
        }))
        (sym (at_head ∙ put_at_head-before now _ q node (is_last-tail ∙ before) room'))
        (subst
          (λ o. Kept roles members s (record {
            nodes = update s.nodes j (record { kv = kv; repl = forward_put now q' o node.repl });
            issued = write_of q' ∷ s.issued;
          }))
          (sym placed.next.1)
          (set-Kept roles members s j _ (write_of q' ∷ s.issued) h grows (λ x m. Memᴰ.tail m) safe'
            (HasSound-forward_put roles members stores' (write_of q' ∷ s.issued) j now q'
              placed.next.0 node.repl placed.next.2 carried
              (HasSound-later roles members (stores_of s.nodes) s.issued j stores'
                (write_of q' ∷ s.issued) (update-Grows (stores_of s.nodes) j kv grows)
                (λ x m. Memᴰ.tail m) _ (h.sound j l)))))
    where
      v : ℕ
      v = get_latest_version node.kv q.key + 1

      q' : PutRequest
      q' = record q { version = v }

      room' : v < 2 ^ 64
      room' = ground (arith, z, room)

      kv : KvStore
      kv = (put node.kv q.key q.value none).0

      at_head :
          handle_put roles now q node
          ≡ put_at_head now (roles.tail q.key node.repl.ring_size) q node
      at_head = handle_put-at_head roles now q node sized z (rw (placed.index, placed.size) at)

      before : nat_beq j (roles.tail q.key n) ≡ false
      before = ground (arith, at, IsRing-apart roles n q.key ring)

      stored : kv ≡ add_dirty node.kv q.key v (record { verison = v; value = q.value })
      stored = ap (λ (p : KvStore × ℕ). p.0) (put-assigned node.kv q.key q.value room')

      grows : Grows node.kv kv
      grows = rw stored (add_dirty-Grows node.kv q.key v _)

      stores' : ℕ → KvStore
      stores' = update (stores_of s.nodes) j kv

      safe' : IsSafe roles n stores' (write_of q' ∷ s.issued)
      safe' =
          rw stored (
            issue-IsSafe roles n (stores_of s.nodes) s.issued j h.safe l (write_of q') at refl
              fresh)

      dirty : dirty_record kv q.key v ≡ some (record { verison = v; value = q.value })
      dirty = rw stored (
          ground (
            arith,
            dirty_record-add_dirty node.kv q.key v (record { verison = v; value = q.value }) q.key
                v,
            eq_refl q.key,
          ))

      held : HeldTo roles members stores' (write_of q' ∷ s.issued) j q.key v
      held x c d =
          let (b, _) = ring.1 q.key in
          let zero : distance n (roles.head q.key n) j ≡ 0 =
            rw at (distance-head n (roles.head q.key n) (roles.head q.key n) b b) in
          let first : x ≡ j =
            distance-zero n (roles.head q.key n) x b c (omega (arith, d, zero)) ∙ sym at in
          rw (first, update_self (stores_of s.nodes) j kv) (inl (_, dirty))

      carried : IsCarried roles members stores' (write_of q' ∷ s.issued) j q'
      carried = (Memᴰ.head refl, (λ e. ground (arith, before, e)), held)
