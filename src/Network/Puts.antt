-- ===== src/Network/Puts.antt =====
-- A put that arrives from another node: `handle_put` of src/replication/craq/craq_replication.cpp and
-- src/replication/crown/crown_replication.cpp keeps what holds of the cluster.
use mathlib.Core.Path.{subst}
use mathlib.Core.List.{Memᴰ}
use crown_kv.Common.{
  ℕ, ◌+◌, ◌≤◌, ◌<◌, ◌≡◌, ◌≢◌, ◌⊎◌, inl, inr, refl, sym, arith, Bool-cases, nat_beq, leb, leb→le,
  some, List, text_eq, eq_refl, nat_eq, if◌then◌else◌, length,
}
use crown_kv.Messages.{PutRequest, NodeInfo}
use crown_kv.Ring.{next_index}
use crown_kv.KvStore.{KvStore, put, mark_clean}
use crown_kv.KvStore.Views.{committed_version, dirty_record-add_dirty}
use crown_kv.KvStore.Invariant.{IsConsistent}
use crown_kv.KvStore.Commit.{put-offered}
use crown_kv.Replication.{forward_put}
use crown_kv.Apportioned.{Roles, acknowledge}
use crown_kv.Network.{write_of, System, update, set_node}
use crown_kv.Network.Rings.{IsRing, distance, distance-le, distance-next, distance-injective}
use crown_kv.Network.Stores.{
  Holds, Grows, Grows-refl, Grows-trans, add_dirty-Grows, mark_clean-Grows,
}
use crown_kv.Network.Safety.{IsSafe, update-Grows, update_self}
use crown_kv.Network.Moves.{store-IsSafe, clean-IsSafe}
use crown_kv.Network.Traffic.{HeldTo, IsCarried, HasSound, HasSound-later}
use crown_kv.Network.Methods.{HasSound-acknowledge, HasSound-forward_put}
use crown_kv.Network.Invariant.{Kept, Inv, set-Kept, stores_of, update_same, update_twice}

module _ (roles : Roles) (members : List NodeInfo) (s : System) (j : ℕ) (l : j < length members)
    (h : Inv roles members s) (q : PutRequest) (issued : Memᴰ (write_of q) s.issued) where
  abbrev pub stores : ℕ → KvStore
  stores = stores_of s.nodes

  -- The store once the put is in it.
  abbrev pub taken : KvStore
  taken =
      if leb q.version (committed_version (stores j) q.key)
      then stores j
      else (put (stores j) q.key q.value (some q.version)).0

  pub taken-keeps :
      Grows (stores j) taken
      × Holds taken q.key q.version
      × IsSafe roles (length members) (update stores j taken) s.issued
  taken-keeps = elim (Bool-cases (leb q.version (committed_version (stores j) q.key))) [
    | inl e ↦ rw e (Grows-refl (stores j), inr (leb→le _ _ e), rw (update_same stores j) h.safe)
    | inr e ↦
        let above : committed_version (stores j) q.key < q.version = ground arith in
        rw e (
          rw (put-offered (stores j) q.key q.value q.version above) (
            add_dirty-Grows (stores j) q.key q.version _,
            inl (
              record { verison = q.version; value = q.value },
              ground (
                arith,
                dirty_record-add_dirty (stores j) q.key q.version
                    (record { verison = q.version; value = q.value }) q.key q.version,
                eq_refl q.key,
              ),
            ),
            store-IsSafe roles (length members) stores s.issued j h.safe l q.key q.version q.value
                above (write_of q, issued, refl, refl, refl),
          ))
  ]

  -- It is held one node further than before.
  pub held_further :
      (i : ℕ)
      → IsRing roles (length members)
      → j ≡ next_index (length members) i
      → i < length members
      → IsCarried roles members stores s.issued i q
      → HeldTo roles members (update stores j taken) s.issued j q.key q.version
  held_further i ring at b carried x c d = elim (Bool-cases (nat_beq j x)) [
    | inl e ↦ rw e taken-keeps.1
    | inr e ↦
        let further =
          distance-next n head i (ring.1 q.key).0 b (rw (← (ring.1 q.key).1) carried.1) in
        let apart = distance-injective n head j (ring.1 q.key).0 l x c in
        let step : distance n head j ≡ distance n head i + 1 = rw at further.1 in
        let ne : distance n head x ≢ distance n head j = λ p. ground (arith, apart p, e) in
        let near : distance n head x ≤ distance n head i = omega (arith, d, step, ne) in
        rw e (carried.2 x c near)
  ]
    where
      n : ℕ
      n = length members

      head : ℕ
      head = roles.head q.key n

module _ (roles : Roles) (members : List NodeInfo) (ring : IsRing roles (length members))
    (s : System) (j now : ℕ) (l : j < length members) (h : Inv roles members s) (q : PutRequest)
    (issued : Memᴰ (write_of q) s.issued) where
  abbrev n : ℕ
  n = length members

  abbrev kv : KvStore
  kv = taken roles members s j l h q issued

  keeps :
      Grows (stores_of s.nodes j) kv
      × Holds kv q.key q.version
      × IsSafe roles n (update (stores_of s.nodes) j kv) s.issued
  keeps = taken-keeps roles members s j l h q issued

  abbrev stores' : ℕ → KvStore
  stores' = update (stores_of s.nodes) j kv

  sound : HasSound roles members stores' s.issued j (s.nodes j).repl
  sound =
      HasSound-later roles members (stores_of s.nodes) s.issued j stores' s.issued
        (update-Grows (stores_of s.nodes) j kv keeps.0) (λ x m. m) _ (h.sound j l)

  -- A node before the last one hands the put on.
  pub pass_on-Kept :
      j ≢ roles.tail q.key n
      → HeldTo roles members stores' s.issued j q.key q.version
      → Kept roles members s (
          set_node s j (record {
            kv = kv;
            repl = forward_put now q (s.nodes j).repl.next_stub (s.nodes j).repl;
          }))
  pass_on-Kept ne held =
      let (stub, e, at) = (h.sound j l).placed.next in
      set-Kept roles members s j _ s.issued h keeps.0 (λ x m. m) keeps.2
        (subst
          (λ o. HasSound roles members stores' s.issued j (forward_put now q o (s.nodes j).repl))
          (sym e)
          (HasSound-forward_put roles members stores' s.issued j now q stub _ at (issued, ne, held)
            sound))

  -- The last node commits it and sends acks.
  pub commit-Kept :
      j ≡ roles.tail q.key n
      → HeldTo roles members stores' s.issued j q.key q.version
      → (kv' : KvStore)
      → (kv' ≡ mark_clean kv q.key q.version)
        ⊎ ((kv' ≡ kv) × (q.version ≤ committed_version kv q.key))
      → Kept roles members s
          (set_node s j (record { kv = kv'; repl = acknowledge q (s.nodes j).repl }))
  commit-Kept t held kv' (inr (same, le)) =
      subst
        (λ k.
          Kept roles members s
            (set_node s j (record { kv = k; repl = acknowledge q (s.nodes j).repl })))
        (sym same)
        (set-Kept roles members s j _ s.issued h keeps.0 (λ x m. m) keeps.2
          (HasSound-acknowledge roles members stores' s.issued j q _
            (issued, rw (← t) (rw (update_self (stores_of s.nodes) j kv) le)) sound))
  commit-Kept t held kv' (inl same) =
      subst
        (λ k.
          Kept roles members s
            (set_node s j (record { kv = k; repl = acknowledge q (s.nodes j).repl })))
        (sym same)
        (set-Kept roles members s j _ s.issued h (Grows-trans keeps.0 marked.0) (λ x m. m)
          (subst (λ st. IsSafe roles n st s.issued) twice safe')
          (HasSound-acknowledge roles members stores'' s.issued j q _
            (issued, rw (← t) (rw (update_self (stores_of s.nodes) j clean) marked.1))
            (HasSound-later roles members (stores_of s.nodes) s.issued j stores'' s.issued
              (update-Grows (stores_of s.nodes) j clean (Grows-trans keeps.0 marked.0)) (λ x m. m) _
              (h.sound j l))))
    where
      clean : KvStore
      clean = mark_clean kv q.key q.version

      stores'' : ℕ → KvStore
      stores'' = update (stores_of s.nodes) j clean

      self : stores' j ≡ kv
      self = update_self (stores_of s.nodes) j kv

      marked : Grows kv clean × (q.version ≤ committed_version clean q.key)
      marked =
          mark_clean-Grows kv q.key q.version
            (subst IsConsistent self (keeps.2.stored j l).consistent) keeps.1

      twice : update stores' j (mark_clean (stores' j) q.key q.version) ≡ stores''
      twice = rw self (update_twice (stores_of s.nodes) j kv clean)

      everywhere : (x : ℕ) → x < n → Holds (stores' x) q.key q.version
      everywhere x b =
          held x b
            (rw (t, (ring.1 q.key).1) (distance-le n (roles.head q.key n) x (ring.1 q.key).0 b))

      safe' : IsSafe roles n (update stores' j (mark_clean (stores' j) q.key q.version)) s.issued
      safe' =
          clean-IsSafe roles n stores' s.issued j keeps.2 l q.key q.version (everywhere j l)
            (inr (t, everywhere))
