-- ===== src/Network/Moves.antt =====
-- The three ways in which a handler of src/replication/craq/craq_replication.cpp or
-- src/replication/crown/crown_replication.cpp changes its store: the head gives a write its version,
-- a node stores a write that has one, and a node marks a version clean.
use crown_kv.Common.{
  ℕ, ◌≤◌, ◌<◌, ◌≡◌, ◌≢◌, ◌⊎◌, inl, inr, arith, Bool-cases, some, List, Text, text_eq, eq_refl,
  eq_sound, text_beq_iff, nat_eq, ◌==◌, Option-cases,
}
use crown_kv.KvStore.{Record, KvStore, add_dirty, mark_clean}
use crown_kv.KvStore.Views.{
  committed, committed_version, dirty_record, committed-add_dirty, dirty_record-add_dirty,
  committed-mark_clean, dirty_record-mark_clean,
}
use crown_kv.KvStore.Invariant.{IsConsistent, add_dirty-IsConsistent, mark_clean-IsConsistent}
use crown_kv.Apportioned.{Roles}
use crown_kv.Network.{Write, update}
use crown_kv.Network.Stores.{Holds, Grows, add_dirty-Grows, mark_clean-Grows}
use crown_kv.Network.Safety.{
  IsIssued, IsStored, IsSafe, IsNumbered-later, update-Grows, update-IsSafe, Commits,
}

module _ (issued : List Write) (s : KvStore) (key : Text) (v : ℕ) where
  pub add_dirty-IsStored :
      (value : Text)
      → IsStored issued s
      → committed_version s key < v
      → IsIssued issued key v value
      → IsStored issued (add_dirty s key v (record { verison = v; value = value }))
  add_dirty-IsStored value h above w = record {
    consistent = add_dirty-IsConsistent s key value v above h.consistent;
    dirty = dirty';
    clean = λ k r e. h.clean k r (rw (← committed-add_dirty s key v new k) e);
  }
    where
      new : Record
      new = record { verison = v; value = value }

      dirty' :
          (k : Text) (u : ℕ) (r : Record)
          → dirty_record (add_dirty s key v new) k u ≡ some r
          → IsIssued issued k u r.value
      dirty' k u r e = elim (Bool-cases (key == k)) [
        | inr o ↦ h.dirty k u r (ground (arith, o, dirty_record-add_dirty s key v new k u))
        | inl o ↦ elim (Bool-cases (v == u)) [
          | inr p ↦ h.dirty k u r (ground (arith, o, p, dirty_record-add_dirty s key v new k u))
          | inl p ↦
              let same : value ≡ r.value =
                ground (arith, o, p, dirty_record-add_dirty s key v new k u) in
              rw (← same) (rw (← eq_sound key k o) (rw (← eq_sound v u p) w))
        ]
      ]

  pub mark_clean-IsStored : IsStored issued s → IsStored issued (mark_clean s key v)
  mark_clean-IsStored h = record {
    consistent = mark_clean-IsConsistent s key v h.consistent;
    dirty = λ k u r e. h.dirty k u r (ground (arith, dirty_record-mark_clean s key v k u));
    clean = clean';
  }
    where
      clean' :
          (k : Text) (r : Record)
          → committed (mark_clean s key v) k ≡ some r
          → IsIssued issued k r.verison r.value
      clean' k r e = elim (Bool-cases (key == k)) [
        | inr o ↦ h.clean k r (ground (arith, o, committed-mark_clean s key v k))
        | inl o ↦ elim (Option-cases (dirty_record s key v)) [
          | inl d ↦ h.clean k r (ground (arith, o, d, committed-mark_clean s key v k))
          | inr (q, d) ↦
              let from : (committed s k ≡ some r) ⊎ (q ≡ r) =
                ground (arith, o, d, committed-mark_clean s key v k) in
              elim from [
                | inl c ↦ h.clean k r c
                | inr same ↦ rw (← same) (
                    rw (h.consistent.tagged key v q d)
                      (rw (← eq_sound key k o) (h.dirty key v q d)))
              ]
        ]
      ]

mark_clean-version :
    (s : KvStore) (key : Text) (v : ℕ) (k : Text)
    → IsConsistent s
    → (committed_version (mark_clean s key v) k ≡ committed_version s k)
      ⊎ ((key ≡ k) × (committed_version (mark_clean s key v) key ≡ v))
unfolding committed_version
mark_clean-version s key v k c = elim (Option-cases (dirty_record s key v)) [
  | inl d ↦ inl (ground (arith, d, committed-mark_clean s key v k))
  | inr (r, d) ↦ ground (
    arith,
    d,
    c.tagged key v r d,
    c.newer key v r d,
    text_beq_iff key k,
    eq_refl key,
    committed-mark_clean s key v k,
    committed-mark_clean s key v key,
  )
]

module _ (roles : Roles) (n : ℕ) (stores : ℕ → KvStore) (issued : List Write) (i : ℕ)
    (h : IsSafe roles n stores issued) (l : i < n) where
  -- A node stores an accepted write.
  pub store-IsSafe :
      (key : Text) (v : ℕ) (value : Text)
      → committed_version (stores i) key < v
      → IsIssued issued key v value
      → IsSafe roles n
          (update stores i (add_dirty (stores i) key v (record { verison = v; value = value })))
          issued
  unfolding committed_version
  store-IsSafe key v value above w =
      let r : Record = record { verison = v; value = value } in
      let g = add_dirty-Grows (stores i) key v r in
      update-IsSafe roles n stores i _ issued issued h g l (λ x m. m)
        (add_dirty-IsStored issued (stores i) key v value (h.stored i l) above w)
        (IsNumbered-later roles n stores _ issued (update-Grows stores i _ g) h.numbered)
        (λ k. inl (rw (committed-add_dirty (stores i) key v r k)))

  -- A node marks a version clean that it holds: it is behind the tail, or is the tail, and every
  -- node holds the version.
  pub clean-IsSafe :
      (key : Text) (v : ℕ)
      → Holds (stores i) key v
      → ((i ≢ roles.tail key n) × (v ≤ committed_version (stores (roles.tail key n)) key))
        ⊎ ((i ≡ roles.tail key n) × ((j : ℕ) → j < n → Holds (stores j) key v))
      → IsSafe roles n (update stores i (mark_clean (stores i) key v)) issued
  clean-IsSafe key v held where_to =
      update-IsSafe roles n stores i _ issued issued h g l (λ x m. m)
        (mark_clean-IsStored issued (stores i) key v (h.stored i l))
        (IsNumbered-later roles n stores _ issued (update-Grows stores i _ g) h.numbered)
        (λ k. moves k (mark_clean-version (stores i) key v k (h.stored i l).consistent))
    where
      s' : KvStore
      s' = mark_clean (stores i) key v

      g : Grows (stores i) s'
      g = (mark_clean-Grows (stores i) key v (h.stored i l).consistent held).0

      moves :
          (k : Text)
          → (committed_version s' k ≡ committed_version (stores i) k)
            ⊎ ((key ≡ k) × (committed_version s' key ≡ v))
          → Commits roles n stores i s' k
      moves k (inl same) = inl same
      moves k (inr (e, at)) = elim where_to [
        | inl (ne, le) ↦ inr (inl (rw (← e) (ne, rw at le)))
        | inr (t, all) ↦ inr (
            inr (rw (← e) (t, λ j b. rw at ((update-Grows stores i s' g j).holds key v (all j b)))))
      ]
