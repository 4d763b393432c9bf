-- ===== src/Network/Stores.antt =====
-- The stores of all nodes together: which versions a node holds, and what every change of one
-- store of src/kv_store/kv_store.cpp keeps true of all of them.
use crown_kv.Common.{
  ℕ, ◌≤◌, ◌≡◌, ◌⊎◌, inl, inr, arith, some, Text, text_eq, eq_refl, text_beq_iff, nat_eq,
  Option-cases,
}
use crown_kv.KvStore.{Record, KvStore, get_latest_version, add_dirty, mark_clean}
use crown_kv.KvStore.Views.{
  committed_version, dirty_record, committed-add_dirty, dirty_record-add_dirty,
  committed-mark_clean, dirty_record-mark_clean,
}
use crown_kv.KvStore.Latest.{get_latest_version-IsLatest}
use crown_kv.KvStore.Growth.{mark_clean-committed_version}
use crown_kv.KvStore.Invariant.{IsConsistent}

-- The version is dirty at the node, or it has committed that version or a later one.
abbrev pub Holds : KvStore → Text → ℕ → Type 0
Holds s key v = ((r : Record) × (dirty_record s key v ≡ some r)) ⊎ (v ≤ committed_version s key)

-- A store that has lost nothing: what it held it holds.
pub record Grows (s s' : KvStore) : Type 0 where
  pub holds : (key : Text) (v : ℕ) → Holds s key v → Holds s' key v
  pub commits : (key : Text) → committed_version s key ≤ committed_version s' key

pub Grows-refl : (s : KvStore) → Grows s s
Grows-refl s = record { holds = λ key v h. h; commits = λ key. omega arith }

pub Grows-trans : {r s t : KvStore} → Grows r s → Grows s t → Grows r t
Grows-trans g h = record {
  holds = λ key v held. h.holds key v (g.holds key v held);
  commits = λ key. omega (arith, g.commits key, h.commits key);
}

pub Grows-latest :
    (s s' : KvStore) (key : Text)
    → Grows s s'
    → get_latest_version s key ≤ get_latest_version s' key
Grows-latest s s' key g =
    let l = get_latest_version-IsLatest s key in
    let l' = get_latest_version-IsLatest s' key in
    let held : Holds s key (get_latest_version s key) = elim l.attained [
      | inl e ↦ inr (omega (arith, e))
      | inr d ↦ inl d
    ] in
    elim (g.holds key (get_latest_version s key) held) [
      | inl (r, d) ↦ l'.dirty_le _ r d
      | inr c ↦ omega (arith, c, l'.committed_le)
    ]

pub add_dirty-Grows :
    (s : KvStore) (key : Text) (v : ℕ) (r : Record) → Grows s (add_dirty s key v r)
unfolding committed_version
add_dirty-Grows s key v r = record {
  holds = λ k u h. elim h [
    | inr c ↦ inr (rw (committed-add_dirty s key v r k) c)
    | inl (q, d) ↦ inl (kept k u q d)
  ];
  commits = λ k. rw (committed-add_dirty s key v r k) (omega arith);
}
  where
    kept :
        (k : Text) (u : ℕ) (q : Record)
        → dirty_record s k u ≡ some q
        → (q' : Record) × (dirty_record (add_dirty s key v r) k u ≡ some q')
    kept k u q d = elim (Option-cases (dirty_record (add_dirty s key v r) k u)) [
      | inr e ↦ e
      | inl e ↦ absurd (ground (arith, dirty_record-add_dirty s key v r k u))
    ]

-- A store that holds a version loses nothing when it marks that version clean.
pub mark_clean-Grows :
    (s : KvStore) (key : Text) (v : ℕ)
    → IsConsistent s
    → Holds s key v
    → Grows s (mark_clean s key v) × (v ≤ committed_version (mark_clean s key v) key)
unfolding committed_version
mark_clean-Grows s key v c h = (
  record {
    holds = λ k u held. elim held [
      | inr d ↦ inr (omega (arith, d, mark_clean-committed_version s k key v))
      | inl (q, d) ↦ kept k u q d
    ];
    commits = λ k. mark_clean-committed_version s k key v;
  },
  reached,
)
  where
    reached : v ≤ committed_version (mark_clean s key v) key
    reached = elim h [
      | inr d ↦ omega (arith, d, mark_clean-committed_version s key key v)
      | inl (r, d) ↦ ground (
        arith,
        committed-mark_clean s key v key,
        eq_refl key,
        c.tagged key v r d,
        c.newer key v r d,
      )
    ]

    kept :
        (k : Text) (u : ℕ) (q : Record)
        → dirty_record s k u ≡ some q
        → Holds (mark_clean s key v) k u
    kept k u q d = elim (Option-cases (dirty_record (mark_clean s key v) k u)) [
      | inr e ↦ inl e
      | inl e ↦
          inr (ground (arith, dirty_record-mark_clean s key v k u, text_beq_iff key k, reached))
    ]
