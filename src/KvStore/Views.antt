-- ===== src/KvStore/Views.antt =====
-- The store of src/kv_store/kv_store.cpp seen one key and one version at a time, and what each
-- method does to that view.
use crown_kv.Common.{
  ℕ, ◌≡◌, refl, inl, inr, arith, if◌then◌else◌, ltb, leb, Option, none, some, Text, text_eq,
  text_beq_iff, ◌==◌, nat_eq, Map, find, assign, erase_upto, find-assign, find-erase,
  find-erase_upto, Option-cases,
}
use crown_kv.KvStore.{
  Record, KvStore, or_empty, version_of, add_dirty, commit, mark_clean, drop_upto, or_zero,
  apply_entry,
}

-- The committed record of a key.
unfoldable pub committed : KvStore → Text → Option Record
committed s key = find key s.store

unfoldable pub committed_version : KvStore → Text → ℕ
unfolding committed
committed_version s key = version_of (committed s key)

-- The dirty record of a key at a version.
unfoldable pub dirty_record : KvStore → Text → ℕ → Option Record
dirty_record s key version = find version (or_empty (find key s.dirty_store))

-- Of two records for one key the committed one stays, unless the other is newer.
abbrev pub promote : Option Record → Option Record → Option Record
promote none c = c
promote (some r) none = some r
promote (some r) (some c) = if ltb c.verison r.verison then some r else some c

-- Reading after `dirty_store_[key] = d`.
find-or_empty :
    (key j : Text) (d : Map ℕ Record) (m : Map Text (Map ℕ Record)) (u : ℕ)
    → find u (or_empty (find j (assign key d m)))
      ≡ (if key == j then find u d else find u (or_empty (find j m)))
find-or_empty key j d m u = ground (arith, find-assign key j d m)

find-commit :
    (store : Map Text Record) (key j : Text) (r : Record)
    → find j (commit store key r)
      ≡ (if key == j then promote (some r) (find j store) else find j store)
unfolding commit
find-commit store key j r = ground (arith, text_beq_iff key j, find-assign key j r store)

find-drop_upto :
    (m : Map Text (Map ℕ Record)) (key j : Text) (v u : ℕ)
    → find u (or_empty (find j (drop_upto m key v))) ≡ (
        if key == j
        then (if leb u v then none else find u (or_empty (find j m)))
        else find u (or_empty (find j m)))
unfolding drop_upto find
find-drop_upto m key j v u = elim (Option-cases (find key m)) [
  | inl e ↦ rw (e, drop_upto) (ground (arith, text_beq_iff key j))
  | inr (d, e) ↦ ground (
    arith,
    e,
    text_beq_iff key j,
    find-erase_upto v u d,
    find-erase key j m,
    find-or_empty key j (erase_upto v d) m u,
  )
]

module _ (s : KvStore) (key : Text) where
  pub committed-add_dirty :
      (v : ℕ) (r : Record) (j : Text) → committed (add_dirty s key v r) j ≡ committed s j
  unfolding committed add_dirty
  committed-add_dirty v r j = refl

  pub dirty_record-add_dirty :
      (v : ℕ) (r : Record) (j : Text) (u : ℕ)
      → dirty_record (add_dirty s key v r) j u
        ≡ (if key == j then (if v == u then some r else dirty_record s j u) else dirty_record s j u)
  unfolding dirty_record add_dirty
  dirty_record-add_dirty v r j u = ground (
    arith,
    text_beq_iff key j,
    find-or_empty key j (assign v r (or_empty (find key s.dirty_store))) s.dirty_store u,
    find-assign v u r (or_empty (find key s.dirty_store)),
  )

  pub committed-mark_clean :
      (v : ℕ) (j : Text)
      → committed (mark_clean s key v) j
        ≡ (if key == j then promote (dirty_record s key v) (committed s j) else committed s j)
  unfolding committed dirty_record mark_clean find
  committed-mark_clean v j = elim (Option-cases (find key s.dirty_store)) [
    | inl e ↦ rw (e, mark_clean) (ground arith)
    | inr (d, e) ↦ elim (Option-cases (find v d)) [
      | inl f ↦ ground (arith, e, f)
      | inr (r, f) ↦ ground (arith, e, f, find-commit s.store key j r)
    ]
  ]

  pub dirty_record-mark_clean :
      (v : ℕ) (j : Text) (u : ℕ)
      → dirty_record (mark_clean s key v) j u
        ≡ (if key == j then (if leb u v then none else dirty_record s j u) else dirty_record s j u)
  unfolding dirty_record mark_clean find
  dirty_record-mark_clean v j u = elim (Option-cases (find key s.dirty_store)) [
    | inl e ↦ rw (e, mark_clean) (ground (arith, text_beq_iff key j))
    | inr (d, e) ↦ ground (
      arith,
      e,
      text_beq_iff key j,
      find-erase_upto v u d,
      find-or_empty key j (erase_upto v d) s.dirty_store u,
    )
  ]

module _ (versions : Map Text ℕ) (s : KvStore) (key value : Text) where
  pub committed-apply_entry :
      (j : Text)
      → committed (apply_entry versions s (key, value)) j ≡ (
          if key == j
          then promote
              (some (record { verison = or_zero (find key versions); value = value }))
              (committed s j)
          else committed s j)
  unfolding committed apply_entry
  committed-apply_entry j = find-commit s.store key j _

  pub dirty_record-apply_entry :
      (j : Text) (u : ℕ)
      → dirty_record (apply_entry versions s (key, value)) j u ≡ (
          if key == j
          then (if leb u (or_zero (find key versions)) then none else dirty_record s j u)
          else dirty_record s j u)
  unfolding dirty_record apply_entry
  dirty_record-apply_entry j u = find-drop_upto s.dirty_store key j _ u
