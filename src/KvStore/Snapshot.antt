-- ===== src/KvStore/Snapshot.antt =====
-- `apply_committed_snapshot` of src/kv_store/kv_store.cpp as a merge, key by key.
use crown_kv.Common.{
  ℕ, ◌≡◌, refl, arith, if◌then◌else◌, leb, Option, none, some, ◌>>=◌, [], ◌∷◌, Text, text_eq,
  text_beq_iff, nat_eq, Map, find, IsDistinct,
}
use crown_kv.KvStore.{Record, KvStore, or_zero, apply_entry, apply_committed_snapshot}
use crown_kv.KvStore.Views.{
  committed, dirty_record, promote, committed-apply_entry, dirty_record-apply_entry,
}

-- The record that the two maps of a snapshot hold for a key: no version counts as version 0.
unfoldable pub snapshot_record : Map Text Text → Map Text ℕ → Text → Option Record
snapshot_record values versions key = do
  x ← find key values
  some (record { verison = or_zero (find key versions); value = x })

-- What is left of a dirty record once a record for its key is installed.
abbrev pub outdate : Option Record → ℕ → Option Record → Option Record
outdate none v d = d
outdate (some r) v d = if leb v r.verison then none else d

-- A snapshot with each key once is merged key by key: the newer of the snapshot's record and the
-- committed one stays (the committed one, if their versions are equal), dirty records up to the
-- snapshot's version go, and keys that are not in the snapshot stay as they are.
pub apply_committed_snapshot-merges :
    (s : KvStore) (values : Map Text Text) (versions : Map Text ℕ)
    → IsDistinct values
    → (key : Text)
    → let s' = apply_committed_snapshot s values versions in
      let r = snapshot_record values versions key in
      (committed s' key ≡ promote r (committed s key))
      × ((v : ℕ) → dirty_record s' key v ≡ outdate r v (dirty_record s key v))
unfolding apply_committed_snapshot snapshot_record find
apply_committed_snapshot-merges s [] versions d key = (refl, λ v. refl)
apply_committed_snapshot-merges s ((k, x) ∷ values) versions d key =
    let ih =
      apply_committed_snapshot-merges (apply_entry versions s (k, x)) values versions d.1 key in
    (
      ground (arith, ih.0, text_beq_iff k key, committed-apply_entry versions s k x key),
      λ v.
          ground (arith, ih.1 v, text_beq_iff k key, dirty_record-apply_entry versions s k x key v),
    )
