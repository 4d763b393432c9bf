-- ===== src/KvStore/Commit.antt =====
-- A put and the mark_clean of its version, as the nodes call them one after the other:
-- src/kv_store/kv_store.cpp.
use native.Mathlib.Nat.{mod-eq_of_lt}
use crown_kv.Common.{
  ℕ, ◌+◌, ◌^◌, ◌<◌, ◌≡◌, refl, arith, leb-false, none, some, Text, text_eq, eq_refl, nat_eq, find,
}
use crown_kv.KvStore.{Record, KvStore, version_of, get_latest_version, add_dirty, put, mark_clean}
use crown_kv.KvStore.Views.{
  committed, committed_version, dirty_record, committed-add_dirty, dirty_record-add_dirty,
  committed-mark_clean,
}
use crown_kv.KvStore.Latest.{get_latest_version-IsLatest, put-assigns}

-- A version above the committed one is stored as it is.
pub put-offered :
    (s : KvStore) (key value : Text) (v : ℕ)
    → committed_version s key < v
    → put s key value (some v) ≡ (add_dirty s key v (record { verison = v; value = value }), v)
unfolding put committed_version committed
put-offered s key value v h = rw (leb-false v (version_of (find key s.store)) h)

-- A write without a version is stored under the next one.
pub put-assigned :
    (s : KvStore) (key value : Text)
    → get_latest_version s key + 1 < 2 ^ 64
    → let v = get_latest_version s key + 1 in
      put s key value none ≡ (add_dirty s key v (record { verison = v; value = value }), v)
unfolding put
put-assigned s key value h = rw (mod-eq_of_lt h)

-- Marking a version clean whose record is dirty and newer commits that record.
pub mark_clean-commits :
    (s : KvStore) (key : Text) (v : ℕ) (r : Record)
    → dirty_record s key v ≡ some r
    → r.verison ≡ v
    → committed_version s key < v
    → committed (mark_clean s key v) key ≡ some r
unfolding committed_version
mark_clean-commits s key v r e t h = ground (arith, committed-mark_clean s key v key, eq_refl key)

module _ (s : KvStore) (key value : Text) where
  pub put-commits_assigned :
      get_latest_version s key + 1 < 2 ^ 64
      → let v = get_latest_version s key + 1 in
        committed (mark_clean (put s key value none).0 key v) key
        ≡ some (record { verison = v; value = value })
  unfolding committed_version
  put-commits_assigned h =
      let p = put-assigns s key value h in
      let l = (get_latest_version-IsLatest s key).committed_le in
      mark_clean-commits (put s key value none).0 key _ _ p.3 refl (rw p.2 (omega arith))

  pub put-commits_offered :
      (v : ℕ)
      → committed_version s key < v
      → committed (mark_clean (put s key value (some v)).0 key v) key
        ≡ some (record { verison = v; value = value })
  unfolding committed_version
  put-commits_offered v h =
      let r : Record = record { verison = v; value = value } in
      rw (put-offered s key value v h) (
        mark_clean-commits (add_dirty s key v r) key v r
          (ground (arith, dirty_record-add_dirty s key v r key v, eq_refl key)) refl
          (rw (committed-add_dirty s key v r key) h))
