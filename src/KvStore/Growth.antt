-- ===== src/KvStore/Growth.antt =====
-- Committed versions under any sequence of the methods of src/kv_store/kv_store.cpp.
use crown_kv.Common.{
  ℕ, ◌≤◌, ◌≡◌, inl, inr, arith, leb, Bool-cases, Option, none, some, List, [], ◌∷◌, Text, text_eq,
  nat_eq, Map, find,
}
use crown_kv.KvStore.{
  Record, KvStore, version_of, or_zero, put, mark_clean, apply_entry, apply_committed_snapshot,
}
use crown_kv.KvStore.Views.{
  committed, committed_version, dirty_record, promote, committed-add_dirty, committed-mark_clean,
  committed-apply_entry,
}
use crown_kv.KvStore.History.{Operation, puts, cleans, merges, apply, run}

version_of-promote : (c d : Option Record) → version_of c ≤ version_of (promote d c)
version_of-promote c none = omega arith
version_of-promote none (some r) = omega arith
version_of-promote (some c) (some r) = ground arith

module _ (s : KvStore) (k : Text) where
  put-committed_version :
      (key value : Text) (version : Option ℕ)
      → committed_version (put s key value version).0 k ≡ committed_version s k
  unfolding put committed_version
  put-committed_version key value none = rw (committed-add_dirty s key _ _ k)
  put-committed_version key value (some v) =
      elim (Bool-cases (leb v (version_of (find key s.store)))) [
        | inl e ↦ rw e
        | inr e ↦ rw e (rw (committed-add_dirty s key _ _ k))
      ]

  pub mark_clean-committed_version :
      (key : Text) (n : ℕ) → committed_version s k ≤ committed_version (mark_clean s key n) k
  unfolding committed_version
  mark_clean-committed_version key n = ground (
    arith,
    committed-mark_clean s key n k,
    version_of-promote (committed s k) (dirty_record s key n),
  )

apply_entry-committed_version :
    (s : KvStore) (k : Text) (versions : Map Text ℕ) (key value : Text)
    → committed_version s k ≤ committed_version (apply_entry versions s (key, value)) k
unfolding committed_version
apply_entry-committed_version s k versions key value = ground (
  arith,
  committed-apply_entry versions s key value k,
  version_of-promote (committed s k)
      (some (record { verison = or_zero (find key versions); value = value })),
)

merge-committed_version :
    (s : KvStore) (k : Text) (values : Map Text Text) (versions : Map Text ℕ)
    → committed_version s k ≤ committed_version (apply_committed_snapshot s values versions) k
unfolding apply_committed_snapshot
merge-committed_version s k [] versions = omega arith
merge-committed_version s k ((key, x) ∷ values) versions = omega (
  arith,
  apply_entry-committed_version s k versions key x,
  merge-committed_version (apply_entry versions s (key, x)) k values versions,
)

apply-committed_version :
    (s : KvStore) (k : Text) (o : Operation)
    → committed_version s k ≤ committed_version (apply s o) k
unfolding apply
apply-committed_version s k (puts key value version) =
    omega (arith, put-committed_version s k key value version)
apply-committed_version s k (cleans key n) = mark_clean-committed_version s k key n
apply-committed_version s k (merges values versions) = merge-committed_version s k values versions

-- No sequence of method calls lowers the committed version of a key.
pub run-committed_version :
    (s : KvStore) (k : Text) (os : List Operation)
    → committed_version s k ≤ committed_version (run s os) k
unfolding run
run-committed_version s k [] = omega arith
run-committed_version s k (o ∷ os) =
    omega (arith, apply-committed_version s k o, run-committed_version (apply s o) k os)
