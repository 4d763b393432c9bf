-- ===== src/KvStore/Invariant.antt =====
-- The well-formedness of the store of src/kv_store/kv_store.cpp under any sequence of its methods.
use native.Mathlib.Nat.{mod-eq_of_lt}
use crown_kv.Common.{
  ℕ, ◌+◌, ◌^◌, ◌<◌, ◌≡◌, inl, inr, arith, leb, Bool-cases, Option, none, some, List, [], ◌∷◌, Text,
  text_eq, text_beq_iff, nat_eq, Map, find, Option-cases,
}
use crown_kv.KvStore.{
  Record, KvStore, version_of, get_latest_version, add_dirty, put, mark_clean, apply_entry,
  apply_committed_snapshot,
}
use crown_kv.KvStore.Views.{
  committed, committed_version, dirty_record, committed-add_dirty, dirty_record-add_dirty,
  committed-mark_clean, dirty_record-mark_clean, committed-apply_entry, dirty_record-apply_entry,
}
use crown_kv.KvStore.Latest.{get_latest_version-IsLatest}
use crown_kv.KvStore.History.{Operation, puts, cleans, merges, apply, run}

-- Every dirty record stands under its own version, and is newer than the committed record.
pub record IsConsistent (s : KvStore) : Type 0 where
  pub tagged : (k : Text) (v : ℕ) (r : Record) → dirty_record s k v ≡ some r → r.verison ≡ v
  pub newer :
      (k : Text) (v : ℕ) (r : Record) → dirty_record s k v ≡ some r → committed_version s k < v

-- A put that assigns a version finds one that fits 64 bits.
abbrev pub HasRoom : KvStore → Operation → Type 0
HasRoom s (puts key value none) = get_latest_version s key + 1 < 2 ^ 64
HasRoom s _ = Unit

abbrev pub AllHaveRoom : KvStore → List Operation → Type 0
AllHaveRoom s [] = Unit
AllHaveRoom s (o ∷ os) = HasRoom s o × AllHaveRoom (apply s o) os

pub add_dirty-IsConsistent :
    (s : KvStore) (key value : Text) (n : ℕ)
    → committed_version s key < n
    → IsConsistent s
    → IsConsistent (add_dirty s key n (record { verison = n; value = value }))
unfolding committed_version
add_dirty-IsConsistent s key value n h c = record {
  tagged = λ k v r e. ground (
    arith,
    dirty_record-add_dirty s key n (record { verison = n; value = value }) k v,
    c.tagged k v r,
  );
  newer = λ k v r e. rw (committed-add_dirty s key n (record { verison = n; value = value }) k) (
      ground (
        arith,
        text_beq_iff key k,
        dirty_record-add_dirty s key n (record { verison = n; value = value }) k v,
        c.newer k v r,
      ));
}

put-IsConsistent :
    (s : KvStore) (key value : Text) (version : Option ℕ)
    → HasRoom s (puts key value version)
    → IsConsistent s
    → IsConsistent (put s key value version).0
unfolding put committed_version committed
put-IsConsistent s key value none h c = rw (mod-eq_of_lt h) (
    add_dirty-IsConsistent s key value _
      (omega (arith, (get_latest_version-IsLatest s key).committed_le)) c)
put-IsConsistent s key value (some v) h c =
    elim (Bool-cases (leb v (version_of (find key s.store)))) [
      | inl e ↦ rw e c
      | inr e ↦ rw e (add_dirty-IsConsistent s key value v (ground arith) c)
    ]

pub mark_clean-IsConsistent :
    (s : KvStore) (key : Text) (n : ℕ) → IsConsistent s → IsConsistent (mark_clean s key n)
unfolding committed_version
mark_clean-IsConsistent s key n c = record {
  tagged = λ k v r e. ground (arith, dirty_record-mark_clean s key n k v, c.tagged k v r);
  newer = λ k v r e.
      rw (committed-mark_clean s key n k) (elim (Option-cases (dirty_record s key n)) [
        | inl f ↦
            ground
              (arith, f, text_beq_iff key k, dirty_record-mark_clean s key n k v, c.newer k v r)
        | inr (q, f) ↦ ground (
          arith,
          f,
          c.tagged key n q f,
          text_beq_iff key k,
          dirty_record-mark_clean s key n k v,
          c.newer k v r,
        )
      ]);
}

apply_entry-IsConsistent :
    (versions : Map Text ℕ) (s : KvStore) (key value : Text)
    → IsConsistent s
    → IsConsistent (apply_entry versions s (key, value))
unfolding committed_version
apply_entry-IsConsistent versions s key value c = record {
  tagged =
      λ k v r e. ground (arith, dirty_record-apply_entry versions s key value k v, c.tagged k v r);
  newer = λ k v r e. rw (committed-apply_entry versions s key value k) (
      ground (
        arith,
        text_beq_iff key k,
        dirty_record-apply_entry versions s key value k v,
        c.newer k v r,
      ));
}

apply_committed_snapshot-IsConsistent :
    (s : KvStore) (values : Map Text Text) (versions : Map Text ℕ)
    → IsConsistent s
    → IsConsistent (apply_committed_snapshot s values versions)
unfolding apply_committed_snapshot
apply_committed_snapshot-IsConsistent s [] versions c = c
apply_committed_snapshot-IsConsistent s ((k, x) ∷ values) versions c =
    apply_committed_snapshot-IsConsistent (apply_entry versions s (k, x)) values versions
      (apply_entry-IsConsistent versions s k x c)

pub apply-IsConsistent :
    (s : KvStore) (o : Operation) → HasRoom s o → IsConsistent s → IsConsistent (apply s o)
unfolding apply
apply-IsConsistent s (puts key value version) h c = put-IsConsistent s key value version h c
apply-IsConsistent s (cleans key version) h c = mark_clean-IsConsistent s key version c
apply-IsConsistent s (merges values versions) h c =
    apply_committed_snapshot-IsConsistent s values versions c

-- From a consistent store, any sequence of method calls in which every assigned version fits 64
-- bits keeps every dirty record under its own version and newer than the committed record of its
-- key.
pub run-IsConsistent :
    (s : KvStore) (os : List Operation)
    → AllHaveRoom s os
    → IsConsistent s
    → IsConsistent (run s os)
unfolding run
run-IsConsistent s [] h c = c
run-IsConsistent s (o ∷ os) h c = run-IsConsistent (apply s o) os h.1 (apply-IsConsistent s o h.0 c)
