-- ===== src/KvStore.antt =====
-- src/kv_store/kv_store.h and kv_store.cpp: the committed and the dirty versions of each key. Each
-- method holds its locks from beginning to end, so it is one function of the two maps.
pub mod Views
pub mod Latest
pub mod History
pub mod Growth
pub mod Commit
pub mod Snapshot
pub mod Register
pub mod Invariant
use crown_kv.Common.{
  ℕ, ◌+◌, ◌%◌, ◌^◌, Bool, true, if◌then◌else◌, ltb, leb, Option, none, some, ◌>>=◌, List, [], ◌∷◌,
  Text, text_eq, nat_eq, Map, find, assign, erase, erase_upto,
}

pub record Record : Type 0 where
  pub verison : ℕ
  pub value : Text

pub record KvStore : Type 0 where
  pub store : Map Text Record
  pub dirty_store : Map Text (Map ℕ Record)

-- What `dirty_store_[key]` refers to: a new key gets an empty map.
abbrev pub or_empty : Option (Map ℕ Record) → Map ℕ Record
or_empty none = []
or_empty (some d) = d

-- The loop over the dirty versions that keeps the largest.
unfoldable pub newest : ℕ → Map ℕ Record → ℕ
newest latest [] = latest
newest latest ((v, r) ∷ d) = newest (if ltb latest v then v else latest) d

abbrev pub version_of : Option Record → ℕ
version_of none = 0
version_of (some r) = r.verison

unfoldable pub get_latest_version : KvStore → Text → ℕ
get_latest_version s key =
    newest (version_of (find key s.store)) (or_empty (find key s.dirty_store))

-- `dirty_store_[key][version] = record`
unfoldable pub add_dirty : KvStore → Text → ℕ → Record → KvStore
add_dirty s key version r = record s {
  dirty_store = assign key (assign version r (or_empty (find key s.dirty_store))) s.dirty_store;
}

-- `put`: with no version given the store assigns one, computed in uint64_t.
unfoldable pub put : KvStore → Text → Text → Option ℕ → KvStore × ℕ
put s key value none =
    let new_version = (get_latest_version s key + 1) % 2 ^ 64 in
    (add_dirty s key new_version (record { verison = new_version; value = value }), new_version)
put s key value (some provided_version) =
    let committed_version = version_of (find key s.store) in
    if leb provided_version committed_version then (s, committed_version) else (
      add_dirty s key provided_version (record { verison = provided_version; value = value }),
      provided_version,
    )

unfoldable pub get : KvStore → Text → Option Text
get s key = do r ← find key s.store; some r.value

-- `store_[key] = record`, if the key has no newer committed version.
unfoldable pub commit : Map Text Record → Text → Record → Map Text Record
commit store key r = elim (find key store) [
  | none ↦ assign key r store
  | some c ↦ if ltb c.verison r.verison then assign key r store else store
]

unfoldable pub mark_clean : KvStore → Text → ℕ → KvStore
unfolding commit
mark_clean s key version = elim (find key s.dirty_store) [
  | none ↦ s
  | some d ↦
      let dirty' = assign key (erase_upto version d) s.dirty_store in
      elim (find version d) [
        | none ↦ record s { dirty_store = dirty' }
        | some r ↦ record { store = commit s.store key r; dirty_store = dirty' }
      ]
]

unfoldable pub snapshot_committed : KvStore → List (Text × Record)
snapshot_committed s = s.store

-- The versions up to `version` go, and the key with its last one.
unfoldable pub drop_upto : Map Text (Map ℕ Record) → Text → ℕ → Map Text (Map ℕ Record)
drop_upto dirty key version = elim (find key dirty) [
  | none ↦ dirty
  | some d ↦ elim (erase_upto version d) [
    | [] ↦ erase key dirty
    | entry ∷ rest ↦ assign key (entry ∷ rest) dirty
  ]
]

abbrev pub or_zero : Option ℕ → ℕ
or_zero none = 0
or_zero (some n) = n

-- One round of the loop over `values`.
unfoldable pub apply_entry : Map Text ℕ → KvStore → Text × Text → KvStore
unfolding commit drop_upto
apply_entry versions s (key, value) =
    let version = or_zero (find key versions) in
    record {
      store = commit s.store key (record { verison = version; value = value });
      dirty_store = drop_upto s.dirty_store key version;
    }

unfoldable pub apply_committed_snapshot : KvStore → Map Text Text → Map Text ℕ → KvStore
unfolding apply_entry
apply_committed_snapshot s [] versions = s
apply_committed_snapshot s (entry ∷ values) versions =
    apply_committed_snapshot (apply_entry versions s entry) values versions
