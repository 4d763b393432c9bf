-- ===== src/KvStore/History.antt =====
-- Sequences of the state-changing methods of src/kv_store/kv_store.cpp.
use crown_kv.Common.{ℕ, Option, List, [], ◌∷◌, Text, Map}
use crown_kv.KvStore.{KvStore, put, mark_clean, apply_committed_snapshot}

-- The state-changing methods, as calls.
pub data Operation : Type 0 where
  puts : Text → Text → Option ℕ → Operation
  cleans : Text → ℕ → Operation
  merges : Map Text Text → Map Text ℕ → Operation

unfoldable pub apply : KvStore → Operation → KvStore
apply s (puts key value version) = (put s key value version).0
apply s (cleans key version) = mark_clean s key version
apply s (merges values versions) = apply_committed_snapshot s values versions

unfoldable pub run : KvStore → List Operation → KvStore
run s [] = s
run s (o ∷ os) = run (apply s o) os
