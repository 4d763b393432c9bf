-- ===== src/Tests/Store.antt =====
-- Runs of src/kv_store/kv_store.cpp.
use crown_kv.Common.{text_beq, refl, arith, none, List, [], ◌∷◌, text_eq, nat_eq, bytes, find}
use crown_kv.KvStore.{get_latest_version, newest}
use crown_kv.KvStore.History.{Operation, puts, cleans, merges, run}
use crown_kv.KvStore.Invariant.{IsConsistent, AllHaveRoom, run-IsConsistent}
use crown_kv.KvStore.Register.{view, Follows, events_at}
use crown_kv.KvStore.Register.Refines.{run-Follows}
use crown_kv.Tests.Data.{key, store, store_IsConsistent}

-- A client's write, its ack, and a state transfer.
abbrev calls : List Operation
calls =
    puts key (bytes "c") none ∷ cleans key 3 ∷ merges ((key, bytes "d") ∷ []) ((key, 9) ∷ []) ∷ []

calls_AllHaveRoom : AllHaveRoom store calls
unfolding get_latest_version newest find text_beq
calls_AllHaveRoom = (omega arith, (tt, (tt, tt)))

run-Follows_example : Follows (view store key) (events_at key calls) (view (run store calls) key)
unfolding find
run-Follows_example = run-Follows store calls key calls_AllHaveRoom ((refl, tt), tt)

run-IsConsistent_example : IsConsistent (run store calls)
run-IsConsistent_example = run-IsConsistent store calls calls_AllHaveRoom store_IsConsistent
