-- ===== src/KvStore/Register.antt =====
-- The contract of the store of src/kv_store/kv_store.cpp: each key is a register of its own, which
-- holds at most one committed record and a dirty record for some versions. A method is an event at
-- the registers of its keys, and nothing at the others.
pub mod Refines
use native.Mathlib.Nat.{mod-eq_of_lt}
use crown_kv.Common.{
  ℕ, ◌+◌, ◌≤◌, ◌≡◌, refl, ◌⊎◌, inl, inr, arith, if◌then◌else◌, leb, false, Bool-cases, Option, none,
  some, List, [], ◌∷◌, Text, text_eq, eq_refl, eq_sound, nat_eq, ◌==◌, find, IsDistinct,
}
use crown_kv.KvStore.{Record, KvStore, version_of, get_latest_version, add_dirty, put, mark_clean}
use crown_kv.KvStore.Views.{
  committed, committed_version, dirty_record, promote, committed-add_dirty, dirty_record-add_dirty,
  committed-mark_clean, dirty_record-mark_clean,
}
use crown_kv.KvStore.Latest.{get_latest_version-IsLatest}
use crown_kv.KvStore.Snapshot.{snapshot_record, outdate, apply_committed_snapshot-merges}
use crown_kv.KvStore.History.{Operation, puts, cleans, merges, apply, run}
use crown_kv.KvStore.Invariant.{HasRoom, AllHaveRoom}

pub record Register : Type 0 where
  pub current : Option Record
  pub pending : ℕ → Option Record

abbrev pub view : KvStore → Text → Register
view s key = record { current = committed s key; pending = dirty_record s key }

pub data Event : Type 0 where
  idle : Event
  write : Text → Event
  offer : ℕ → Text → Event
  clean : ℕ → Event
  install : Record → Event

abbrev pub stage : ℕ → Text → Register → Register
stage n x b = record b {
  pending = λ u. if n == u then some (record { verison = n; value = x }) else b.pending u;
}

-- `n` bounds every version of the register, and is one of them (0 if there is none).
pub record IsTop (b : Register) (n : ℕ) : Type 0 where
  pub current_le : version_of b.current ≤ n
  pub pending_le : (v : ℕ) (r : Record) → b.pending v ≡ some r → v ≤ n
  pub attained : (n ≡ version_of b.current) ⊎ ((r : Record) × (b.pending n ≡ some r))

-- What an event may do to a register.
abbrev pub Allows : Register → Event → Register → Type 0
Allows b idle a = a ≡ b
Allows b (write x) a = (n : ℕ) × IsTop b n × (a ≡ stage (n + 1) x b)
Allows b (offer v x) a = a ≡ (if leb v (version_of b.current) then b else stage v x b)
Allows b (clean v) a = a ≡ record {
  current = promote (b.pending v) b.current;
  pending = λ u. if leb u v then none else b.pending u;
}
Allows b (install r) a = a ≡ record {
  current = promote (some r) b.current;
  pending = λ u. outdate (some r) u (b.pending u);
}

abbrev pub Follows : Register → List Event → Register → Type 0
Follows b [] a = a ≡ b
Follows b (e ∷ es) a = (m : Register) × Allows b e m × Follows m es a

abbrev install_event : Option Record → Event
install_event none = idle
install_event (some r) = install r

abbrev put_event : Option ℕ → Text → Event
put_event none x = write x
put_event (some v) x = offer v x

-- The event that a method call is at one key.
unfoldable pub event_at : Text → Operation → Event
event_at k (puts key value version) = if key == k then put_event version value else idle
event_at k (cleans key n) = if key == k then clean n else idle
event_at k (merges values versions) = install_event (snapshot_record values versions k)

abbrev pub events_at : Text → List Operation → List Event
events_at k [] = []
events_at k (o ∷ os) = event_at k o ∷ events_at k os

-- The map of a snapshot has each key once.
abbrev pub AllProper : List Operation → Type 0
AllProper [] = Unit
AllProper (merges values versions ∷ os) = IsDistinct values × AllProper os
AllProper (o ∷ os) = AllProper os
