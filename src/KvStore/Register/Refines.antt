-- ===== src/KvStore/Register/Refines.antt =====
-- The store of src/kv_store/kv_store.cpp against its contract.
use native.Mathlib.Nat.{mod-eq_of_lt}
use crown_kv.Common.{
  ℕ, ◌≡◌, refl, inl, inr, arith, leb, false, Bool-cases, Option, none, some, List, [], ◌∷◌, Text,
  text_eq, eq_refl, eq_sound, nat_eq, ◌==◌, find,
}
use crown_kv.KvStore.{Record, KvStore, version_of, get_latest_version, add_dirty, put, mark_clean}
use crown_kv.KvStore.Views.{
  committed, committed_version, promote, committed-add_dirty, dirty_record-add_dirty,
  committed-mark_clean, dirty_record-mark_clean,
}
use crown_kv.KvStore.Latest.{get_latest_version-IsLatest}
use crown_kv.KvStore.Snapshot.{outdate, apply_committed_snapshot-merges}
use crown_kv.KvStore.History.{Operation, puts, cleans, merges, apply, run}
use crown_kv.KvStore.Invariant.{HasRoom, AllHaveRoom}
use crown_kv.KvStore.Register.{
  Register, view, clean, stage, IsTop, Allows, Follows, install_event, put_event, event_at,
  events_at, AllProper,
}

Register-path :
    {a b : Register} → a.current ≡ b.current → ((u : ℕ) → a.pending u ≡ b.pending u) → a ≡ b
Register-path p q = λ i. record { current = p i; pending = λ u. q u i }

add_dirty_self :
    (s : KvStore) (key x : Text) (n : ℕ)
    → view (add_dirty s key n (record { verison = n; value = x })) key ≡ stage n x (view s key)
add_dirty_self s key x n = Register-path (committed-add_dirty s key n _ key) (λ u.
    ground (
      arith,
      dirty_record-add_dirty s key n (record { verison = n; value = x }) key u,
      eq_refl key,
    ))

add_dirty_ne :
    (s : KvStore) (key k : Text) (n : ℕ) (r : Record)
    → (key == k) ≡ false
    → view (add_dirty s key n r) k ≡ view s k
add_dirty_ne s key k n r h =
    Register-path (committed-add_dirty s key n r k)
      (λ u. ground (arith, dirty_record-add_dirty s key n r k u))

get_latest_version-IsTop : (s : KvStore) (k : Text) → IsTop (view s k) (get_latest_version s k)
unfolding committed_version
get_latest_version-IsTop s k =
    let t = get_latest_version-IsLatest s k in
    record { current_le = t.committed_le; pending_le = t.dirty_le; attained = t.attained }

put_self :
    (s : KvStore) (key x : Text) (version : Option ℕ)
    → HasRoom s (puts key x version)
    → Allows (view s key) (put_event version x) (view (put s key x version).0 key)
unfolding put committed
put_self s key x none h = (
  get_latest_version s key,
  get_latest_version-IsTop s key,
  rw (mod-eq_of_lt h) (add_dirty_self s key x _),
)
put_self s key x (some v) h = elim (Bool-cases (leb v (version_of (find key s.store)))) [
  | inl e ↦ rw e
  | inr e ↦ rw e (add_dirty_self s key x v)
]

put_ne :
    (s : KvStore) (key k x : Text) (version : Option ℕ)
    → (key == k) ≡ false
    → view (put s key x version).0 k ≡ view s k
unfolding put
put_ne s key k x none h = add_dirty_ne s key k _ _ h
put_ne s key k x (some v) h = elim (Bool-cases (leb v (version_of (find key s.store)))) [
  | inl e ↦ rw e
  | inr e ↦ rw e (add_dirty_ne s key k _ _ h)
]

mark_clean_self :
    (s : KvStore) (key : Text) (v : ℕ)
    → Allows (view s key) (clean v) (view (mark_clean s key v) key)
mark_clean_self s key v =
    Register-path (ground (arith, committed-mark_clean s key v key, eq_refl key))
      (λ u. ground (arith, dirty_record-mark_clean s key v key u, eq_refl key))

mark_clean_ne :
    (s : KvStore) (key k : Text) (v : ℕ)
    → (key == k) ≡ false
    → view (mark_clean s key v) k ≡ view s k
mark_clean_ne s key k v h =
    Register-path (ground (arith, committed-mark_clean s key v k))
      (λ u. ground (arith, dirty_record-mark_clean s key v k u))

merge-Allows :
    (b a : Register) (o : Option Record)
    → a.current ≡ promote o b.current
    → ((u : ℕ) → a.pending u ≡ outdate o u (b.pending u))
    → Allows b (install_event o) a
merge-Allows b a none p q = Register-path p q
merge-Allows b a (some r) p q = Register-path p q

-- A method call whose assigned version fits 64 bits (and whose snapshot names a key once) does to
-- the register of each key what the call's event at that key allows; a key that the call does not
-- name is left as it is.
pub apply-Allows :
    (s : KvStore) (o : Operation) (k : Text)
    → HasRoom s o
    → AllProper (o ∷ [])
    → Allows (view s k) (event_at k o) (view (apply s o) k)
unfolding apply event_at
apply-Allows s (puts key x version) k h p = elim (Bool-cases (key == k)) [
  | inl e ↦ rw e (rw (← eq_sound key k e) (put_self s key x version h))
  | inr e ↦ rw e (put_ne s key k x version e)
]
apply-Allows s (cleans key v) k h p = elim (Bool-cases (key == k)) [
  | inl e ↦ rw e (rw (← eq_sound key k e) (mark_clean_self s key v))
  | inr e ↦ rw e (mark_clean_ne s key k v e)
]
apply-Allows s (merges values versions) k h p =
    let m = apply_committed_snapshot-merges s values versions p.0 k in
    merge-Allows (view s k) _ _ m.0 m.1

-- The store implements a register for each key: under any sequence of method calls in which every
-- assigned version fits 64 bits and every snapshot has a key once, each key's register goes through
-- the events of the calls at that key, in their order, as `Allows` says.
pub run-Follows :
    (s : KvStore) (os : List Operation) (k : Text)
    → AllHaveRoom s os
    → AllProper os
    → Follows (view s k) (events_at k os) (view (run s os) k)
unfolding run
run-Follows s [] k h p = refl
run-Follows s (puts key x version ∷ os) k h p = (
  view (apply s (puts key x version)) k,
  apply-Allows s (puts key x version) k h.0 tt,
  run-Follows (apply s (puts key x version)) os k h.1 p,
)
run-Follows s (cleans key v ∷ os) k h p = (
  view (apply s (cleans key v)) k,
  apply-Allows s (cleans key v) k h.0 tt,
  run-Follows (apply s (cleans key v)) os k h.1 p,
)
run-Follows s (merges values versions ∷ os) k h p = (
  view (apply s (merges values versions)) k,
  apply-Allows s (merges values versions) k h.0 (p.0, tt),
  run-Follows (apply s (merges values versions)) os k h.1 p.1,
)
