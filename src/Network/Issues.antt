-- ===== src/Network/Issues.antt =====
-- The head of a key gives a client's write its version: `handle_put` of
-- src/replication/craq/craq_replication.cpp and src/replication/crown/crown_replication.cpp, as it changes
-- the stores of all nodes and the list of accepted writes.
use mathlib.Core.List.{Memᴰ}
use crown_kv.Common.{
  ℕ, ◌+◌, ◌≤◌, ◌<◌, ◌≡◌, ◌≢◌, inl, refl, sym, ap, ◌∙◌, arith, List, ◌∷◌, text_eq, nat_eq, All,
  All-member,
}
use crown_kv.KvStore.{Record, KvStore, get_latest_version, add_dirty}
use crown_kv.KvStore.Views.{committed_version, committed-add_dirty}
use crown_kv.KvStore.Latest.{get_latest_version-IsLatest, get_latest_version-add_dirty}
use crown_kv.Apportioned.{Roles}
use crown_kv.Network.{Write, update}
use crown_kv.Network.Stores.{Grows, add_dirty-Grows}
use crown_kv.Network.Safety.{
  IsNumbered, IsSafe, IsNumbered-later, IsStored-later, update_self, update-Grows, update-IsSafe,
}
use crown_kv.Network.Moves.{add_dirty-IsStored}

module _ (roles : Roles) (n : ℕ) (stores : ℕ → KvStore) (issued : List Write) (i : ℕ)
    (h : IsSafe roles n stores issued) (l : i < n) (w : Write) (at : i ≡ roles.head w.key n)
    (v : w.version ≡ get_latest_version (stores i) w.key + 1)
    (fresh : All (λ (x : Write). x.request_id ≢ w.request_id) issued) where
  abbrev new : Record
  new = record { verison = w.version; value = w.value }

  abbrev s' : KvStore
  s' = add_dirty (stores i) w.key w.version new

  new_id : (x : Write) → Memᴰ x issued → x.request_id ≢ w.request_id
  new_id x m = All-member (λ (y : Write). y.request_id ≢ w.request_id) issued fresh m

  new_version : (x : Write) → Memᴰ x issued → x.key ≡ w.key → x.version < w.version
  new_version x m e =
      let below : x.version ≤ get_latest_version (stores i) w.key =
        rw at (rw (← e) (h.numbered.latest x m)) in
      omega (arith, below, v)

  numbered' : Grows (stores i) s' → IsNumbered roles n (update stores i s') (w ∷ issued)
  numbered' g = record {
    positive = positive';
    latest = latest';
    by_id = by_id';
    by_version = by_version';
  }
    where
      old : IsNumbered roles n (update stores i s') issued
      old = IsNumbered-later roles n stores _ issued (update-Grows stores i s' g) h.numbered

      positive' : (x : Write) → Memᴰ x (w ∷ issued) → 0 < x.version
      positive' x (Memᴰ.head e) = rw e (omega (arith, v))
      positive' x (Memᴰ.tail m) = old.positive x m

      latest' :
          (x : Write)
          → Memᴰ x (w ∷ issued)
          → x.version ≤ get_latest_version (update stores i s' (roles.head x.key n)) x.key
      latest' x (Memᴰ.head e) = rw e (
          rw (← at) (
            rw (update_self stores i s') (
              omega (
                arith,
                v,
                get_latest_version-add_dirty (stores i) w.key w.version new (omega (arith, v)),
              ))))
      latest' x (Memᴰ.tail m) = old.latest x m

      by_id' :
          (x y : Write)
          → Memᴰ x (w ∷ issued)
          → Memᴰ y (w ∷ issued)
          → x.request_id ≡ y.request_id
          → x ≡ y
      by_id' x y (Memᴰ.head d) (Memᴰ.head e) same = d ∙ sym e
      by_id' x y (Memᴰ.head d) (Memᴰ.tail m) same =
          absurd (new_id y m (sym same ∙ ap (λ (z : Write). z.request_id) d))
      by_id' x y (Memᴰ.tail m) (Memᴰ.head e) same =
          absurd (new_id x m (same ∙ ap (λ (z : Write). z.request_id) e))
      by_id' x y (Memᴰ.tail m) (Memᴰ.tail k) same = old.by_id x y m k same

      by_version' :
          (x y : Write)
          → Memᴰ x (w ∷ issued)
          → Memᴰ y (w ∷ issued)
          → x.key ≡ y.key
          → x.version ≡ y.version
          → x ≡ y
      by_version' x y (Memᴰ.head d) (Memᴰ.head e) k same = d ∙ sym e
      by_version' x y (Memᴰ.head d) (Memᴰ.tail m) k same = absurd (
          omega (
            arith,
            same,
            ap (λ (z : Write). z.version) d,
            new_version y m (sym k ∙ ap (λ (z : Write). z.key) d),
          ))
      by_version' x y (Memᴰ.tail m) (Memᴰ.head e) k same = absurd (
          omega (
            arith,
            same,
            ap (λ (z : Write). z.version) e,
            new_version x m (k ∙ ap (λ (z : Write). z.key) e),
          ))
      by_version' x y (Memᴰ.tail m) (Memᴰ.tail m') k same = old.by_version x y m m' k same

  pub issue-IsSafe : IsSafe roles n (update stores i s') (w ∷ issued)
  unfolding committed_version
  issue-IsSafe =
      let g = add_dirty-Grows (stores i) w.key w.version new in
      let above = (get_latest_version-IsLatest (stores i) w.key).committed_le in
      update-IsSafe roles n stores i s' issued (w ∷ issued) h g l (λ x m. Memᴰ.tail m)
        (add_dirty-IsStored (w ∷ issued) (stores i) w.key w.version w.value
          (IsStored-later issued (w ∷ issued) (stores i) (λ x m. Memᴰ.tail m) (h.stored i l))
          (omega (arith, above, v)) (w, Memᴰ.head refl, refl, refl, refl))
        (numbered' g) (λ k. inl (rw (committed-add_dirty (stores i) w.key w.version new k)))
