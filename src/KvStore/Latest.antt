-- ===== src/KvStore/Latest.antt =====
-- `get_latest_version` of src/kv_store/kv_store.cpp, and the versions that `put` assigns.
use crown_kv.Common.{
  ℕ, suc, ◌+◌, ◌^◌, ◌≤◌, ◌<◌, ◌≡◌, refl, ◌⊎◌, inl, inr, arith, if◌then◌else◌, ltb, nat_beq,
  Bool-cases, ◌≢◌, none, none, some, List, [], ◌∷◌, Text, text_eq, eq_refl, ◌==◌, nat_eq, Map, find,
  length,
}
use native.Mathlib.Nat.{mod-eq_of_lt}
use crown_kv.KvStore.{Record, add_dirty, KvStore, newest, get_latest_version, put}
use crown_kv.KvStore.Views.{
  committed, committed_version, dirty_record, committed-add_dirty, dirty_record-add_dirty,
}

newest-ge : (l : ℕ) (d : Map ℕ Record) → l ≤ newest l d
unfolding newest
newest-ge l [] = omega arith
newest-ge l ((v, r) ∷ d) = ground (arith, newest-ge (if ltb l v then v else l) d)

find-le-newest :
    (l : ℕ) (d : Map ℕ Record) (v : ℕ) (r : Record) → find v d ≡ some r → v ≤ newest l d
unfolding newest find
find-le-newest l [] v r h = ground arith
find-le-newest l ((u, q) ∷ d) v r h =
    ground (
      arith,
      newest-ge (if ltb l u then u else l) d,
      find-le-newest (if ltb l u then u else l) d v r,
    )

-- A key that is found stays found, perhaps with another record, under one more entry.
find-cons :
    (u v : ℕ) (q r : Record) (d : Map ℕ Record)
    → find u d ≡ some q
    → (x : Record) × (find u ((v, r) ∷ d) ≡ some x)
unfolding find
find-cons u v q r d h = elim (Bool-cases (nat_beq v u)) [
  | inl e ↦ (r, rw e refl)
  | inr e ↦ (q, rw e h)
]

newest_attained :
    (l : ℕ) (d : Map ℕ Record) → (newest l d ≡ l) ⊎ ((r : Record) × (find (newest l d) d ≡ some r))
unfolding newest
newest_attained l [] = inl refl
newest_attained l ((v, r) ∷ d) = elim (Bool-cases (ltb l v)) [
  | inl e ↦
      rw e (from_ih v (newest_attained v d) (λ h. inr (r, unfold find in rw h (rw (eq_refl v)))))
  | inr e ↦ rw e (from_ih l (newest_attained l d) inl)
]
  where
    from_ih :
        (k : ℕ)
        → ((newest k d ≡ k) ⊎ ((q : Record) × (find (newest k d) d ≡ some q)))
        → ((newest k d ≡ k)
            → (newest k d ≡ l) ⊎ ((q : Record) × (find (newest k d) ((v, r) ∷ d) ≡ some q)))
        → (newest k d ≡ l) ⊎ ((q : Record) × (find (newest k d) ((v, r) ∷ d) ≡ some q))
    from_ih k (inl h) same = same h
    from_ih k (inr (q, h)) same = inr (find-cons (newest k d) v q r d h)

-- `latest` is the largest version of a key, clean or dirty.
pub record IsLatest (s : KvStore) (key : Text) (latest : ℕ) : Type 0 where
  pub committed_le : committed_version s key ≤ latest
  pub dirty_le : (v : ℕ) (r : Record) → dirty_record s key v ≡ some r → v ≤ latest
  pub attained :
      (latest ≡ committed_version s key) ⊎ ((r : Record) × (dirty_record s key latest ≡ some r))

-- `get_latest_version` returns the largest version of the key, over both maps.
pub get_latest_version-IsLatest :
    (s : KvStore) (key : Text) → IsLatest s key (get_latest_version s key)
unfolding get_latest_version committed_version committed dirty_record
get_latest_version-IsLatest s key = record {
  committed_le = newest-ge _ _;
  dirty_le = λ v r h. find-le-newest _ _ v r h;
  attained = newest_attained _ _;
}

-- There is only one such version.
IsLatest-unique : (s : KvStore) (key : Text) (m n : ℕ) → IsLatest s key m → IsLatest s key n → m ≤ n
IsLatest-unique s key m n a b = elim a.attained [
  | inl e ↦ omega (arith, b.committed_le)
  | inr (r, e) ↦ b.dirty_le m r e
]

module _ (s : KvStore) (key : Text) (n : ℕ) (r : Record) where
  dirty_record-add_dirty_self : dirty_record (add_dirty s key n r) key n ≡ some r
  dirty_record-add_dirty_self = ground (arith, dirty_record-add_dirty s key n r key n, eq_refl key)

  dirty_record-add_dirty_ne :
      (v : ℕ) → v ≢ n → dirty_record (add_dirty s key n r) key v ≡ dirty_record s key v
  dirty_record-add_dirty_ne v h =
      ground (arith, dirty_record-add_dirty s key n r key v, eq_refl key)

  add_dirty-IsLatest : get_latest_version s key ≤ n → IsLatest (add_dirty s key n r) key n
  unfolding committed_version
  add_dirty-IsLatest h = record {
    committed_le =
        rw (committed-add_dirty s key n r key)
          (omega (arith, (get_latest_version-IsLatest s key).committed_le));
    dirty_le = λ v q e. ground (
      arith,
      dirty_record-add_dirty s key n r key v,
      eq_refl key,
      (get_latest_version-IsLatest s key).dirty_le v q,
    );
    attained = inr (r, dirty_record-add_dirty_self);
  }

  -- A dirty record at or above every version of its key becomes the latest one.
  pub get_latest_version-add_dirty :
      get_latest_version s key ≤ n → get_latest_version (add_dirty s key n r) key ≡ n
  get_latest_version-add_dirty h =
      let s' = add_dirty s key n r in
      let a = get_latest_version-IsLatest s' key in
      let b = add_dirty-IsLatest h in
      omega (arith, IsLatest-unique s' key _ n a b, IsLatest-unique s' key n _ b a)

-- A client's write is given the version one above every version of the key, which is then the
-- latest: its record is dirty under that version, the key's committed record and its other dirty
-- records stay. The condition is that the new version fits 64 bits.
pub put-assigns :
    (s : KvStore) (key value : Text)
    → get_latest_version s key + 1 < 2 ^ 64
    → let n = get_latest_version s key + 1 in
      let s' = (put s key value none).0 in
      ((put s key value none).1 ≡ n)
      × (get_latest_version s' key ≡ n)
      × (committed s' key ≡ committed s key)
      × (dirty_record s' key n ≡ some (record { verison = n; value = value }))
      × ((v : ℕ)
          → dirty_record s' key v ≡ (
              if n == v
              then some (record { verison = n; value = value })
              else dirty_record s key v))
unfolding put
put-assigns s key value h =
    let n : ℕ = get_latest_version s key + 1 in
    let r : Record = record { verison = n; value = value } in
    rw (mod-eq_of_lt h) (
      refl,
      get_latest_version-add_dirty s key n r (omega arith),
      committed-add_dirty s key n r key,
      dirty_record-add_dirty_self s key n r,
      λ v. ground (arith, dirty_record-add_dirty s key n r key v, eq_refl key),
    )

-- The versions that a run of writes of one key is given.
unfoldable pub put_all : KvStore → Text → List Text → List ℕ
put_all s key [] = []
put_all s key (value ∷ values) = let (s', n) = put s key value none in n ∷ put_all s' key values

abbrev pub upwards : ℕ → List Text → List ℕ
upwards n [] = []
upwards n (value ∷ values) = suc n ∷ upwards (suc n) values

-- A run of client writes of one key is given consecutive versions, upwards from the latest one, as
-- long as they fit 64 bits.
pub put_all-upwards :
    (s : KvStore) (key : Text) (values : List Text)
    → get_latest_version s key + length values < 2 ^ 64
    → put_all s key values ≡ upwards (get_latest_version s key) values
unfolding put_all
put_all-upwards s key [] h = refl
put_all-upwards s key (value ∷ values) h =
    let p = put-assigns s key value (omega arith) in
    let e : get_latest_version (put s key value none).0 key ≡ suc (get_latest_version s key) =
      omega (arith, p.1) in
    let f : (put s key value none).1 ≡ suc (get_latest_version s key) = omega (arith, p.0) in
    cc (f, put_all-upwards (put s key value none).0 key values (omega arith), e)

-- With nothing dirty the latest version is the committed one.
pub get_latest_version-clean :
    (s : KvStore) (key : Text)
    → ((v : ℕ) → dirty_record s key v ≡ none)
    → get_latest_version s key ≡ committed_version s key
get_latest_version-clean s key h = elim (get_latest_version-IsLatest s key).attained [
  | inl e ↦ e
  | inr (r, e) ↦ cc (h (get_latest_version s key))
]
