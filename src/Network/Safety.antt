-- ===== src/Network/Safety.antt =====
-- What holds of the stores of all nodes and the writes that the heads have accepted, and that every
-- change of one store keeps it: src/kv_store/kv_store.cpp as the nodes of a chain use it.
use mathlib.Core.List.{Memᴰ}
use crown_kv.Common.{
  ℕ, ◌≤◌, ◌<◌, ◌≡◌, ◌≢◌, ◌⊎◌, inl, inr, sym, ap, ◌∙◌, arith, Bool-cases, true, nat_beq, some, List,
  Text, text_eq, nat_eq,
}
use crown_kv.KvStore.{Record, KvStore, get_latest_version}
use crown_kv.KvStore.Views.{committed, committed_version, dirty_record}
use crown_kv.KvStore.Invariant.{IsConsistent}
use crown_kv.Apportioned.{Roles}
use crown_kv.Network.{Write, update}
use crown_kv.Network.Stores.{Holds, Grows, Grows-refl, Grows-latest}

-- The record is that of a write that a head has accepted.
abbrev pub IsIssued : List Write → Text → ℕ → Text → Type 0
IsIssued issued key v value =
    (w : Write) × Memᴰ w issued × (w.key ≡ key) × (w.version ≡ v) × (w.value ≡ value)

-- The node stores nothing but accepted writes.
pub record IsStored (issued : List Write) (s : KvStore) : Type 0 where
  pub consistent : IsConsistent s
  pub dirty :
      (key : Text) (v : ℕ) (r : Record)
      → dirty_record s key v ≡ some r
      → IsIssued issued key v r.value
  pub clean :
      (key : Text) (r : Record) → committed s key ≡ some r → IsIssued issued key r.verison r.value

-- Ids and, of one key, versions tell the writes apart, and no head has a version below one it gave.
pub record IsNumbered (roles : Roles) (n : ℕ) (stores : ℕ → KvStore) (issued : List Write)
    : Type 0 where
  pub positive : (w : Write) → Memᴰ w issued → 0 < w.version
  pub latest :
      (w : Write)
      → Memᴰ w issued
      → w.version ≤ get_latest_version (stores (roles.head w.key n)) w.key
  pub by_id : (w x : Write) → Memᴰ w issued → Memᴰ x issued → w.request_id ≡ x.request_id → w ≡ x
  pub by_version :
      (w x : Write) → Memᴰ w issued → Memᴰ x issued → w.key ≡ x.key → w.version ≡ x.version → w ≡ x

pub record IsSafe (roles : Roles) (n : ℕ) (stores : ℕ → KvStore) (issued : List Write)
    : Type 0 where
  pub stored : (i : ℕ) → i < n → IsStored issued (stores i)
  pub numbered : IsNumbered roles n stores issued
  -- Nothing is committed that the tail has not committed.
  pub behind :
      (i : ℕ) (key : Text)
      → i < n
      → committed_version (stores i) key ≤ committed_version (stores (roles.tail key n)) key
  -- What the tail has committed is held by every node.
  pub held :
      (i : ℕ) (key : Text)
      → i < n
      → Holds (stores i) key (committed_version (stores (roles.tail key n)) key)

pub update_ind {ℓ κ} :
    {A : Type ℓ} (P : ℕ → A → Type κ) (f : ℕ → A) (i : ℕ) (a : A) (j : ℕ)
    → ((i ≡ j) → P j a)
    → P j (f j)
    → P j (update f i a j)
update_ind P f i a j here there = elim (Bool-cases (nat_beq i j)) [
  | inl e ↦ rw e (here (ground arith))
  | inr e ↦ rw e there
]

pub update_self {ℓ} : {A : Type ℓ} (f : ℕ → A) (i : ℕ) (a : A) → update f i a i ≡ a
update_self f i a = ground arith

pub update_other {ℓ} :
    {A : Type ℓ} (f : ℕ → A) (i : ℕ) (a : A) (j : ℕ) → i ≢ j → update f i a j ≡ f j
update_other f i a j h = ground arith

pub IsNumbered-later :
    (roles : Roles) (n : ℕ) (stores stores' : ℕ → KvStore) (issued : List Write)
    → ((i : ℕ) → Grows (stores i) (stores' i))
    → IsNumbered roles n stores issued
    → IsNumbered roles n stores' issued
IsNumbered-later roles n stores stores' issued g h = record {
  positive = h.positive;
  latest = λ w m. omega (arith, h.latest w m, Grows-latest _ _ w.key (g (roles.head w.key n)));
  by_id = h.by_id;
  by_version = h.by_version;
}

-- An accepted write of a key under a version has one value.
pub IsIssued-unique :
    (roles : Roles) (n : ℕ) (stores : ℕ → KvStore) (issued : List Write)
    → IsNumbered roles n stores issued
    → (key : Text) (v : ℕ) (x y : Text) → IsIssued issued key v x
    → IsIssued issued key v y
    → x ≡ y
IsIssued-unique roles n stores issued h key v x y (w, mw, kw, vw, xw) (u, mu, ku, vu, yu) =
    let same = h.by_version w u mw mu (kw ∙ sym ku) (vw ∙ sym vu) in
    sym xw ∙ ap (λ (z : Write). z.value) same ∙ yu

pub IsStored-later :
    (issued issued' : List Write) (s : KvStore)
    → ((w : Write) → Memᴰ w issued → Memᴰ w issued')
    → IsStored issued s
    → IsStored issued' s
IsStored-later issued issued' s k h = record {
  consistent = h.consistent;
  dirty = λ key v r e. let p = h.dirty key v r e in (p.0, k p.0 p.1, p.2, p.3, p.4);
  clean = λ key r e. let p = h.clean key r e in (p.0, k p.0 p.1, p.2, p.3, p.4);
}

pub update-Grows :
    (stores : ℕ → KvStore) (i : ℕ) (s : KvStore)
    → Grows (stores i) s
    → (j : ℕ) → Grows (stores j) (update stores i s j)
update-Grows stores i s g j =
    update_ind (λ x t. Grows (stores x) t) stores i s j (λ e. rw (sym e) g) (Grows-refl (stores j))

module _ (roles : Roles) (n : ℕ) (stores : ℕ → KvStore) (i : ℕ) (s : KvStore) where
  -- What may happen to the committed version of a key: it stays, or it rises behind the tail, or at
  -- the tail, to a version that every node holds.
  abbrev pub Commits : Text → Type 0
  Commits key =
      (committed_version s key ≡ committed_version (stores i) key)
      ⊎ ((i ≢ roles.tail key n)
          × (committed_version s key ≤ committed_version (stores (roles.tail key n)) key))
      ⊎ ((i ≡ roles.tail key n)
          × ((j : ℕ) → j < n → Holds (update stores i s j) key (committed_version s key)))

  module _ (issued issued' : List Write) (h : IsSafe roles n stores issued) (g : Grows (stores i) s)
      (l : i < n) where
    update-behind :
        (j : ℕ) (key : Text)
        → j < n
        → Commits key
        → committed_version (update stores i s j) key
          ≤ committed_version (update stores i s (roles.tail key n)) key
    update-behind j key b moves =
        let up = (update-Grows stores i s g (roles.tail key n)).commits key in
        update_ind
          (λ x t.
            committed_version t key ≤ committed_version (update stores i s (roles.tail key n)) key)
          stores i s j
          (λ e. elim moves [
            | inl same ↦ omega (arith, same, h.behind i key l, up)
            | inr (inl (ne, le)) ↦ omega (arith, le, up)
            | inr (inr (t, all)) ↦ rw (← t) (rw (update_self stores i s) (omega arith))
          ])
          (omega (arith, h.behind j key b, up))

    update-held :
        (j : ℕ) (key : Text)
        → j < n
        → Commits key
        → Holds
            (update stores i s j)
            key
            (committed_version (update stores i s (roles.tail key n)) key)
    update-held j key b moves = elim (Bool-cases (nat_beq i (roles.tail key n))) [
      | inr ne ↦ rw ne (grown)
      | inl e ↦ rw e (elim moves [
        | inl same ↦ rw (same, ap (λ x. committed_version (stores x) key) (at e)) grown
        | inr (inl (n', le)) ↦ absurd (n' (at e))
        | inr (inr (t, all)) ↦ all j b
      ])
    ]
      where
        at : nat_beq i (roles.tail key n) ≡ true → i ≡ roles.tail key n
        at e = ground arith

        grown : Holds (update stores i s j) key (committed_version (stores (roles.tail key n)) key)
        grown = (update-Grows stores i s g j).holds key _ (h.held j key b)

    -- One store changes, and loses nothing.
    pub update-IsSafe :
        ((w : Write) → Memᴰ w issued → Memᴰ w issued')
        → IsStored issued' s
        → IsNumbered roles n (update stores i s) issued'
        → ((key : Text) → Commits key)
        → IsSafe roles n (update stores i s) issued'
    update-IsSafe k stored' numbered' moves = record {
      stored = λ j b.
          update_ind (λ x t. IsStored issued' t) stores i s j (λ e. stored')
            (IsStored-later issued issued' (stores j) k (h.stored j b));
      numbered = numbered';
      behind = λ j key b. update-behind j key b (moves key);
      held = λ j key b. update-held j key b (moves key);
    }
