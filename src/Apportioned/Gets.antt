-- ===== src/Apportioned/Gets.antt =====
-- Reads: `handle_get` and `handle_version_query` of src/replication/craq/craq_replication.cpp and
-- src/replication/crown/crown_replication.cpp.
use crown_kv.Common.{
  ℕ, ◌<◌, ◌≡◌, ◌≢◌, ◌⊎◌, inl, inr, arith, if◌then◌else◌, leb, nat_beq, false, Bool-cases,
  Option-cases, Option, none, some, ◌>>=◌, Text, text_eq, nat_eq, find, get_elem?,
}
use crown_kv.Messages.{
  GetResponse, VersionQueryRequest, VersionQueryResponse, no_error, not_found, version_not_found,
  NodeInfo,
}
use crown_kv.KvStore.{Record, KvStore, version_of, get}
use crown_kv.KvStore.Views.{committed, committed_version, dirty_record}
use crown_kv.KvStore.Invariant.{IsConsistent}
use crown_kv.Replication.{Stub, make_replication_stub, Node}
use crown_kv.Apportioned.{
  Roles, get_error, get_success, get_committed_state, has_dirty, get_dirty_record, get_version,
  get_answered, get_dirty, handle_get,
}
use crown_kv.Apportioned.Puts.{get_committed_state-version}

get_dirty_record-eq :
    (s : KvStore) (key : Text) (v : ℕ) → get_dirty_record s key v ≡ dirty_record s key v
unfolding get_dirty_record dirty_record find
get_dirty_record-eq s key v = ground arith

pub get-eq : (s : KvStore) (key : Text) → get s key ≡ (committed s key >>= λ r. some r.value)
unfolding get committed
get-eq s key = ground arith

pub version-committed :
    (s : KvStore) (key : Text) → (get_committed_state s key).version ≡ version_of (committed s key)
unfolding committed_version
version-committed s key = get_committed_state-version s key

abbrev pub answer : Option Record → GetResponse
answer none = get_error not_found
answer (some r) = get_success r.value r.verison

-- A committed record has a version; version 0 stands for no record.
abbrev pub IsVersioned : KvStore → Text → Type 0
IsVersioned s key = (r : Record) → committed s key ≡ some r → 0 < r.verison

-- `get_version` from the two records that it looks at.
abbrev pub read_at : ℕ → Option Record → Option Record → GetResponse
read_at w (some r) c = if nat_beq w 0 then get_error not_found else get_success r.value w
read_at w none none = if nat_beq w 0 then get_error not_found else get_error version_not_found
read_at w none (some r) =
    if nat_beq w 0
    then get_error not_found
    else if leb w r.verison
    then get_success r.value r.verison
    else get_error version_not_found

pub get_version-read_at :
    (s : KvStore) (key : Text) (w : ℕ)
    → get_version s key w ≡ read_at w (dirty_record s key w) (committed s key)
unfolding get_version get committed get_committed_state
get_version-read_at s key w = ground (arith, get_dirty_record-eq s key w)

-- The tail's own committed version leads back to its committed record.
get_version_self :
    (s : KvStore) (key : Text)
    → IsConsistent s
    → IsVersioned s key
    → get_version s key (committed_version s key) ≡ answer (committed s key)
unfolding committed_version
get_version_self s key c p =
    elim (Option-cases (dirty_record s key (version_of (committed s key)))) [
      | inr (r, e) ↦ absurd (omega (arith, c.newer key _ r e))
      | inl e ↦
          rw (get_version-read_at s key (version_of (committed s key)), e)
            (elim (Option-cases (committed s key)) [
              | inl f ↦ rw f
              | inr (r, f) ↦ ground (arith, f, p r f)
            ])
    ]

-- What is read at a given version is committed here, or is dirty under that version.
get_version_sound :
    (s : KvStore) (key : Text) (w : ℕ) (x : Text) (v : ℕ)
    → get_version s key w ≡ get_success x v
    → (committed s key ≡ some (record { verison = v; value = x }))
      ⊎ ((r : Record) × (dirty_record s key v ≡ some r) × (r.value ≡ x) × (w ≡ v))
get_version_sound s key w x v h = elim (Option-cases (dirty_record s key w)) [
  | inl e ↦ inl (ground (arith, e, get_version-read_at s key w))
  | inr (r, e) ↦
      let f : get_success r.value w ≡ get_success x v =
        ground (arith, e, get_version-read_at s key w) in
      let g : w ≡ v = ground arith in inr (r, rw (← g) e, ground arith, g)
]

pub get_committed_state-clean :
    (s : KvStore) (key : Text) → has_dirty s key ≡ false → (v : ℕ) → dirty_record s key v ≡ none
unfolding has_dirty dirty_record find
get_committed_state-clean s key h v = ground arith

-- An answer that leads to a record is one without an error.
get_answered_sound :
    (s : KvStore) (key x : Text) (v : ℕ) (o : Option VersionQueryResponse)
    → get_answered s key o ≡ get_success x v
    → (w : ℕ) × (o ≡ some (record { committed_version = w; error = no_error }))
      × (get_version s key w ≡ get_success x v)
unfolding get_answered
get_answered_sound s key x v none h = cc
get_answered_sound s key x v (some a) h = (a.committed_version, ground arith, ground arith)

module _ (roles : Roles) (query : Stub → VersionQueryRequest → Option VersionQueryResponse)
    (key : Text) (n : Node) where
  -- At the tail of the key, in a consistent store whose committed record of the key has a version
  -- above 0, and with a membership, a read returns the committed record, or that there is none,
  -- whatever is dirty there, and asks nobody.
  pub handle_get-tail :
      IsConsistent n.kv
      → IsVersioned n.kv key
      → n.repl.ring_size ≢ 0
      → n.repl.node_index ≡ roles.tail key n.repl.ring_size
      → handle_get roles query key n ≡ answer (committed n.kv key)
  unfolding handle_get get_dirty
  handle_get-tail c p h t = elim (Bool-cases (has_dirty n.kv key)) [
    | inl d ↦ ground (arith, d, get_committed_state-version n.kv key, get_version_self n.kv key c p)
    | inr d ↦ ground (arith, d, get-eq n.kv key, version-committed n.kv key)
  ]

  -- The tail has told this node that it has committed a version of the key.
  abbrev pub TailSays : ℕ → Type 0
  TailSays v =
      (tail : NodeInfo) × (get_elem? n.repl.membership (roles.tail key n.repl.ring_size)
        ≡ some tail)
      × (query (make_replication_stub tail) (record { key = key; epoch = n.repl.epoch })
          ≡ some (record { committed_version = v; error = no_error }))

  answered-TailSays :
      (x : Text) (v : ℕ) (tail : NodeInfo)
      → get_elem? n.repl.membership (roles.tail key n.repl.ring_size) ≡ some tail
      → get_answered n.kv key
          (query (make_replication_stub tail) (record { key = key; epoch = n.repl.epoch }))
        ≡ get_success x v
      → (committed n.kv key ≡ some (record { verison = v; value = x }))
        ⊎ ((r : Record) × (dirty_record n.kv key v ≡ some r) × (r.value ≡ x) × TailSays v)
  answered-TailSays x v tail e h =
      let (w, a, g) = get_answered_sound n.kv key x v _ h in
      from w a (get_version_sound n.kv key w x v g)
    where
      from :
          (w : ℕ)
          → query (make_replication_stub tail) (record { key = key; epoch = n.repl.epoch })
            ≡ some (record { committed_version = w; error = no_error })
          → (committed n.kv key ≡ some (record { verison = v; value = x }))
            ⊎ ((r : Record) × (dirty_record n.kv key v ≡ some r) × (r.value ≡ x) × (w ≡ v))
          → (committed n.kv key ≡ some (record { verison = v; value = x }))
            ⊎ ((r : Record) × (dirty_record n.kv key v ≡ some r) × (r.value ≡ x) × TailSays v)
      from w a (inl c) = inl c
      from w a (inr (r, d, f, g)) = inr (r, d, f, (tail, e, rw (← g) a))

  get_dirty_sound :
      IsConsistent n.kv
      → (x : Text) (v : ℕ) → get_dirty roles query key n ≡ get_success x v
      → (committed n.kv key ≡ some (record { verison = v; value = x }))
        ⊎ ((r : Record) × (dirty_record n.kv key v ≡ some r) × (r.value ≡ x) × TailSays v)
  unfolding get_dirty
  get_dirty_sound c x v h =
      elim (Bool-cases (nat_beq n.repl.node_index (roles.tail key n.repl.ring_size))) [
        | inl t ↦
            let g : get_version n.kv key (committed_version n.kv key) ≡ get_success x v =
              ground (arith, t, get_committed_state-version n.kv key) in
            at_tail (get_version_sound n.kv key (committed_version n.kv key) x v g)
        | inr t ↦
            elim (Option-cases (get_elem? n.repl.membership (roles.tail key n.repl.ring_size))) [
              | inl e ↦ absurd (ground (arith, t, e))
              | inr (tail, e) ↦ answered-TailSays x v tail e (ground (arith, t, e))
            ]
      ]
    where
      at_tail :
          ((committed n.kv key ≡ some (record { verison = v; value = x }))
            ⊎ ((r : Record) × (dirty_record n.kv key v ≡ some r)
                × (r.value ≡ x)
                × (committed_version n.kv key ≡ v)))
          → (committed n.kv key ≡ some (record { verison = v; value = x }))
            ⊎ ((r : Record) × (dirty_record n.kv key v ≡ some r) × (r.value ≡ x) × TailSays v)
      at_tail (inl e) = inl e
      at_tail (inr (r, d, f, g)) = absurd (omega (arith, c.newer key v r d))

  -- In a consistent store a read never returns what is not committed: the record that it returns is
  -- committed at this node, or it is dirty here under the very version that the tail has said to be
  -- committed.
  pub handle_get_sound :
      IsConsistent n.kv
      → (x : Text) (v : ℕ) → handle_get roles query key n ≡ get_success x v
      → (committed n.kv key ≡ some (record { verison = v; value = x }))
        ⊎ ((r : Record) × (dirty_record n.kv key v ≡ some r) × (r.value ≡ x) × TailSays v)
  unfolding handle_get
  handle_get_sound c x v h = elim (Bool-cases (has_dirty n.kv key)) [
    | inl d ↦ get_dirty_sound c x v (ground (arith, d))
    | inr d ↦ inl (ground (arith, d, get-eq n.kv key, version-committed n.kv key))
  ]
