-- ===== src/Network/Behind.antt =====
-- A store that is at or behind the one of the tail, and what its node reads:
-- `handle_get` of src/replication/craq/craq_replication.cpp and
-- src/replication/crown/crown_replication.cpp.
use crown_kv.Common.{
  ◌≤◌, ◌≡◌, inl, inr, refl, sym, ap, ◌∙◌, arith, none, some, Option-cases, Text, text_eq, nat_eq,
}
use crown_kv.Messages.{no_error, not_found}
use crown_kv.KvStore.{Record, KvStore}
use crown_kv.KvStore.Views.{committed, committed_version, dirty_record}
use crown_kv.Apportioned.{get_answered, get_success, get_version}
use crown_kv.Apportioned.Gets.{answer, IsVersioned, get_version-read_at}
use crown_kv.Network.Stores.{Holds}

-- What two stores say of a key when the first is at or behind the second, which every node backs.
pub record IsBehind (key : Text) (s tail : KvStore) : Type 0 where
  pub le : committed_version s key ≤ committed_version tail key
  pub held : Holds s key (committed_version tail key)
  pub versioned : IsVersioned s key
  pub versioned_tail : IsVersioned tail key
  pub agree :
      (r t : Record)
      → committed s key ≡ some r
      → committed tail key ≡ some t
      → r.verison ≡ t.verison
      → r ≡ t
  pub agree_dirty :
      (r t : Record)
      → dirty_record s key t.verison ≡ some r
      → committed tail key ≡ some t
      → r.value ≡ t.value

module _ (key : Text) (s tail : KvStore) (b : IsBehind key s tail) where
  pub caught_up :
      ((r : Record) → ¬ (dirty_record s key (committed_version tail key) ≡ some r))
      → committed s key ≡ committed tail key
  unfolding committed_version
  caught_up h = elim b.held [
    | inl (r, d) ↦ absurd (h r d)
    | inr le ↦ elim (Option-cases (committed s key)) [
      | inl e ↦ elim (Option-cases (committed tail key)) [
        | inl f ↦ e ∙ sym f
        | inr (t, f) ↦ absurd (ground (arith, e, f, le, b.versioned_tail t f))
      ]
      | inr (r, e) ↦ elim (Option-cases (committed tail key)) [
        | inl f ↦ absurd (ground (arith, e, f, b.le, b.versioned r e))
        | inr (t, f) ↦
            let same : r.verison ≡ t.verison = ground (arith, e, f, le, b.le) in
            e ∙ ap some (b.agree r t e f same) ∙ sym f
      ]
    ]
  ]

  -- What is read under the version that the tail has committed.
  get_version-tail :
      (t : Record)
      → committed tail key ≡ some t
      → get_version s key (committed_version tail key) ≡ get_success t.value t.verison
  unfolding committed_version
  get_version-tail t f = elim (Option-cases (dirty_record s key t.verison)) [
    | inr (r, d) ↦ ground (
      arith,
      f,
      d,
      get_version-read_at s key t.verison,
      b.agree_dirty r t d f,
      b.versioned_tail t f,
    )
    | inl d ↦
        let same : committed s key ≡ some t = caught_up (λ r e. ground (arith, d, e, f)) ∙ f in
        ground (arith, f, d, same, get_version-read_at s key t.verison, b.versioned_tail t f)
  ]

  -- The answer to a node that has asked the tail.
  pub get_answered-tail :
      get_answered s key (
        some (elim (committed tail key) [
          | none ↦ record { committed_version = 0; error = not_found }
          | some t ↦ record { committed_version = t.verison; error = no_error }
        ]))
      ≡ answer (committed tail key)
  unfolding get_answered committed_version
  get_answered-tail = elim (Option-cases (committed tail key)) [
    | inl f ↦ rw f refl
    | inr (t, f) ↦ ground (arith, f, get_version-tail t f)
  ]
