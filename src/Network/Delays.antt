-- ===== src/Network/Delays.antt =====
-- A read that waits for the tail's answer: the second half of `handle_get` of
-- src/replication/craq/craq_replication.cpp and src/replication/crown/crown_replication.cpp, which runs when
-- the answer has come.
use mathlib.Core.Path.{subst}
use crown_kv.Common.{
  ℕ, ◌≤◌, ◌<◌, ◌≡◌, ◌⊎◌, inl, inr, refl, sym, ap, ◌∙◌, arith, none, some, Option, Option-cases,
  List, Text, text_eq, nat_eq, length,
}
use crown_kv.Messages.{NodeInfo}
use crown_kv.KvStore.{Record, KvStore, version_of}
use crown_kv.KvStore.Views.{committed, committed_version, dirty_record}
use crown_kv.Apportioned.{Roles, get_success, get_version, get_answered, handle_version_query}
use crown_kv.Apportioned.Gets.{answer, get_version-read_at}
use crown_kv.Network.{System, Reach}
use crown_kv.Network.Rings.{IsRing, IsRing-tail}
use crown_kv.Network.Stores.{Holds}
use crown_kv.Network.Safety.{IsIssued}
use crown_kv.Network.Handlers.{AreApart}
use crown_kv.Network.Reached.{Reach-Inv}
use crown_kv.Network.Reads.{tail_answer, is_versioned}
use crown_kv.Network.Later.{Steps, Steps-Reach, Steps-IsLater}

-- What is read under a version that the store holds.
get_version-Holds :
    (s : KvStore) (key : Text) (v : ℕ)
    → 0 < v
    → Holds s key v
    → (r : Record) × (get_version s key v ≡ get_success r.value r.verison)
      × (((r.verison ≡ v) × ((d : Record) × (dirty_record s key v ≡ some d) × (d.value ≡ r.value)))
          ⊎ ((v ≤ r.verison) × (committed s key ≡ some r)))
unfolding committed_version
get_version-Holds s key v p h = elim (Option-cases (dirty_record s key v)) [
  | inr (d, e) ↦ (
    record d { verison = v },
    ground (arith, e, get_version-read_at s key v, p),
    inl (refl, (d, e, refl)),
  )
  | inl e ↦ elim (Option-cases (committed s key)) [
    | inl f ↦ elim h [
      | inl (d, g) ↦ absurd (ground (arith, e, g))
      | inr le ↦ absurd (ground (arith, f, le, p))
    ]
    | inr (r, f) ↦
        let le : v ≤ r.verison = elim h [
          | inl (d, g) ↦ absurd (ground (arith, e, g))
          | inr le ↦ ground (arith, f, le)
        ] in
        (r, ground (arith, e, f, get_version-read_at s key v, p, le), inr (le, f))
  ]
]

module _ (roles : Roles) (members : List NodeInfo) (ring : IsRing roles (length members))
    (apart : AreApart members) (key : Text) where
  -- A read that waits while the cluster makes any number of steps, after the tail has answered its
  -- version query: the node then answers from its store with an accepted write of the key or, which
  -- counts as version 0, that there is none; its version is not below the one that the tail had
  -- committed when it answered and not above the one that the tail has committed at the read. The
  -- tail answers in a state that a cluster reaches from fresh nodes by client writes at the head,
  -- forwards and acks that arrive late, in any order, repeatedly or never, forward workers that
  -- take their tasks in order and send them in any, and rounds of the retry loop. (There are two or
  -- more members with different addresses, the membership stays, each key's tail is the node before
  -- its head, clients' request ids differ, and versions fit 64 bits.) The steps in between are of
  -- these kinds too.
  pub get_answered-IsBetween :
      {s t : System}
      → Reach roles members s
      → Steps roles members s t
      → (i epoch : ℕ) → i < length members
      → let tail = roles.tail key (length members) in
        let said =
          handle_version_query roles (record { key = key; epoch = epoch }) (s.nodes tail) in
        (o : Option Record) × (get_answered (t.nodes i).kv key (some said) ≡ answer o)
        × (committed_version (s.nodes tail).kv key ≤ version_of o)
        × (version_of o ≤ committed_version (t.nodes tail).kv key)
        × ((r : Record) → o ≡ some r → IsIssued t.issued key r.verison r.value)
  unfolding committed_version get_answered
  get_answered-IsBetween {s} {t} reach steps i epoch l =
      let tail = roles.tail key (length members) in
      let b = IsRing-tail roles (length members) key ring in
      let inv = Reach-Inv roles members ring apart reach in
      let inv' = Reach-Inv roles members ring apart (Steps-Reach roles members reach steps) in
      let later = Steps-IsLater roles members ring apart reach steps in
      let said = tail_answer roles members ring apart s reach key epoch in
      let Accepted : Record → Type 0 = λ z. IsIssued t.issued key z.verison z.value in
      elim (Option-cases (committed (s.nodes tail).kv key)) [
        | inl e ↦
            (none, ground (arith, said, e), ground (arith, e), omega arith, λ r f. absurd (cc f))
        | inr (c, e) ↦
            let p = is_versioned roles members ring apart s reach key tail b c e in
            let up = (later.grows tail).commits key in
            let held =
              subst (Holds (t.nodes i).kv key) (ap version_of e)
                ((later.grows i).holds key _ (inv.safe.held i key l)) in
            let (r, f, g) = get_version-Holds (t.nodes i).kv key c.verison p held in
            elim g [
              | inl (same, (d, h, x)) ↦ (
                some r,
                ground (arith, said, e) ∙ f,
                ground (arith, e, same),
                ground (arith, e, same, up),
                λ q o. subst Accepted (cc o) (
                    subst (λ v. IsIssued t.issued key v r.value) (sym same)
                      (subst (IsIssued t.issued key c.verison) x
                        ((inv'.safe.stored i l).dirty key c.verison d h))),
              )
              | inr (le, h) ↦ (
                some r,
                ground (arith, said, e) ∙ f,
                ground (arith, e, le),
                ground (arith, h, inv'.safe.behind i key l),
                λ q o. subst Accepted (cc o) ((inv'.safe.stored i l).clean key r h),
              )
            ]
      ]
