-- ===== src/Network/Later.antt =====
-- Reads of a cluster one after the other: `handle_get` of src/replication/craq/craq_replication.cpp and
-- src/replication/crown/crown_replication.cpp, with any number of steps between them.
use crown_kv.Common.{
  ℕ, ◌≤◌, ◌<◌, ◌≡◌, inl, inr, sym, ap, ◌∙◌, arith, none, some, Option, Option-cases, List, Text,
  text_eq, nat_eq, length,
}
use crown_kv.Messages.{NodeInfo, VersionQueryRequest, VersionQueryResponse}
use crown_kv.KvStore.{Record}
use crown_kv.KvStore.Views.{committed, committed_version}
use crown_kv.Replication.{Stub}
use crown_kv.Apportioned.{Roles, get_success, handle_get}
use crown_kv.Apportioned.Gets.{answer}
use crown_kv.Network.{System, Step, Reach, later}
use crown_kv.Network.Rings.{IsRing, IsRing-tail}
use crown_kv.Network.Stores.{Grows-refl, Grows-trans}
use crown_kv.Network.Invariant.{IsLater}
use crown_kv.Network.Handlers.{AreApart}
use crown_kv.Network.Reached.{Reach-Inv, Step-Kept}
use crown_kv.Network.Reads.{IsAnswered, is_versioned, one_value, handle_get-IsStrong}

IsLater-refl : (s : System) → IsLater s s
IsLater-refl s = record { grows = λ i. Grows-refl (s.nodes i).kv; keeps = λ w m. m }

IsLater-trans : {r s t : System} → IsLater r s → IsLater s t → IsLater r t
IsLater-trans a b = record {
  grows = λ i. Grows-trans (a.grows i) (b.grows i);
  keeps = λ w m. b.keeps w (a.keeps w m);
}

answer-is_some :
    (o : Option Record) (x : Text) (v : ℕ)
    → answer o ≡ get_success x v
    → o ≡ some (record { value = x; verison = v })
answer-is_some none x v e = absurd (cc e)
answer-is_some (some r) x v e = ground (arith, e)

module _ (roles : Roles) (members : List NodeInfo) where
  -- Any number of steps.
  pub data Steps (s : System) : System → Type 0 where
    stay : Steps s s
    next : {t u : System} → Steps s t → Step roles members t u → Steps s u

  pub Steps-Reach : {s t : System} → Reach roles members s → Steps s t → Reach roles members t
  Steps-Reach r stay = r
  Steps-Reach r (next steps st) = later (Steps-Reach r steps) st

module _ (roles : Roles) (members : List NodeInfo) (ring : IsRing roles (length members))
    (apart : AreApart members) where
  -- No node loses a version that it holds or commits an older one, and no write is forgotten.
  pub Steps-IsLater : {s t : System} → Reach roles members s → Steps roles members s t → IsLater s t
  Steps-IsLater {s} r stay = IsLater-refl s
  Steps-IsLater r (next steps st) =
      IsLater-trans (Steps-IsLater r steps)
        (Step-Kept roles members ring apart st
          (Reach-Inv roles members ring apart (Steps-Reach roles members r steps))).1

  module _ (key : Text) where
    -- A read of a key at any node that comes after another one, at any node, with any number of
    -- steps of the cluster between them, finds a record if that one did, under the same version or
    -- a later one, and with the same value if the version is the same. The first read is made in a
    -- state that a cluster reaches from fresh nodes by client writes at the head, forwards and acks
    -- that arrive late, in any order, repeatedly or never, forward workers that take their tasks in
    -- order and send them in any, and rounds of the retry loop. (There are two or more members with
    -- different addresses, the membership stays, each key's tail is the node before its head,
    -- clients' request ids differ, and versions fit 64 bits.) The steps in between are of these
    -- kinds too. The version query of each read is answered by the tail.
    pub handle_get-IsMonotone :
        {s t : System}
        → Reach roles members s
        → Steps roles members s t
        → (query query' : Stub → VersionQueryRequest → Option VersionQueryResponse)
        → IsAnswered roles members s key query
        → IsAnswered roles members t key query'
        → (i j : ℕ) → i < length members
        → j < length members
        → (x : Text) (v : ℕ) → handle_get roles query key (s.nodes i) ≡ get_success x v
        → (r : Record) × (handle_get roles query' key (t.nodes j) ≡ get_success r.value r.verison)
          × (v ≤ r.verison)
          × (v ≡ r.verison → x ≡ r.value)
    unfolding committed_version
    handle_get-IsMonotone {s} {t} reach steps query query' now then i j l m x v read =
        let tail = roles.tail key (length members) in
        let b = IsRing-tail roles (length members) key ring in
        let reach' = Steps-Reach roles members reach steps in
        let inv = Reach-Inv roles members ring apart reach in
        let inv' = Reach-Inv roles members ring apart reach' in
        let later = Steps-IsLater reach steps in
        let c =
          answer-is_some (committed (s.nodes tail).kv key) x v
            (sym (handle_get-IsStrong roles members ring apart s reach key query now i l) ∙ read) in
        let p = is_versioned roles members ring apart s reach key tail b _ c in
        let le = (later.grows tail).commits key in
        elim (Option-cases (committed (t.nodes tail).kv key)) [
          | inl e ↦ absurd (ground (arith, e, c, le, p))
          | inr (r, e) ↦ (
            r,
            handle_get-IsStrong roles members ring apart t reach' key query' then j m ∙ ap answer e,
            ground (arith, e, c, le),
            λ same.
                let (w, mw, kw, vw, xw) = (inv.safe.stored tail b).clean key _ c in
                one_value roles members ring apart t reach' key v x r.value
                  (w, later.keeps w mw, kw, vw, xw)
                  (rw same ((inv'.safe.stored tail b).clean key r e)),
          )
        ]
