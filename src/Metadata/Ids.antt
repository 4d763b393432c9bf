-- ===== src/Metadata/Ids.antt =====
-- The ids of the members, src/metadata_store/metadata_store.cpp.
use crown_kv.Common.{
  ◌≡◌, refl, arith, Bool, false, ◌||◌, if◌then◌else◌, List, [], ◌∷◌, ◌++◌, Text, text_eq,
  text_beq_iff, ◌==◌,
}
use crown_kv.Messages.{NodeInfo}
use crown_kv.Metadata.{
  ClusterState, has_member, without, heartbeat, trigger_reconfigure_remove, trigger_reconfigure_add,
  trigger_mode_change,
}
use crown_kv.Metadata.History.{
  Change, removes, adds, switches, change, Event, hears, changes, step, run, IsIdle,
}

-- No two members have one id.
abbrev pub IsDistinct : List NodeInfo → Type 0
IsDistinct [] = Unit
IsDistinct (member ∷ members) = (has_member member.node_id members ≡ false) × IsDistinct members

has_member-append :
    (id : Text) (members : List NodeInfo) (added : NodeInfo)
    → has_member id (members ++ added ∷ []) ≡ (has_member id members || (added.node_id == id))
unfolding has_member
has_member-append id [] added = ground arith
has_member-append id (member ∷ members) added = ground (arith, has_member-append id members added)

pub has_member-without :
    (id failed : Text) (members : List NodeInfo)
    → has_member id (without failed members).0
      ≡ (if id == failed then false else has_member id members)
unfolding has_member without
has_member-without id failed [] = ground arith
has_member-without id failed (member ∷ members) = ground (
  arith,
  has_member-without id failed members,
  text_beq_iff id failed,
  text_beq_iff member.node_id failed,
  text_beq_iff member.node_id id,
)

pub without-found :
    (failed : Text) (members : List NodeInfo)
    → (without failed members).1 ≡ has_member failed members
unfolding has_member without
without-found failed [] = refl
without-found failed (member ∷ members) = ground (arith, without-found failed members)

without-IsDistinct :
    (failed : Text) (members : List NodeInfo)
    → IsDistinct members
    → IsDistinct (without failed members).0
unfolding without
without-IsDistinct failed [] d = tt
without-IsDistinct failed (member ∷ members) d =
    ground (
      arith,
      without-IsDistinct failed members d.1,
      has_member-without member.node_id failed members,
    )

append-IsDistinct :
    (members : List NodeInfo) (added : NodeInfo)
    → has_member added.node_id members ≡ false
    → IsDistinct members
    → IsDistinct (members ++ added ∷ [])
unfolding has_member
append-IsDistinct [] added n d = (refl, tt)
append-IsDistinct (member ∷ members) added n d = ground (
  arith,
  append-IsDistinct members added,
  has_member-append member.node_id members added,
  text_beq_iff added.node_id member.node_id,
  text_beq_iff member.node_id added.node_id,
)

step-IsDistinct :
    (e : Event) (s : ClusterState) → IsDistinct s.membership → IsDistinct (step e s).membership
unfolding step change heartbeat trigger_reconfigure_remove trigger_reconfigure_add
    trigger_mode_change
step-IsDistinct (hears now request) s d = d
step-IsDistinct (changes (removes failed)) s d =
    ground (arith, without-IsDistinct failed s.membership d)
step-IsDistinct (changes (adds now added)) s d =
    ground (arith, append-IsDistinct s.membership added)
step-IsDistinct (changes (switches mode)) s d = ground arith

-- No sequence of heartbeats and reconfigurations puts two members with one id into a membership
-- whose ids differ.
pub run-IsDistinct :
    (events : List Event) (s : ClusterState)
    → IsDistinct s.membership
    → IsDistinct (run events s).membership
unfolding run
run-IsDistinct [] s d = d
run-IsDistinct (e ∷ events) s d = run-IsDistinct events (step e s) (step-IsDistinct e s d)

-- The members after a reconfiguration.
abbrev pub member_after : Change → List NodeInfo → Text → Bool
member_after (removes failed) members id = if id == failed then false else has_member id members
member_after (adds now added) members id = has_member id members || (added.node_id == id)
member_after (switches mode) members id = has_member id members

-- Who is a member after a reconfiguration.
pub has_member-change :
    (c : Change) (s : ClusterState)
    → IsIdle s
    → (id : Text) → has_member id (change c s).0.membership ≡ member_after c s.membership id
unfolding change trigger_reconfigure_remove trigger_reconfigure_add trigger_mode_change
has_member-change (removes failed) s i id = ground (
  arith,
  has_member-without id failed s.membership,
  without-found failed s.membership,
  text_beq_iff id failed,
)
has_member-change (adds now added) s i id =
    ground (arith, has_member-append id s.membership added, text_beq_iff added.node_id id)
has_member-change (switches mode) s i id = ground arith
