-- ===== src/Server/Stale.antt =====
-- Requests of an older epoch at the handlers of src/server/server.cpp.
use crown_kv.Common.{
  ◌∙◌, true, false, ℕ, ◌<◌, ◌≡◌, ◌≢◌, refl, arith, List, Option, none, some, Text, ltb, lt→ltb,
}
use crown_kv.Messages.{PutRequest, MembershipResponse, ReconfigureRequest, stale_epoch, no_error}
use crown_kv.Apportioned.{put_error, get_error}
use crown_kv.Server.{normal, Process, Mode, select_mode}
use crown_kv.Server.Gateway.{Query, put, forward_put, get, version_query, state_dump}
use crown_kv.Server.Epochs.{Event, run, run-IsNext}
use crown_kv.Server.Reconfigure.{Peers, reconfigure}

pub put_normal :
    (now : ℕ) (answer : Option MembershipResponse) (q : PutRequest) (p : Process)
    → p.server.state ≡ normal
    → put now answer q p ≡ forward_put now answer q p
unfolding put
put_normal now answer q p n = ground (arith, n)

forward_put-stale :
    (now : ℕ) (answer : Option MembershipResponse) (q : PutRequest) (mode : Mode) (p : Process)
    → q.epoch < p.server.epoch
    → select_mode p.server.mode ≡ some mode
    → forward_put now answer q p ≡ (p, put_error stale_epoch)
unfolding forward_put
forward_put-stale now answer q mode p h m =
    rw (m, forward_put) (rw (lt→ltb q.epoch p.server.epoch h))

pub put-stale :
    (now : ℕ) (answer : Option MembershipResponse) (q : PutRequest) (mode : Mode) (p : Process)
    → q.epoch < p.server.epoch
    → p.server.state ≡ normal
    → select_mode p.server.mode ≡ some mode
    → put now answer q p ≡ (p, put_error stale_epoch)
put-stale now answer q mode p h n m =
    put_normal now answer q p n ∙ forward_put-stale now answer q mode p h m

pub get-stale :
    (now epoch : ℕ) (answer : Option MembershipResponse) (query : Query) (key : Text) (mode : Mode)
    (p : Process)
    → epoch < p.server.epoch
    → select_mode p.server.mode ≡ some mode
    → get now answer query key epoch p ≡ (p, get_error stale_epoch)
unfolding get
get-stale now epoch answer query key mode p h m = rw (m, get) (rw (lt→ltb epoch p.server.epoch h))

-- Once a process has had an epoch, it refuses every request of an older one, whatever requests and
-- rounds of the background loops come in between and whatever its state and mode are then: a write,
-- a forwarded write, a read, a version query, a state dump or a reconfiguration. None succeeds, and
-- the process stays as it is.
pub run-refuses :
    (events : List Event) (p : Process) (now epoch : ℕ) (answer : Option MembershipResponse)
    (query : Query) (peers : Peers) (key : Text) (q : PutRequest)
    (reconfiguration : ReconfigureRequest)
    → epoch < p.server.epoch
    → q.epoch ≡ epoch
    → reconfiguration.epoch ≡ epoch
    → let p' = run events p in
      let (after_put, put_response) = put now answer q p' in
      let (after_forward, forward_response) = forward_put now answer q p' in
      let (after_get, get_response) = get now answer query key epoch p' in
      let (after_query, query_response) =
        version_query now answer (record { key = key; epoch = epoch }) p' in
      ((after_put ≡ p') × (put_response.success ≡ false))
      × ((after_forward ≡ p') × (forward_response.success ≡ false))
      × ((after_get ≡ p') × (get_response.error ≢ no_error))
      × ((after_query ≡ p') × (query_response.error ≢ no_error))
      × (state_dump now answer epoch p' ≡ (p', none))
      × (reconfigure now peers reconfiguration p' ≡ (p', false))
unfolding put forward_put get version_query state_dump reconfigure
run-refuses events p now epoch answer query peers key q reconfiguration h e f =
    let p' = run events p in
    let (later, _, _) = run-IsNext events p in
    let old : ltb epoch p'.server.epoch ≡ true =
      lt→ltb epoch p'.server.epoch (omega (arith, h, later)) in
    let old_q : ltb q.epoch p'.server.epoch ≡ true = rw e old in
    let old_r : ltb reconfiguration.epoch p'.server.epoch ≡ true = rw f old in
    (
      ground (arith, old_q),
      ground (arith, old_q),
      (ground (arith, old), λ x. ground (arith, old, x)),
      (rw old refl, λ x. ground (arith, old, x)),
      rw old,
      rw old_r,
    )
