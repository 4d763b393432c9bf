-- ===== src/Server/Gateway.antt =====
-- `ReplicationGatewayService` of src/server/server.cpp. `answer` is what the metadata store answers
-- if the handler asks it, and `query` what the tail of a key answers.
use crown_kv.Common.{
  ℕ, ltb, Bool, true, false, if◌then◌else◌, Option, none, some, [], Text, text_eq, assign_all,
}
use crown_kv.Messages.{
  PutRequest, PutResponse, GetResponse, WriteAck, VersionQueryRequest, VersionQueryResponse,
  StateDumpResponse, MembershipResponse, Error, stale_epoch, wrong_mode, service_unavailable,
}
use crown_kv.KvStore.{Record, KvStore, snapshot_committed}
use crown_kv.Replication.{Stub, Node}
use crown_kv.Apportioned.{put_error, get_error}
use crown_kv.Chain
use crown_kv.Craq
use crown_kv.Crown
use crown_kv.Server.{
  starting, normal, Process, Mode, chain_mode, craq_mode, crown_mode, select_mode, selected,
  with_selected, refresh_membership_async,
}

abbrev pub Query : Type 0
Query = Stub → VersionQueryRequest → Option VersionQueryResponse

abbrev pub node_of : Mode → Process → Node
node_of mode p = record { kv = p.kv; repl = selected mode p }

unfoldable pub with_node : Mode → Node → Process → Process
with_node mode n p = with_selected mode n.repl (record p { kv = n.kv })

unfoldable pub handle_put : Mode → ℕ → PutRequest → Node → Node × PutResponse
handle_put chain_mode = Chain.handle_put
handle_put craq_mode = Craq.handle_put
handle_put crown_mode = Crown.handle_put

unfoldable pub handle_get : Mode → Query → Text → Node → GetResponse
handle_get chain_mode query = Chain.handle_get
handle_get craq_mode query = Craq.handle_get query
handle_get crown_mode query = Crown.handle_get query

unfoldable pub handle_ack : Mode → ℕ → Node → Node
handle_ack chain_mode = Chain.handle_ack
handle_ack craq_mode = Craq.handle_ack
handle_ack crown_mode = Crown.handle_ack

-- `if (request->epoch() > local_epoch) RefreshMembershipAsync();`
unfoldable pub catch_up : ℕ → Option MembershipResponse → ℕ → Process → Process
catch_up now answer epoch p =
    if ltb p.server.epoch epoch then refresh_membership_async now answer p else p

-- The part that `Put` and `ForwardPut` share. The mode is the one before the refresh.
unfoldable pub forward_put :
    ℕ → Option MembershipResponse → PutRequest → Process → Process × PutResponse
forward_put now answer q p = elim (select_mode p.server.mode) [
  | none ↦ (p, put_error wrong_mode)
  | some mode ↦
      if ltb q.epoch p.server.epoch
      then (p, put_error stale_epoch)
      else (let p' = catch_up now answer q.epoch p in
          let (n, response) = handle_put mode now q (node_of mode p') in
          (with_node mode n p', response))
]

unfoldable pub put : ℕ → Option MembershipResponse → PutRequest → Process → Process × PutResponse
put now answer q p = elim p.server.state [
  | starting ↦ (p, put_error service_unavailable)
  | normal ↦ forward_put now answer q p
]

unfoldable pub get :
    ℕ → Option MembershipResponse → Query → Text → ℕ → Process → Process × GetResponse
get now answer query key epoch p = elim (select_mode p.server.mode) [
  | none ↦ (p, get_error wrong_mode)
  | some mode ↦
      if ltb epoch p.server.epoch
      then (p, get_error stale_epoch)
      else (let p' = catch_up now answer epoch p in
          (p', handle_get mode query key (node_of mode p')))
]

unfoldable pub send_write_ack : ℕ → Option MembershipResponse → WriteAck → Process → Process × Bool
send_write_ack now answer ack p = elim (select_mode p.server.mode) [
  | none ↦ (p, false)
  | some mode ↦
      let p' = catch_up now answer ack.epoch p in
      (with_node mode (handle_ack mode ack.request_id (node_of mode p')) p', true)
]

abbrev pub query_error : Error → VersionQueryResponse
query_error e = record { committed_version = 0; error = e }

-- The mode is the one before the refresh here too.
unfoldable pub version_query :
    ℕ → Option MembershipResponse → VersionQueryRequest → Process → Process × VersionQueryResponse
version_query now answer q p =
    let p' = catch_up now answer q.epoch p in
    if ltb q.epoch p.server.epoch
    then (p, query_error stale_epoch)
    else elim (select_mode p.server.mode) [
      | some craq_mode ↦ (p', Craq.handle_version_query q (node_of craq_mode p'))
      | some crown_mode ↦ (p', Crown.handle_version_query q (node_of crown_mode p'))
      | _ ↦ (p', query_error wrong_mode)
    ]

-- What the two loops over the snapshot put into the response.
unfoldable pub dump : KvStore → ℕ → StateDumpResponse
dump kv epoch = record {
  kv_data = assign_all (λ (r : Record). r.value) (snapshot_committed kv) [];
  version_data = assign_all (λ (r : Record). r.verison) (snapshot_committed kv) [];
  epoch = epoch;
}

-- A stale request is answered by a status other than OK, which is none.
unfoldable pub state_dump :
    ℕ → Option MembershipResponse → ℕ → Process → Process × Option StateDumpResponse
state_dump now answer epoch p =
    if ltb epoch p.server.epoch
    then (p, none)
    else (let p' = catch_up now answer epoch p in (p', some (dump p'.kv p.server.epoch)))
