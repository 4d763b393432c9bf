-- ===== src/Client.antt =====
-- The client, src/client/client.cpp: its copy of the membership, where it sends a request, and its
-- attempts. What the nodes and the metadata store answer are arguments, numbered by the attempts
-- that are left; none is a status other than OK. A stub is the address that it is made for. Sizes of
-- the ring are within int.
pub mod Commits
pub mod Words
pub mod Workload
pub mod Turns
pub mod Attempts
pub mod Routes
pub mod Cluster
pub mod Reads
pub mod Answers
pub mod Modes
pub mod Commands
pub mod Bench
pub mod Waiting
pub mod Options
pub mod Repl
use crown_kv.Common.{
  ℕ, zero, suc, ◌+◌, ◌-◌, ◌%◌, ◌^◌, Bool, true, false, ◌||◌, if◌then◌else◌, nat_beq, Option, none,
  some, List, [], ◌∷◌, Text, text_eq, ◌==◌, bytes, ℤ, pos, negsuc, length, get_elem?, map,
}
use crown_kv.Messages.{
  NodeInfo, PutRequest, PutResponse, GetRequest, GetResponse, MembershipResponse, SetModeResponse,
  Error, stale_epoch, wrong_node,
}
use crown_kv.Ring.{head_index}
use crown_kv.Replication.{Stub, make_replication_stub}

pub record MembershipState : Type 0 where
  pub epoch : ℕ
  pub mode : Text
  pub members : List NodeInfo
  pub stubs : List Stub

unfoldable pub fetch_membership :
    Option MembershipResponse → MembershipState → Bool × MembershipState
fetch_membership none membership = (false, membership)
fetch_membership (some response) membership = (
  true,
  record {
    epoch = response.epoch;
    mode = response.mode;
    members = response.membership;
    stubs = map make_replication_stub response.membership;
  },
)

unfoldable pub select_write_node_index : MembershipState → Text → ℤ
select_write_node_index membership key =
    let ring_size = length membership.members in
    if nat_beq ring_size 0
    then negsuc 0
    else if membership.mode == bytes "CHAIN" || membership.mode == bytes "CRAQ"
    then pos 0
    else pos (head_index key ring_size)

unfoldable pub select_read_node_index : MembershipState → Text → ℤ
select_read_node_index membership key =
    let ring_size = length membership.members in
    if nat_beq ring_size 0
    then negsuc 0
    else if membership.mode == bytes "CHAIN"
    then pos (ring_size - 1)
    else pos (head_index key ring_size)

-- `stubs[index]`, behind the test of the index.
unfoldable pub stub_at : List Stub → ℤ → Option Stub
stub_at stubs (pos index) = get_elem? stubs index
stub_at stubs (negsuc _) = none

-- How a write ends: the result, `out_response` if it is set, the client's state, and what was sent.
pub record PutResult : Type 0 where
  pub success : Bool
  pub response : Option PutResponse
  pub membership : MembershipState
  pub request_id : ℕ
  pub sent : List (Stub × PutRequest)

abbrev pub put_ends : Bool → Option PutResponse → MembershipState → ℕ → PutResult
put_ends success response membership request_id = record {
  success = success;
  response = response;
  membership = membership;
  request_id = request_id;
  sent = [];
}

-- The errors after which a write asks for the membership: those that begin with WRONG_NODE, and
-- STALE_EPOCH.
unfoldable pub refreshes_put : Error → Bool
refreshes_put (wrong_node _) = true
refreshes_put stale_epoch = true
refreshes_put _ = false

-- For a read they are WRONG_NODE alone and STALE_EPOCH.
unfoldable pub refreshes_get : Error → Bool
refreshes_get (wrong_node none) = true
refreshes_get stale_epoch = true
refreshes_get _ = false

unfoldable pub put_request : Text → Text → Text → ℕ → MembershipState → PutRequest
put_request key value client_addr request_id membership = record {
  request_id = request_id;
  key = key;
  value = value;
  version = 0;
  client_addr = client_addr;
  epoch = membership.epoch;
}

abbrev pub Puts : Type 0
Puts = ℕ → Stub → PutRequest → Option PutResponse

abbrev pub Fetches : Type 0
Fetches = ℕ → Option MembershipResponse

-- What follows an answer, if the membership is fetched or not, another attempt ends as `again`, and
-- one with the fetched membership as `retried`.
unfoldable pub after_put :
    Option PutResponse → Bool → PutResult → PutResult → MembershipState → ℕ → PutResult
unfolding refreshes_put
after_put none fetched again retried membership next_id = again
after_put (some response) fetched again retried membership next_id =
    if response.success
    then put_ends true (some response) membership next_id
    else if refreshes_put response.error
    then (if fetched then retried else put_ends false none membership next_id)
    else put_ends false (some response) membership next_id

module _ (puts : Puts) (fetches : Fetches) (key value client_addr : Text) where
  -- The loop of `SendPutWithRetry`, with the number of attempts that are left.
  unfoldable pub put_attempts : ℕ → ℕ → MembershipState → PutResult
  unfolding stub_at select_write_node_index put_request after_put fetch_membership
  put_attempts zero request_id membership = put_ends false none membership request_id
  put_attempts (suc left) request_id membership =
      let index = select_write_node_index membership key in
      elim (stub_at membership.stubs index) [
        | none ↦ put_ends false none membership request_id
        | some stub ↦
            let request = put_request key value client_addr request_id membership in
            let next_id = (request_id + 1) % 2 ^ 64 in
            let again = put_attempts left next_id membership in
            let (fetched, refreshed) = fetch_membership (fetches left) membership in
            let retried = put_attempts left next_id refreshed in
            let result =
              after_put (puts left stub request) fetched again retried membership next_id in
            record result { sent = (stub, request) ∷ result.sent }
      ]

  unfoldable pub send_put_with_retry : ℕ → MembershipState → PutResult
  send_put_with_retry = put_attempts 3

pub record GetResult : Type 0 where
  pub success : Bool
  pub response : Option GetResponse
  pub membership : MembershipState
  pub sent : List (Stub × GetRequest)

abbrev pub get_ends : Bool → Option GetResponse → MembershipState → GetResult
get_ends success response membership = record {
  success = success;
  response = response;
  membership = membership;
  sent = [];
}

abbrev pub Gets : Type 0
Gets = ℕ → Stub → GetRequest → Option GetResponse

unfoldable pub after_get :
    Option GetResponse → Bool → GetResult → GetResult → MembershipState → GetResult
unfolding refreshes_get
after_get none fetched again retried membership = again
after_get (some response) fetched again retried membership =
    if refreshes_get response.error
    then (if fetched then retried else get_ends false none membership)
    else get_ends true (some response) membership

module _ (gets : Gets) (fetches : Fetches) (key : Text) where
  -- The loop of `SendGetWithRetry`.
  unfoldable pub get_attempts : ℕ → MembershipState → GetResult
  unfolding stub_at select_read_node_index after_get fetch_membership
  get_attempts zero membership = get_ends false none membership
  get_attempts (suc left) membership =
      let index = select_read_node_index membership key in
      elim (stub_at membership.stubs index) [
        | none ↦ get_ends false none membership
        | some stub ↦
            let request : GetRequest = record { key = key; epoch = membership.epoch } in
            let again = get_attempts left membership in
            let (fetched, refreshed) = fetch_membership (fetches left) membership in
            let retried = get_attempts left refreshed in
            let result = after_get (gets left stub request) fetched again retried membership in
            record result { sent = (stub, request) ∷ result.sent }
      ]

  unfoldable pub send_get_with_retry : MembershipState → GetResult
  send_get_with_retry = get_attempts 3

module _ (fetches : Fetches) (mode : Text) where
  -- The rounds that wait for the mode, and the last fetch.
  unfoldable pub mode_rounds : ℕ → MembershipState → Bool × MembershipState
  unfolding fetch_membership
  mode_rounds zero membership = fetch_membership (fetches 0) membership
  mode_rounds (suc left) membership =
      let (fetched, membership') = fetch_membership (fetches (suc left)) membership in
      let later = mode_rounds left membership' in
      if fetched
      then (if membership'.mode == mode then (true, membership') else later)
      else (false, membership')

  unfoldable pub set_cluster_mode :
      Option SetModeResponse → MembershipState → Bool × MembershipState
  set_cluster_mode none membership = (false, membership)
  set_cluster_mode (some response) membership =
      let waited = mode_rounds 10 membership in
      if response.success then waited else (false, membership)
