-- ===== src/Client/Bench.antt =====
-- The requests of `bench` and their completions, src/client/client.cpp: the loops of `RunRepl` that
-- start a call for each row of the workload and that take the calls from the completion queue.
use crown_kv.Common.{
  ℕ, ◌+◌, ◌%◌, ◌^◌, ◌≤◌, ◌<◌, ◌≡◌, arith, Bool, true, false, if◌then◌else◌, Option, none, some,
  List, [], ◌∷◌, Text, length,
}
use crown_kv.Messages.{PutRequest, PutResponse}
use crown_kv.Replication.{Stub}
use crown_kv.Client.{MembershipState, select_write_node_index, stub_at, put_request}
use crown_kv.Client.Commits.{PendingKey, ClientState, record_accepted_write}
use crown_kv.Client.Workload.{Row}

-- A call under way: the row's number and key, when it was sent, and to whom.
pub record AsyncPutCall : Type 0 where
  pub index : ℕ
  pub key : Text
  pub sent : ℕ
  pub stub : Stub
  pub request : PutRequest

pub record Calls : Type 0 where
  pub failed : ℕ
  pub request_id : ℕ
  pub calls : List AsyncPutCall

module _ (membership : MembershipState) (listen_addr : Text) (clock : ℕ → ℕ) where
  -- A row without a node to ask fails at once. `clock` is read at each row.
  unfoldable pub start_calls : ℕ → ℕ → List Row → Calls
  start_calls i request_id [] = record { failed = 0; request_id = request_id; calls = [] }
  start_calls i request_id ((key, value) ∷ rows) =
      elim (stub_at membership.stubs (select_write_node_index membership key)) [
        | none ↦
            let rest = start_calls (i + 1) request_id rows in
            record rest { failed = rest.failed + 1 }
        | some stub ↦
            let request = put_request key value listen_addr request_id membership in
            let rest = start_calls (i + 1) ((request_id + 1) % 2 ^ 64) rows in
            let call : AsyncPutCall = record {
              index = i;
              key = key;
              sent = clock i;
              stub = stub;
              request = request;
            } in
            record rest { calls = call ∷ rest.calls }
      ]

pub record Completed : Type 0 where
  pub state : ClientState
  pub accepted : ℕ
  pub failed : ℕ

-- A completion is a call and its response, or none if it has none or a status other than OK.
unfoldable pub complete : AsyncPutCall × Option PutResponse → Completed → Completed
complete (call, none) c = record c { failed = c.failed + 1 }
complete (call, some response) c =
    if response.success
    then record c {
      state =
          record_accepted_write (record { key = call.key; version = response.version }) call.sent
            c.state;
      accepted = c.accepted + 1;
    }
    else record c { failed = c.failed + 1 }

unfoldable pub complete_all : List (AsyncPutCall × Option PutResponse) → Completed → Completed
unfolding complete
complete_all [] c = c
complete_all (completion ∷ completions) c = complete_all completions (complete completion c)

-- The two loops, with the completions of the calls as they come from the queue.
unfoldable pub bench :
    MembershipState
    → Text
    → (ℕ → ℕ)
    → ℕ
    → List Row
    → List (AsyncPutCall × Option PutResponse)
    → ClientState
    → Completed
unfolding start_calls complete_all
bench membership listen_addr clock request_id rows completions s =
    let started = start_calls membership listen_addr clock 0 request_id rows in
    complete_all completions (record { state = s; accepted = 0; failed = started.failed })

pub start_calls_lem :
    (membership : MembershipState) (listen_addr : Text) (clock : ℕ → ℕ) (i request_id : ℕ)
    (rows : List Row)
    → let r = start_calls membership listen_addr clock i request_id rows in
      r.failed + length r.calls ≡ length rows
unfolding start_calls
start_calls_lem membership listen_addr clock i request_id [] = omega arith
start_calls_lem membership listen_addr clock i request_id ((key, value) ∷ rows) = ground (
  arith,
  start_calls_lem membership listen_addr clock (i + 1) request_id rows,
  start_calls_lem membership listen_addr clock (i + 1) ((request_id + 1) % 2 ^ 64) rows,
)

expected-record_accepted_write :
    (key : PendingKey) (sent : ℕ) (s : ClientState)
    → (record_accepted_write key sent s).expected ≡ (s.expected + 1) % 2 ^ 64
unfolding record_accepted_write
expected-record_accepted_write key sent s = ground arith

-- A completion is counted once, and expects a commit if it is accepted.
abbrev IsCounted : ℕ → Completed → Completed → Type 0
IsCounted n c c' =
    (c'.accepted + c'.failed ≡ c.accepted + c.failed + n)
    × (c'.state.expected + c.accepted ≡ c.state.expected + c'.accepted)
    × (c.failed ≤ c'.failed)

complete-IsCounted :
    (completion : AsyncPutCall × Option PutResponse) (c : Completed)
    → c.state.expected + 1 < 2 ^ 64
    → IsCounted 1 c (complete completion c)
unfolding complete
complete-IsCounted (call, none) c h = (omega arith, omega arith, omega arith)
complete-IsCounted (call, some response) c h =
    let key : PendingKey = record { key = call.key; version = response.version } in
    by_test response.success (expected-record_accepted_write key call.sent c.state)
  where
    by_test :
        (b : Bool)
        → (let key : PendingKey = record { key = call.key; version = response.version } in
            (record_accepted_write key call.sent c.state).expected
            ≡ (c.state.expected + 1) % 2 ^ 64)
        → IsCounted 1 c (
            if b
            then record c {
              state =
                  record_accepted_write
                    (record { key = call.key; version = response.version })
                    call.sent
                    c.state;
              accepted = c.accepted + 1;
            }
            else record c { failed = c.failed + 1 })
    by_test true e = (omega arith, omega (arith, e, h), omega arith)
    by_test false e = (omega arith, omega arith, omega arith)

complete_all-IsCounted :
    (completions : List (AsyncPutCall × Option PutResponse)) (c : Completed)
    → c.state.expected + length completions < 2 ^ 64
    → IsCounted (length completions) c (complete_all completions c)
unfolding complete_all
complete_all-IsCounted [] c h = (omega arith, omega arith, omega arith)
complete_all-IsCounted (completion ∷ completions) c h =
    let (n, e, f) = complete-IsCounted completion c (omega arith) in
    let (n', e', f') =
      complete_all-IsCounted completions (complete completion c) (omega (arith, h, n, e, f)) in
    (omega (arith, n, n'), omega (arith, e, e'), omega (arith, f, f'))

-- Each row of the workload is counted once, as accepted or as failed, and the client expects one
-- commit for each that is accepted. Each call that was started has one completion, and the counter
-- of commits has room.
pub bench-counts :
    (membership : MembershipState) (listen_addr : Text) (clock : ℕ → ℕ) (request_id : ℕ)
    (rows : List Row) (completions : List (AsyncPutCall × Option PutResponse)) (s : ClientState)
    → length completions ≡ length (start_calls membership listen_addr clock 0 request_id rows).calls
    → s.expected + length rows < 2 ^ 64
    → let c = bench membership listen_addr clock request_id rows completions s in
      (c.accepted + c.failed ≡ length rows) × (c.state.expected ≡ s.expected + c.accepted)
unfolding bench
bench-counts membership listen_addr clock request_id rows completions s e h =
    let started = start_calls_lem membership listen_addr clock 0 request_id rows in
    let failed = (start_calls membership listen_addr clock 0 request_id rows).failed in
    let (n, x, _) =
      complete_all-IsCounted completions (record { state = s; accepted = 0; failed = failed })
        (omega (arith, h, e, started)) in
    (omega (arith, n, e, started), omega (arith, x))
