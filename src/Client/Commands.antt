-- ===== src/Client/Commands.antt =====
-- What the client does with a put, a get and a change of mode: the commands of `RunRepl`, and the
-- sender of `main`, src/client/client.cpp. What is printed is the result. An answer of a node or of
-- the metadata store is an argument, as is what acks come in before a write is recorded, and while
-- it is waited for.
pub mod Waits
use crown_kv.Common.{
  ℕ, zero, suc, ◌+◌, Bool, true, false, not, if◌then◌else◌, ltb, nat_beq, Option, none, some, List,
  [], ◌∷◌, ◌++◌, Text, pos, length, get_elem?,
}
use crown_kv.Messages.{PutResponse, GetResponse, CommitAck, SetModeResponse, Error, no_error}
use crown_kv.Address.{to_string}
use crown_kv.Client.{
  MembershipState, PutResult, GetResult, Puts, Gets, Fetches, send_put_with_retry,
  send_get_with_retry, set_cluster_mode,
}
use crown_kv.Client.Words.{join_words}
use crown_kv.Client.Commits.{
  PendingKey, ClientState, commit_ack, record_accepted_write, is_committed,
}

pub record Session : Type 0 where
  pub membership : MembershipState
  pub state : ClientState
  pub request_id : ℕ

-- What comes in while a write is sent and waited for, and when it is sent.
pub record PutWorld : Type 0 where
  pub puts : Puts
  pub fetches : Fetches
  pub sent : ℕ
  pub early : List (ℕ × CommitAck)
  pub late : List (ℕ × CommitAck)

pub data Output : Type 0 where
  usage put_failed get_failed mode_failed : Output
  put_error get_error : Error → Output
  accepted : ℕ → Option Bool → Output
  value_is : Text → ℕ → Output
  mode_is : Text → ℕ → Output

unfoldable pub receive : List (ℕ × CommitAck) → ClientState → ClientState
receive [] s = s
receive ((now, ack) ∷ acks) s = receive acks (commit_ack now ack s)

-- `words[i]`, of a line with that many words.
abbrev word_at : List Text → ℕ → Text
word_at words i = elim (get_elem? words i) [ none ↦ [] | some word ↦ word ]

abbrev response_of : PutResult → Option PutResponse
response_of r = if r.success then r.response else none

-- `WaitForCommit`: whether the write is committed once it returns.
unfoldable pub wait_for_commit :
    PendingKey → List (ℕ × CommitAck) → ClientState → ClientState × Bool
unfolding receive is_committed
wait_for_commit key late s = let s' = receive late s in (s', is_committed key s')

-- After the response: the write is recorded, and `put` waits for it, `put-async` does not.
unfoldable pub put_accepted : PutWorld → Bool → Text → PutResponse → Session → Session × Output
unfolding wait_for_commit
put_accepted w waits key response s =
    if not response.success
    then (s, put_error response.error)
    else (let pending_key : PendingKey = record { key = key; version = response.version } in
        let recorded = record_accepted_write pending_key w.sent s.state in
        let (waited, committed) = wait_for_commit pending_key w.late recorded in
        if waits
        then (record s { state = waited }, accepted response.version (some committed))
        else (record s { state = recorded }, accepted response.version none))

unfoldable pub put_command : Text → PutWorld → Bool → List Text → Session → Session × Output
unfolding put_accepted receive
put_command listen_addr w waits words s =
    if ltb (length words) 3
    then (s, usage)
    else (let key = word_at words 1 in
        let r =
          send_put_with_retry w.puts w.fetches key (join_words words 2) listen_addr s.request_id
            s.membership in
        let s' : Session = record {
          membership = r.membership;
          state = receive w.early s.state;
          request_id = r.request_id;
        } in
        elim (response_of r) [
          | none ↦ (s', put_failed)
          | some response ↦ put_accepted w waits key response s'
        ])

abbrev get_output : GetResponse → Output
get_output response = elim response.error [
  | no_error ↦ value_is response.value response.version
  | _ ↦ get_error response.error
]

unfoldable pub get_command : Gets → Fetches → List Text → Session → Session × Output
get_command gets fetches words s =
    if not (nat_beq (length words) 2)
    then (s, usage)
    else (let r = send_get_with_retry gets fetches (word_at words 1) s.membership in
        let s' = record s { membership = r.membership } in
        elim (if r.success then r.response else none) [
          | none ↦ (s', get_failed)
          | some response ↦ (s', get_output response)
        ])

unfoldable pub use_command :
    Fetches → Option SetModeResponse → List Text → Session → Session × Output
use_command fetches answer words s =
    if not (nat_beq (length words) 2)
    then (s, usage)
    else (let (switched, membership) =
          set_cluster_mode fetches (word_at words 1) answer s.membership in
        let s' = record s { membership = membership } in
        if switched then (s', mode_is membership.mode membership.epoch) else (s', mode_failed))

-- The sender of `main`: one write for each element of the list, numbered from `i`. It does not wait.
unfoldable pub send_puts : Text → Text → Text → ℕ → List PutWorld → Session → Session
unfolding put_accepted receive
send_puts key_prefix value_prefix listen_addr i [] s = s
send_puts key_prefix value_prefix listen_addr i (w ∷ worlds) s =
    let key = key_prefix ++ to_string (pos i) in
    let value = value_prefix ++ to_string (pos i) in
    let r = send_put_with_retry w.puts w.fetches key value listen_addr s.request_id s.membership in
    let s' : Session = record {
      membership = r.membership;
      state = receive w.early s.state;
      request_id = r.request_id;
    } in
    let recorded : Session = elim (response_of r) [
      | none ↦ s'
      | some response ↦ (put_accepted w false key response s').0
    ] in
    send_puts key_prefix value_prefix listen_addr (i + 1) worlds recorded
