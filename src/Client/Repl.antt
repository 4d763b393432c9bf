-- ===== src/Client/Repl.antt =====
-- The command line of the client: `RunRepl` of src/client/client.cpp. What is printed is a list of
-- outputs; what comes from outside while a command runs is a `World`.
pub mod Counts
use crown_kv.Common.{
  ℕ, ◌+◌, ◌-◌, ◌%◌, ◌^◌, Bool, true, false, not, ◌||◌, if◌then◌else◌, ltb, leb, nat_beq, Option,
  none, some, ◌>>=◌, List, [], ◌∷◌, Text, text_eq, ◌==◌, bytes, ℤ, pos, negsuc, length, get_elem?,
}
use crown_kv.Messages.{PutResponse, MembershipResponse, SetModeResponse}
use crown_kv.Address.{stoi, stoull}
use crown_kv.Client.{MembershipState, Gets, Fetches, fetch_membership}
use crown_kv.Client.Words.{split_words}
use crown_kv.Client.Commits.{ClientState}
use crown_kv.Client.Commands.{
  Session, PutWorld, Output, receive, put_command, get_command, use_command,
}
use crown_kv.Client.Workload.{Row, load_dataset_csv, build_skewed_workload}
use crown_kv.Client.Bench.{AsyncPutCall, start_calls, bench}
use crown_kv.Client.Waiting.{Tick, bench_wait}

-- The state of the command line, with the dataset that `bench` keeps between its runs.
pub record Repl : Type 0 where
  pub session : Session
  pub cached_path : Text
  pub cached_dataset : List Row

pub record World : Type 0 where
  pub refresh : Option MembershipResponse
  pub switch : Option SetModeResponse
  pub fetches : Fetches
  pub gets : Gets
  pub put : PutWorld
  pub files : Text → Option Text
  pub clock : ℕ → ℕ
  pub completions : List (AsyncPutCall × Option PutResponse)
  pub wait_start : ℕ
  pub ticks : List Tick

pub data Printed : Type 0 where
  help bench_usage hot_share_range hot_set_share_range no_dataset no_workload : Printed
  refresh_failed unknown_command : Printed
  command_output : Output → Printed
  members : MembershipState → Printed
  mode_is refreshed : Text → ℕ → Printed
  committed_writes : (committed failed orphaned : ℕ) → Printed
  stats_are : (completed expected pending : ℕ) → Printed

-- How a line ends: with an output, of which only the last is kept, or without one; the loop is left;
-- an exception leaves it; a row outside the dataset is read; `bench` still waits.
pub data Outcome : Type 0 where
  prints : Repl → Printed → Outcome
  continues : Repl → Outcome
  quits throws reads_outside waits : Outcome

unfoldable pub word_or : Text → List Text → ℕ → Text
word_or default words i = elim (get_elem? words i) [ none ↦ default | some word ↦ word ]

-- `words.size() > i ? std::stoi(words[i]) : default`
unfoldable pub int_or : ℤ → List Text → ℕ → Option ℤ
int_or default words i = elim (get_elem? words i) [ none ↦ some default | some word ↦ stoi word ]

-- `share < low || share > 100`
unfoldable pub out_of_range : ℕ → ℤ → Bool
out_of_range low (pos n) = ltb n low || ltb 100 n
out_of_range low (negsuc n) = true

-- The dataset for a path: whether there is one, and the cache then.
unfoldable pub use_dataset : (Text → Option Text) → Text → Repl → Bool × Repl
use_dataset files csv_path r =
    if not (csv_path == r.cached_path) || nat_beq (length r.cached_dataset) 0
    then (let (loaded, rows) = load_dataset_csv (files csv_path) r.cached_dataset in
        if loaded
        then (true, record r { cached_path = csv_path; cached_dataset = rows })
        else (false, record r { cached_path = []; cached_dataset = [] }))
    else (true, r)

-- `bench` once its workload is there: the calls, the acks that come in meanwhile, the completions,
-- and the wait for the other acks. none is a wait that has not ended yet.
unfoldable pub run_workload : Text → World → List Row → Repl → Option (Repl × Printed)
run_workload listen_addr w workload r = do
  let s = r.session
  let started = start_calls s.membership listen_addr w.clock 0 s.request_id workload
  let acked = receive w.put.early s.state
  let done = bench s.membership listen_addr w.clock s.request_id workload w.completions acked
  let target = (s.state.completed + done.accepted) % 2 ^ 64
  (state, orphaned) ← bench_wait target w.ticks w.wait_start done.state.completed done.state
  some (
    record r { session = record s { state = state; request_id = started.request_id } },
    committed_writes ((done.accepted + 2 ^ 64 - orphaned) % 2 ^ 64) done.failed orphaned,
  )

abbrev ends : Option (Repl × Printed) → Outcome
ends none = waits
ends (some (r', printed)) = prints r' printed

-- `bench` with its arguments read.
unfoldable pub bench_rows : Text → World → ℕ → Text → ℤ → ℤ → Repl → Outcome
unfolding use_dataset run_workload
bench_rows listen_addr w count csv_path hot_share hot_set_share r =
    let (loaded, r') = use_dataset w.files csv_path r in
    if out_of_range 0 hot_share
    then prints r hot_share_range
    else if out_of_range 1 hot_set_share
    then prints r hot_set_share_range
    else if not loaded
    then prints r' no_dataset
    else elim (build_skewed_workload r'.cached_dataset count hot_share hot_set_share) [
      | none ↦ reads_outside
      | some workload ↦
          if not (nat_beq (length workload) count)
          then prints r' no_workload
          else ends (run_workload listen_addr w workload r')
    ]

-- The arguments of `bench`: none is an exception of `std::stoull` or `std::stoi`.
unfoldable pub bench_arguments : List Text → Option (ℕ × Text × ℤ × ℤ)
unfolding word_or int_or
bench_arguments words = do
  count ← stoull (word_or [] words 1)
  hot_share ← int_or (pos 0) words 3
  hot_set_share ← int_or (pos 10) words 4
  some (
    count,
    word_or (bytes "setup/generated_kv_dataset/all_kv_pairs.csv") words 2,
    hot_share,
    hot_set_share,
  )

unfoldable pub bench_command : Text → World → List Text → Repl → Outcome
bench_command listen_addr w words r =
    if ltb (length words) 2 then prints r bench_usage else elim (bench_arguments words) [
      | none ↦ throws
      | some (count, csv_path, hot_share, hot_set_share) ↦
          bench_rows listen_addr w count csv_path hot_share hot_set_share r
    ]

abbrev in_session : Repl → Session × Output → Outcome
in_session r (s, output) = prints (record r { session = s }) (command_output output)

unfoldable pub refresh_command : Option MembershipResponse → Repl → Outcome
refresh_command answer r =
    let (fetched, membership) = fetch_membership answer r.session.membership in
    let r' : Repl = record r { session = record r.session { membership = membership } } in
    if fetched
    then prints r' (refreshed membership.mode membership.epoch)
    else prints r' refresh_failed

-- `PrintClientStats`, without the mean of the latencies.
unfoldable pub client_stats : ClientState → Printed
client_stats s = stats_are s.completed s.expected (length s.pending)

-- One line of input.
unfoldable pub run_line : Text → World → Text → Repl → Outcome
unfolding bench_command refresh_command
run_line listen_addr w line r = elim (split_words line) [
  | [] ↦ continues r
  | command ∷ rest ↦
      let words = command ∷ rest in
      let s = r.session in
      if command == bytes "quit" || command == bytes "exit"
      then quits
      else if command == bytes "help"
      then prints r help
      else if command == bytes "members"
      then prints r (members s.membership)
      else if command == bytes "mode"
      then prints r (mode_is s.membership.mode s.membership.epoch)
      else if command == bytes "refresh"
      then refresh_command w.refresh r
      else if command == bytes "use"
      then in_session r (use_command w.fetches w.switch words s)
      else if command == bytes "get"
      then in_session r (get_command w.gets w.fetches words s)
      else if command == bytes "put" || command == bytes "put-async"
      then in_session r (put_command listen_addr w.put (command == bytes "put") words s)
      else if command == bytes "bench"
      then bench_command listen_addr w words r
      else if command == bytes "pending"
      then prints r (client_stats s.state)
      else prints r unknown_command
]
