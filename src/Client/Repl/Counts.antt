-- ===== src/Client/Repl/Counts.antt =====
-- What `bench` reports, src/client/client.cpp: the writes that are committed, failed and given up.
use crown_kv.Common.{
  ℕ, ◌+◌, ◌-◌, ◌%◌, ◌^◌, ◌≤◌, ◌<◌, ◌≡◌, refl, ◌∙◌, ◌*◌, inl, inr, arith, Option, none, some,
  if◌then◌else◌, Bool-cases, ltb, leb, List, [], ◌∷◌, Text, text_eq, length,
}
use crown_kv.Messages.{PutResponse, CommitAck}
use crown_kv.Client.{MembershipState}
use crown_kv.Client.Commits.{
  PendingKey, ClientState, pending_key_eq, take_ack, commit_ack, record_accepted_write,
}
use crown_kv.Client.Commands.{receive}
use crown_kv.Client.Workload.{Row}
use crown_kv.Client.Bench.{
  AsyncPutCall, Completed, complete, complete_all, start_calls, start_calls_lem, bench,
  bench-counts,
}
use crown_kv.Client.Waiting.{Tick, stall_timeout, bench_wait, IsPaced, bench_wait-Ends}
use crown_kv.Client.Repl.{Repl, World, committed_writes, run_workload}

-- `completed` rises by at most `n`.
abbrev Rises : ℕ → ClientState → ClientState → Type 0
Rises n s s' = (s.completed ≤ s'.completed) × (s'.completed ≤ s.completed + n)

take_ack-Rises :
    (now : ℕ) (key : PendingKey) (s : ClientState)
    → s.completed + 1 < 2 ^ 64
    → Rises 1 s (take_ack now key s)
unfolding take_ack
take_ack-Rises now key s h = ground arith

receive-Rises :
    (acks : List (ℕ × CommitAck)) (s : ClientState)
    → s.completed + length acks < 2 ^ 64
    → Rises (length acks) s (receive acks s)
unfolding receive commit_ack
receive-Rises [] s h = (omega arith, omega arith)
receive-Rises ((now, ack) ∷ acks) s h =
    let key : PendingKey = record { key = ack.key; version = ack.version } in
    let (a, b) = take_ack-Rises now key s (omega (arith, h)) in
    let (c, d) = receive-Rises acks (take_ack now key s) (omega (arith, h, b)) in
    (omega (arith, a, c), omega (arith, b, d))

record_accepted_write-Rises :
    (key : PendingKey) (sent : ℕ) (s : ClientState)
    → s.completed + 1 < 2 ^ 64
    → Rises 1 s (record_accepted_write key sent s)
unfolding record_accepted_write
record_accepted_write-Rises key sent s h = ground arith

complete-Rises :
    (c : AsyncPutCall × Option PutResponse) (d : Completed)
    → d.state.completed + 1 < 2 ^ 64
    → Rises 1 d.state (complete c d).state
unfolding complete
complete-Rises (call, none) d h = (omega arith, omega arith)
complete-Rises (call, some response) d h =
    let key : PendingKey = record { key = call.key; version = response.version } in
    let (a, b) = record_accepted_write-Rises key call.sent d.state h in ground (arith, a, b)

complete_all-Rises :
    (cs : List (AsyncPutCall × Option PutResponse)) (d : Completed)
    → d.state.completed + length cs < 2 ^ 64
    → Rises (length cs) d.state (complete_all cs d).state
unfolding complete_all
complete_all-Rises [] d h = (omega arith, omega arith)
complete_all-Rises (c ∷ cs) d h =
    let (a, b) = complete-Rises c d (omega (arith, h)) in
    let (e, f) = complete_all-Rises cs (complete c d) (omega (arith, h, b)) in
    (omega (arith, a, e), omega (arith, b, f))

abbrev pub acks_in : List Tick → ℕ
acks_in [] = 0
acks_in (tick ∷ ticks) = length tick.acks + acks_in ticks

bench_wait-le :
    (target : ℕ) (ticks : List Tick) (last_progress last_seen : ℕ) (s s' : ClientState) (n : ℕ)
    → s.completed + acks_in ticks < 2 ^ 64
    → bench_wait target ticks last_progress last_seen s ≡ some (s', n)
    → n ≤ target - s.completed
unfolding bench_wait
bench_wait-le target [] p l s s' n h e = cc
bench_wait-le target (tick ∷ ticks) p l s s' n h e =
    let (a, b) = receive-Rises tick.acks s (omega (arith, h)) in
    let t = receive tick.acks s in
    let later : (p' l' : ℕ)
        → bench_wait target ticks p' l' t ≡ some (s', n)
        → n ≤ target - t.completed =
      λ p' l'. bench_wait-le target ticks p' l' t s' n (omega (arith, h, b)) in
    let less : n ≤ target - t.completed = elim (Bool-cases (leb target t.completed)) [
      | inl met ↦ ground (arith, met, e)
      | inr unmet ↦ elim (Bool-cases (ltb l t.completed)) [
        | inl moved ↦ elim (Bool-cases (leb stall_timeout (tick.now - tick.now))) [
          | inl over ↦ ground (arith, unmet, moved, over, e)
          | inr going ↦ later tick.now t.completed (ground (arith, unmet, moved, going, e))
        ]
        | inr still ↦ elim (Bool-cases (leb stall_timeout (tick.now - p))) [
          | inl over ↦ ground (arith, unmet, still, over, e)
          | inr going ↦ later p l (ground (arith, unmet, still, going, e))
        ]
      ]
    ] in
    omega (arith, less, a)

receive-expected :
    (acks : List (ℕ × CommitAck)) (s : ClientState) → (receive acks s).expected ≡ s.expected
unfolding receive commit_ack take_ack
receive-expected [] s = refl
receive-expected ((now, ack) ∷ acks) s =
    let key : PendingKey = record { key = ack.key; version = ack.version } in
    receive-expected acks (take_ack now key s) ∙ ground arith

bench-Rises :
    (membership : MembershipState) (listen_addr : Text) (clock : ℕ → ℕ) (request_id : ℕ)
    (rows : List Row) (completions : List (AsyncPutCall × Option PutResponse)) (s : ClientState)
    → s.completed + length completions < 2 ^ 64
    → Rises
        (length completions)
        s
        (bench membership listen_addr clock request_id rows completions s).state
unfolding bench
bench-Rises membership listen_addr clock request_id rows completions s h =
    complete_all-Rises completions _ h

-- How many completions accept their write.
abbrev pub accepted_in : List (AsyncPutCall × Option PutResponse) → ℕ
accepted_in [] = 0
accepted_in ((call, none) ∷ completions) = accepted_in completions
accepted_in ((call, some response) ∷ completions) =
    let rest = accepted_in completions in if response.success then 1 + rest else rest

complete_all-accepted :
    (completions : List (AsyncPutCall × Option PutResponse)) (d : Completed)
    → (complete_all completions d).accepted ≡ d.accepted + accepted_in completions
unfolding complete_all complete
complete_all-accepted [] d = omega arith
complete_all-accepted ((call, none) ∷ completions) d =
    complete_all-accepted completions (complete (call, none) d)
complete_all-accepted ((call, some response) ∷ completions) d =
    let ih = complete_all-accepted completions (complete (call, some response) d) in
    ground (arith, ih)

-- A run of `bench` ends and reports each write of its workload once. The committed and the given up
-- ones together are those that a node has accepted, the failed ones are the others, and as many are
-- given up as the accepted writes exceed the commits that the client has counted since the start of
-- the run. Each call that was started has one completion, the counters have room, a tick of the
-- wait that does not end it is at least five seconds after the one before, and there are twelve
-- ticks for each write and twelve more.
pub run_workload-counts :
    (listen_addr : Text) (w : World) (workload : List Row) (r : Repl)
    → let s = r.session in
      let started = start_calls s.membership listen_addr w.clock 0 s.request_id workload in
      length w.completions ≡ length started.calls
      → s.state.expected + length workload < 2 ^ 64
      → s.state.completed + length workload + length w.put.early + acks_in w.ticks < 2 ^ 64
      → IsPaced w.wait_start w.ticks
      → 12 * length workload + 12 ≤ length w.ticks
      → (r' : Repl) × (committed failed orphaned : ℕ) × (run_workload listen_addr w workload r
          ≡ some (r', committed_writes committed failed orphaned))
        × (committed + orphaned ≡ accepted_in w.completions)
        × (committed + failed + orphaned ≡ length workload)
        × (orphaned ≡ s.state.completed + accepted_in w.completions - r'.session.state.completed)
unfolding run_workload bench
run_workload-counts listen_addr w workload r calls h k paced enough =
    let s = r.session in
    let acked = receive w.put.early s.state in
    let done = bench s.membership listen_addr w.clock s.request_id workload w.completions acked in
    let target = (s.state.completed + done.accepted) % 2 ^ 64 in
    let started = start_calls_lem s.membership listen_addr w.clock 0 s.request_id workload in
    let (a, b) = receive-Rises w.put.early s.state (omega (arith, k)) in
    let (c, d) =
      bench-Rises s.membership listen_addr w.clock s.request_id workload w.completions acked
        (omega (arith, k, b, started, calls)) in
    let (counted, _) =
      bench-counts s.membership listen_addr w.clock s.request_id workload w.completions acked calls
        (omega (arith, h, receive-expected w.put.early s.state)) in
    let started_failed =
      (start_calls s.membership listen_addr w.clock 0 s.request_id workload).failed in
    let accepted =
      complete_all-accepted w.completions
        (record { state = acked; accepted = 0; failed = started_failed }) in
    let (s', e) =
      bench_wait-Ends target w.ticks w.wait_start done.state paced
        (omega (arith, enough, a, c, k, counted)) in
    let le =
      bench_wait-le target w.ticks w.wait_start done.state.completed done.state s' _
        (omega (arith, k, b, d, started, calls)) e in
    (
      record r {
        session = record s {
          state = s';
          request_id =
              (start_calls s.membership listen_addr w.clock 0 s.request_id workload).request_id;
        };
      },
      (done.accepted + 2 ^ 64 - (target - s'.completed)) % 2 ^ 64,
      done.failed,
      target - s'.completed,
      rw e refl,
      omega (arith, le, a, c, k, counted, accepted),
      omega (arith, le, a, c, k, counted),
      omega (arith, le, a, c, k, counted, accepted),
    )
