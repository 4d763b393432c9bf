-- ===== src/Tests/Benches.antt =====
-- The bench of the client, src/client/client.cpp, and the caches of
-- src/replication/common/replication_common.cpp.
use crown_kv.Common.{
  ℕ, zero, suc, ◌+◌, ◌-◌, ◌≡◌, refl, arith, none, some, List, [], ◌∷◌, text_eq, text_beq, bytes,
  length,
}
use crown_kv.Address.{is_space, stoull}
use crown_kv.Client.{MembershipState, stub_at, select_write_node_index}
use crown_kv.Client.Words.{split_words}
use crown_kv.Client.Commits.{ClientState}
use crown_kv.Client.Commits.Pairs.{new_client}
use crown_kv.Client.Bench.{AsyncPutCall, start_calls}
use crown_kv.Client.Waiting.{Tick, IsPaced, bench_wait, bench_wait-Ends}
use crown_kv.Client.Repl.{
  Repl, World, committed_writes, throws, run_workload, run_line, bench_arguments,
}
use crown_kv.Client.Repl.Counts.{run_workload-counts, acks_in, accepted_in}
use crown_kv.Apportioned.{put_success}
use crown_kv.Tests.Data.{key, members, request}

-- Ticks of five seconds without an ack.
abbrev idle : ℕ → ℕ → List Tick
idle now zero = []
idle now (suc n) = record { acks = []; now = now + 5000 } ∷ idle (now + 5000) n

idle-IsPaced : (n now : ℕ) → IsPaced now (idle now n)
idle-IsPaced zero now = tt
idle-IsPaced (suc n) now = (omega arith, idle-IsPaced n (now + 5000))

idle-length : (n now : ℕ) → length (idle now n) ≡ n
idle-length zero now = refl
idle-length (suc n) now = omega (arith, idle-length n (now + 5000))

idle-acks_in : (n now : ℕ) → acks_in (idle now n) ≡ 0
idle-acks_in zero now = refl
idle-acks_in (suc n) now = omega (arith, idle-acks_in n (now + 5000))

-- One write of which no ack comes.
bench_wait-Ends_example :
    (s' : ClientState) × (bench_wait 1 (idle 0 24) 0 0 new_client ≡ some (s', 1 - s'.completed))
bench_wait-Ends_example =
    bench_wait-Ends 1 (idle 0 24) 0 new_client (idle-IsPaced 24 0) (omega (arith, idle-length 24 0))

abbrev client : MembershipState
client = record { epoch = 3; mode = bytes "CRAQ"; members = members; stubs = bytes "a:5001" ∷ [] }

abbrev repl : Repl
repl = record {
  session = record { membership = client; state = new_client; request_id = 1 };
  cached_path = [];
  cached_dataset = [];
}

abbrev call : AsyncPutCall
call = record { index = 0; key = key; sent = 1; stub = bytes "a:5001"; request = request 0 }

-- The node accepts the write, and no ack comes.
abbrev world : World
world = record {
  refresh = none;
  switch = none;
  fetches = λ left. none;
  gets = λ left stub request. none;
  put = record {
    puts = λ left stub request. none;
    fetches = λ left. none;
    sent = 0;
    early = [];
    late = [];
  };
  files = λ path. none;
  clock = λ i. 1;
  completions = (call, some (put_success 1)) ∷ [];
  wait_start = 2;
  ticks = idle 2 24;
}

run_workload-counts_example :
    (r' : Repl) × (committed failed orphaned : ℕ) × (run_workload
        (bytes "d:9")
        world
        ((key, bytes "v") ∷ [])
        repl
      ≡ some (r', committed_writes committed failed orphaned))
    × (committed + orphaned ≡ accepted_in world.completions)
    × (committed + failed + orphaned ≡ 1)
    × (orphaned ≡ 0 + accepted_in world.completions - r'.session.state.completed)
unfolding start_calls stub_at select_write_node_index text_beq
run_workload-counts_example =
    run_workload-counts (bytes "d:9") world ((key, bytes "v") ∷ []) repl refl (omega arith)
      (omega (arith, idle-acks_in 24 2)) (idle-IsPaced 24 2) (omega (arith, idle-length 24 2))

-- A count that is no number ends the program.
no_number : run_line (bytes "d:9") world (bytes "bench many") repl ≡ throws
unfolding run_line text_beq split_words is_space bench_arguments stoull
no_number = refl
