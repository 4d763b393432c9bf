-- ===== src/Tests/Queue.antt =====
-- Runs of the forward queue and of the retries.
use crown_kv.Common.{arith, List, ◌≤◌, ◌*◌, refl, [], ◌∷◌, bytes, length}
use crown_kv.Replication.{Replication, max_retry_count, ForwardTask}
use crown_kv.Replication.Queue.Workers.{
  WorkerEvent, enqueues, takes, sends, run, HasWorked, run-HasWorked,
}
use crown_kv.Replication.Retries.{retry_rounds, retry_rounds-le}
use crown_kv.Tests.Data.{middle_node, request}

abbrev r : Replication
r = middle_node.repl

abbrev task : ForwardTask
task = record { request = request 2; stub = bytes "c:5003" }

abbrev task' : ForwardTask
task' = record { request = request 3; stub = bytes "c:5003" }

-- Two workers have a task each, and the second one sends first.
abbrev events : List WorkerEvent
events = enqueues task ∷ takes ∷ enqueues task' ∷ takes ∷ sends 1 ∷ enqueues task ∷ sends 0 ∷ []

run-HasWorked_example : HasWorked r (task ∷ task' ∷ task ∷ []) (run events r)
run-HasWorked_example = run-HasWorked events r refl (omega arith)

retry_rounds-le_example :
    (retry_rounds (20000 ∷ 20250 ∷ 40000 ∷ []) r).1 ≤ max_retry_count * length r.pending_acks
retry_rounds-le_example = retry_rounds-le (20000 ∷ 20250 ∷ 40000 ∷ []) r (refl, tt)
