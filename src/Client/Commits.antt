-- ===== src/Client/Commits.antt =====
-- The writes that the client waits for, src/client/client.cpp: `CommitAck`, `RecordAcceptedWrite` and
-- `WaitForCommit`. Times are those of the steady clock; a latency is kept as the two times that it
-- lies between, and the sum of them as their list. The counters are uint64_t.
pub mod Orders
pub mod Pairs
pub mod Balance
use crown_kv.Common.{
  ℕ, ◌+◌, ◌%◌, ◌^◌, ◌≡◌, ◌↔◌, arith, Bool, true, false, ◌&&◌, if◌then◌else◌, ltb, leb, nat_beq,
  nat_beq_iff, Option, none, some, List, [], ◌∷◌, ◌++◌, Text, text_eq, text_beq_iff, Eq, ◌==◌, Map,
  find, assign, erase,
}
use crown_kv.Messages.{CommitAck}

pub record PendingKey : Type 0 where
  pub key : Text
  pub version : ℕ

-- `operator==`
abbrev pub pending_key_beq : PendingKey → PendingKey → Bool
pending_key_beq a b = nat_beq a.version b.version && a.key == b.key

pub pending_key_beq_iff : (a b : PendingKey) → (pending_key_beq a b ≡ true) ↔ (a ≡ b)
pending_key_beq_iff a b = ground (arith, nat_beq_iff a.version b.version, text_beq_iff a.key b.key)

instance abbrev pub pending_key_eq : Eq PendingKey
pending_key_eq = record { beq = pending_key_beq; beq_iff = pending_key_beq_iff }

pub record ClientState : Type 0 where
  pub pending : Map PendingKey ℕ
  pub committed_early : Map PendingKey ℕ
  pub completed : ℕ
  pub expected : ℕ
  pub latencies : List (ℕ × ℕ)
  pub started : Bool
  pub start_time : ℕ

unfoldable pub take_ack : ℕ → PendingKey → ClientState → ClientState
take_ack now key s = elim (find key s.pending) [
  | some sent ↦ record s {
    latencies = s.latencies ++ (sent, now) ∷ [];
    completed = (s.completed + 1) % 2 ^ 64;
    pending = erase key s.pending;
  }
  | none ↦ record s { committed_early = assign key now s.committed_early }
]

-- It answers success.
unfoldable pub commit_ack : ℕ → CommitAck → ClientState → ClientState
unfolding take_ack
commit_ack now request s = take_ack now (record { key = request.key; version = request.version }) s

unfoldable pub record_accepted_write : PendingKey → ℕ → ClientState → ClientState
record_accepted_write key sent s =
    let s' : ClientState = record s {
      started = true;
      start_time = if s.started then s.start_time else sent;
      expected = (s.expected + 1) % 2 ^ 64;
    } in
    elim (find key s.committed_early) [
      | some acked ↦ record s' {
        latencies = s.latencies ++ (sent, acked) ∷ [];
        committed_early = erase key s.committed_early;
        completed = (s.completed + 1) % 2 ^ 64;
      }
      | none ↦ record s' { pending = assign key sent s.pending }
    ]

-- What the two waits wait for: `WaitForCommit` for one write, the end of a run for all.
unfoldable pub is_committed : PendingKey → ClientState → Bool
is_committed key s = elim (find key s.pending) [ none ↦ true | some _ ↦ false ]

unfoldable pub all_committed : ClientState → Bool
all_committed s = leb s.expected s.completed
