-- ===== src/Client/Waiting.antt =====
-- The wait of `bench` for its commit acks, src/client/client.cpp: it gives up when none has come in
-- for a minute. Times are milliseconds of the steady clock.
use crown_kv.Common.{
  ℕ, ◌+◌, ◌-◌, ◌*◌, ◌≤◌, ◌<◌, ◌≡◌, refl, inl, inr, arith, if◌then◌else◌, ltb, leb, Bool-cases,
  Option, none, some, List, [], ◌∷◌, length,
}
use crown_kv.Messages.{CommitAck}
use crown_kv.Client.Commits.{ClientState}
use crown_kv.Client.Commands.{receive}

abbrev pub stall_timeout : ℕ
stall_timeout = 60000

abbrev pub progress_tick : ℕ
progress_tick = 5000

-- One `wait_for`: the acks that come in until it returns, and the time then.
pub record Tick : Type 0 where
  pub acks : List (ℕ × CommitAck)
  pub now : ℕ

-- The loop, with the ticks to come: the state at its end, and how many writes are given up. none is
-- a loop that still waits after the last tick.
unfoldable pub bench_wait : ℕ → List Tick → ℕ → ℕ → ClientState → Option (ClientState × ℕ)
unfolding receive
bench_wait target [] last_progress last_seen s = none
bench_wait target (tick ∷ ticks) last_progress last_seen s =
    let s' = receive tick.acks s in
    let moved = ltb last_seen s'.completed in
    let last_seen' = if moved then s'.completed else last_seen in
    let last_progress' = if moved then tick.now else last_progress in
    let rest = bench_wait target ticks last_progress' last_seen' s' in
    if leb target s'.completed
    then some (s', 0)
    else if leb stall_timeout (tick.now - last_progress')
    then some (s', target - s'.completed)
    else rest

-- A tick that does not end the wait is over no sooner than `progress_tick` after the one before.
abbrev pub IsPaced : ℕ → List Tick → Type 0
IsPaced before [] = Unit
IsPaced before (tick ∷ ticks) = (before + progress_tick ≤ tick.now) × IsPaced tick.now ticks

abbrev Ends : ℕ → Option (ClientState × ℕ) → Type 0
Ends target r = (s : ClientState) × (r ≡ some (s, target - s.completed))

bench_wait_stalled :
    (target : ℕ) (ticks : List Tick) (before last_progress last_seen stalls : ℕ) (s : ClientState)
    → IsPaced before ticks
    → last_progress + progress_tick * stalls ≤ before
    → stalls < 12
    → 12 * (target - last_seen) + 12 ≤ length ticks + stalls
    → Ends target (bench_wait target ticks last_progress last_seen s)
unfolding bench_wait
bench_wait_stalled target [] before last_progress last_seen stalls s p h k l =
    absurd (omega (arith, k, l))
bench_wait_stalled target (tick ∷ ticks) before last_progress last_seen stalls s p h k l =
    let s' = receive tick.acks s in
    elim (Bool-cases (leb target s'.completed)) [
      | inl met ↦
          let none_left : 0 ≡ target - s'.completed = ground (arith, met) in
          (s', rw met (cc none_left))
      | inr unmet ↦ elim (Bool-cases (ltb last_seen s'.completed)) [
        | inl moved ↦
            let now : tick.now - tick.now ≡ 0 = omega arith in
            rw (unmet, moved)
              (rw now (
                bench_wait_stalled target ticks tick.now tick.now s'.completed 0 s' p.1
                  (omega arith) (omega arith) (ground (arith, unmet, moved, k, l))))
        | inr still ↦
            rw (unmet, still)
              (elim (Bool-cases (leb stall_timeout (tick.now - last_progress))) [
                | inl over ↦ rw over (s', refl)
                | inr going ↦
                    let short : tick.now - last_progress < 60000 = ground (arith, going) in
                    rw going (
                      bench_wait_stalled target ticks tick.now last_progress last_seen (stalls + 1)
                        s' p.1 (omega (arith, h, p.0)) (omega (arith, h, p.0, short))
                        (omega (arith, l)))
              ])
      ]
    ]

-- The wait of `bench` for its acks ends, whatever acks come in, within twelve ticks for each commit
-- that is missing at its start and twelve more, and gives up as many writes as commits are missing
-- then. (A tick that does not end it is at least five seconds after the one before.)
pub bench_wait-Ends :
    (target : ℕ) (ticks : List Tick) (start : ℕ) (s : ClientState)
    → IsPaced start ticks
    → 12 * (target - s.completed) + 12 ≤ length ticks
    → (s' : ClientState) × (bench_wait target ticks start s.completed s
        ≡ some (s', target - s'.completed))
bench_wait-Ends target ticks start s p l =
    bench_wait_stalled target ticks start start s.completed 0 s p (omega arith) (omega arith)
      (omega (arith, l))
