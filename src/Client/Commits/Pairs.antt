-- ===== src/Client/Commits/Pairs.antt =====
-- Sequences of accepted writes and acknowledgements at the client, src/client/client.cpp, and what
-- they do at one write.
use crown_kv.Common.{
  ℕ, suc, ◌+◌, ◌≤◌, ◌≡◌, refl, ◌⊎◌, inl, inr, arith, Bool, true, false, if◌then◌else◌, Option, none,
  some, List, [], ◌∷◌, text_eq, ◌==◌, find,
}
use crown_kv.Client.Commits.{
  PendingKey, pending_key_eq, ClientState, commit_ack, record_accepted_write,
}
use crown_kv.Client.Commits.Orders.{
  ack_of, pending-record_accepted_write, early-record_accepted_write, pending-take_ack,
  early-take_ack, commit_ack-ack_of,
}

pub data Event : Type 0 where
  accepts : PendingKey → ℕ → Event
  acks : PendingKey → ℕ → Event

unfoldable pub step : Event → ClientState → ClientState
step (accepts key sent) s = record_accepted_write key sent s
step (acks key now) s = commit_ack now (ack_of key) s

unfoldable pub run : List Event → ClientState → ClientState
run [] s = s
run (e ∷ events) s = run events (step e s)

abbrev pub new_client : ClientState
new_client = record {
  pending = [];
  committed_early = [];
  completed = 0;
  expected = 0;
  latencies = [];
  started = false;
  start_time = 0;
}

-- How often a write is accepted and acknowledged.
abbrev pub accepted : PendingKey → List Event → ℕ
accepted key [] = 0
accepted key (accepts k sent ∷ events) =
    let rest = accepted key events in if k == key then suc rest else rest
accepted key (acks k now ∷ events) = accepted key events

abbrev pub acked : PendingKey → List Event → ℕ
acked key [] = 0
acked key (accepts k sent ∷ events) = acked key events
acked key (acks k now ∷ events) = let rest = acked key events in if k == key then suc rest else rest

-- Each write is accepted as often as it is acknowledged, and at most once.
abbrev pub ArePaired : List Event → Type 0
ArePaired events =
    (key : PendingKey) → (accepted key events ≡ acked key events) × (accepted key events ≤ 1)

abbrev pub held : Option ℕ → ℕ
held none = 0
held (some _) = 1

-- What is still to come for a write pairs with what the client holds of it.
abbrev pub WillPair : Option ℕ → Option ℕ → ℕ → ℕ → Type 0
WillPair pending early a c =
    (held pending + a ≡ held early + c)
    × (held pending + a ≤ 1)
    × ((held pending ≡ 0) ⊎ (held early ≡ 0))

WillPair-accept :
    (pending early : Option ℕ) (sent a c : ℕ)
    → WillPair pending early (suc a) c
    → WillPair (elim early [ some _ ↦ pending | none ↦ some sent ]) none a c
WillPair-accept (some x) early sent a c h = absurd (omega (arith, h.1))
WillPair-accept none none sent a c h = (omega (arith, h.0), omega (arith, h.1), inr refl)
WillPair-accept none (some y) sent a c h = (omega (arith, h.0), omega (arith, h.1), inl refl)

WillPair-ack :
    (pending early : Option ℕ) (now a c : ℕ)
    → WillPair pending early a (suc c)
    → WillPair none (elim pending [ some _ ↦ early | none ↦ some now ]) a c
WillPair-ack pending (some y) now a c h = absurd (omega (arith, h.0, h.1))
WillPair-ack none none now a c h = (omega (arith, h.0), omega (arith, h.1), inl refl)
WillPair-ack (some x) none now a c h = (omega (arith, h.0), omega (arith, h.1), inl refl)

-- At one write.
pub find-step :
    (e : Event) (key : PendingKey) (s : ClientState) (events : List Event)
    → WillPair
        (find key s.pending)
        (find key s.committed_early)
        (accepted key (e ∷ events))
        (acked key (e ∷ events))
    → WillPair
        (find key (step e s).pending)
        (find key (step e s).committed_early)
        (accepted key events)
        (acked key events)
unfolding step
find-step (accepts k sent) key s events =
    rw (pending-record_accepted_write k key sent s, early-record_accepted_write k key sent s)
      (by_test (k == key))
  where
    by_test :
        (b : Bool)
        → WillPair
            (find key s.pending)
            (find key s.committed_early)
            (if b then suc (accepted key events) else accepted key events)
            (acked key events)
        → WillPair
            (if b
              then (elim (find key s.committed_early) [
                | some _ ↦ find key s.pending
                | none ↦ some sent
              ])
              else find key s.pending)
            (if b then none else find key s.committed_early)
            (accepted key events)
            (acked key events)
    by_test true h = WillPair-accept (find key s.pending) (find key s.committed_early) sent _ _ h
    by_test false h = h
find-step (acks k now) key s events =
    rw (commit_ack-ack_of k now s, pending-take_ack k key now s, early-take_ack k key now s)
      (by_test (k == key))
  where
    by_test :
        (b : Bool)
        → WillPair
            (find key s.pending)
            (find key s.committed_early)
            (accepted key events)
            (if b then suc (acked key events) else acked key events)
        → WillPair
            (if b then none else find key s.pending)
            (if b
              then (elim (find key s.pending) [
                | some _ ↦ find key s.committed_early
                | none ↦ some now
              ])
              else find key s.committed_early)
            (accepted key events)
            (acked key events)
    by_test true h = WillPair-ack (find key s.pending) (find key s.committed_early) now _ _ h
    by_test false h = h
