-- ===== src/Client/Commits/Balance.antt =====
-- The counts of the client, src/client/client.cpp, when every accepted write is acknowledged once.
use crown_kv.Common.{
  ℕ, suc, ◌+◌, ◌^◌, ◌≤◌, ◌<◌, ◌≡◌, refl, ap, inl, inr, arith, true, Option, none, some, List, [],
  ◌∷◌, text_eq, Option-cases, eq_refl, find, length, IsDistinct, assign-IsDistinct,
  erase-IsDistinct, length-assign, length-erase, find-empty,
}
use crown_kv.Client.Commits.{
  PendingKey, pending_key_eq, ClientState, take_ack, record_accepted_write, all_committed,
}
use crown_kv.Client.Commits.Pairs.{
  Event, accepts, acks, step, run, new_client, accepted, acked, ArePaired, held, WillPair,
  find-step,
}
use crown_kv.Client.Commits.Orders.{
  take_ack-none, take_ack-some, record_accepted_write-none, record_accepted_write-some,
  commit_ack-ack_of,
}

-- Every write that is not completed is pending, once.
abbrev pub IsBalanced : ClientState → Type 0
IsBalanced s = IsDistinct s.pending × (s.completed + length s.pending ≡ s.expected)

record_accepted_write-IsBalanced :
    (key : PendingKey) (sent : ℕ) (s : ClientState)
    → s.expected + 1 < 2 ^ 64
    → find key s.pending ≡ none
    → IsBalanced s
    → let s' = record_accepted_write key sent s in IsBalanced s' × (s'.expected ≡ s.expected + 1)
record_accepted_write-IsBalanced key sent s room absent (d, b) =
    elim (Option-cases (find key s.committed_early)) [
      | inl e ↦ rw (record_accepted_write-none key sent s e) (
        (
          assign-IsDistinct key sent s.pending d,
          omega (arith, b, room, length-assign key sent s.pending absent),
        ),
        omega (arith, room),
      )
      | inr (acked, e) ↦
          rw (record_accepted_write-some key sent s acked e)
            ((d, omega (arith, b, room)), omega (arith, room))
    ]

take_ack-IsBalanced :
    (key : PendingKey) (now : ℕ) (s : ClientState)
    → s.expected < 2 ^ 64
    → IsBalanced s
    → let s' = take_ack now key s in IsBalanced s' × (s'.expected ≡ s.expected)
take_ack-IsBalanced key now s room (d, b) = elim (Option-cases (find key s.pending)) [
  | inl e ↦ rw (take_ack-none key now s e) ((d, b), refl)
  | inr (sent, e) ↦ rw (take_ack-some key now s sent e) (
    (erase-IsDistinct key s.pending d, omega (arith, b, room, length-erase key sent s.pending d e)),
    refl,
  )
]

accepted_self :
    (key : PendingKey) (sent : ℕ) (events : List Event)
    → accepted key (accepts key sent ∷ events) ≡ suc (accepted key events)
accepted_self key sent events = rw (eq_refl key) refl

held-none : (o : Option ℕ) (a : ℕ) → held o + suc a ≤ 1 → o ≡ none
held-none none a h = refl
held-none (some x) a h = absurd (omega (arith, h))

step-IsBalanced :
    (e : Event) (s : ClientState) (events : List Event)
    → s.expected + 1 < 2 ^ 64
    → ((key : PendingKey)
        → WillPair
            (find key s.pending)
            (find key s.committed_early)
            (accepted key (e ∷ events))
            (acked key (e ∷ events)))
    → IsBalanced s
    → let s' = step e s in IsBalanced s' × (s'.expected ≤ s.expected + 1)
unfolding step
step-IsBalanced (accepts key sent) s events room h b =
    let absent : find key s.pending ≡ none =
      held-none (find key s.pending) (accepted key events)
        (omega (arith, (h key).1, accepted_self key sent events)) in
    let (b', e) = record_accepted_write-IsBalanced key sent s room absent b in
    (b', omega (arith, e))
step-IsBalanced (acks key now) s events room h b =
    rw (commit_ack-ack_of key now s) (
      let (b', e) = take_ack-IsBalanced key now s (omega (arith, room)) b in (b', omega (arith, e)))

WillPair-end :
    (pending early : Option ℕ) → WillPair pending early 0 0 → (pending ≡ none) × (early ≡ none)
WillPair-end none none h = (refl, refl)
WillPair-end none (some y) h = absurd (omega (arith, h.0))
WillPair-end (some x) none h = absurd (omega (arith, h.0))
WillPair-end (some x) (some y) h = absurd (omega (arith, h.2))

-- Nothing is held, and every write is counted as completed.
abbrev pub IsDone : ClientState → Type 0
IsDone s =
    (s.pending ≡ [])
    × (s.committed_early ≡ [])
    × (s.completed ≡ s.expected)
    × (all_committed s ≡ true)

run_from :
    (events : List Event) (s : ClientState)
    → s.expected + length events < 2 ^ 64
    → ((key : PendingKey)
        → WillPair
            (find key s.pending)
            (find key s.committed_early)
            (accepted key events)
            (acked key events))
    → IsBalanced s
    → IsDone (run events s)
unfolding run all_committed
run_from [] s room h (d, b) =
    let left = find-empty s.pending (λ key. (WillPair-end _ _ (h key)).0) in
    let early = find-empty s.committed_early (λ key. (WillPair-end _ _ (h key)).1) in
    let done : s.completed ≡ s.expected = omega (arith, b, ap length left) in
    (left, early, done, ground (arith, done))
run_from (e ∷ events) s room h b =
    let (b', more) = step-IsBalanced e s events (omega arith) h b in
    run_from events (step e s) (omega (arith, more)) (λ key. find-step e key s events (h key)) b'

-- In whatever order the client records its accepted writes and gets their acks, if each write is
-- accepted at most once and acknowledged as often as it is accepted, nothing is pending or held
-- early at the end, `completed` is `expected`, and the wait for the end of a run ends. (There are
-- fewer than 2 ^ 64 events.)
pub run-IsDone :
    (events : List Event)
    → ArePaired events
    → length events < 2 ^ 64
    → IsDone (run events new_client)
unfolding find
run-IsDone events h room =
    run_from events new_client (omega arith)
      (λ key. (omega (arith, (h key).0), omega (arith, (h key).1), inl refl)) (tt, refl)
