-- ===== src/Client/Commits/Orders.antt =====
-- An acknowledgement that comes before the write is recorded, src/client/client.cpp.
use crown_kv.Common.{
  ℕ, ◌+◌, ◌%◌, ◌^◌, [], ◌∷◌, ◌++◌, ◌≡◌, refl, sym, ap, ◌∙◌, arith, true, if◌then◌else◌, none, some,
  text_eq, find, assign, erase, find-assign, find-erase, ◌==◌, eq_refl, erase-assign,
}
use crown_kv.Messages.{CommitAck}
use crown_kv.Client.Commits.{
  PendingKey, pending_key_eq, pending_key_beq_iff, ClientState, take_ack, commit_ack,
  record_accepted_write,
}

abbrev pub ack_of : PendingKey → CommitAck
ack_of key = record { key = key.key; version = key.version }

pub commit_ack-ack_of :
    (key : PendingKey) (now : ℕ) (s : ClientState)
    → commit_ack now (ack_of key) s ≡ take_ack now key s
unfolding commit_ack
commit_ack-ack_of key now s = refl

-- Where a write is held after each of the two calls.
module _ (key j : PendingKey) (time : ℕ) (s : ClientState) where
  pub pending-record_accepted_write : find j (record_accepted_write key time s).pending ≡ (
      if key == j
      then (elim (find j s.committed_early) [ some _ ↦ find j s.pending | none ↦ some time ])
      else find j s.pending)
  unfolding record_accepted_write
  pending-record_accepted_write =
      ground (arith, find-assign key j time s.pending, pending_key_beq_iff key j)

  pub early-record_accepted_write :
      find j (record_accepted_write key time s).committed_early
      ≡ (if key == j then none else find j s.committed_early)
  unfolding record_accepted_write
  early-record_accepted_write =
      ground (arith, find-erase key j s.committed_early, pending_key_beq_iff key j)

  pub pending-take_ack :
      find j (take_ack time key s).pending ≡ (if key == j then none else find j s.pending)
  unfolding take_ack
  pending-take_ack = ground (arith, find-erase key j s.pending, pending_key_beq_iff key j)

  pub early-take_ack : find j (take_ack time key s).committed_early ≡ (
      if key == j
      then (elim (find j s.pending) [ some _ ↦ find j s.committed_early | none ↦ some time ])
      else find j s.committed_early)
  unfolding take_ack
  early-take_ack =
      ground (arith, find-assign key j time s.committed_early, pending_key_beq_iff key j)

-- The state that the two calls lead to, from one that holds nothing of the write.
abbrev settled : ℕ → ℕ → ClientState → ClientState
settled sent now s = record s {
  started = true;
  start_time = if s.started then s.start_time else sent;
  expected = (s.expected + 1) % 2 ^ 64;
  latencies = s.latencies ++ (sent, now) ∷ [];
  completed = (s.completed + 1) % 2 ^ 64;
}

module _ (key : PendingKey) (time : ℕ) (s : ClientState) where
  pub take_ack-none :
      find key s.pending ≡ none
      → take_ack time key s ≡ record s { committed_early = assign key time s.committed_early }
  unfolding take_ack
  take_ack-none h = rw (h, take_ack) refl

  pub take_ack-some :
      (sent : ℕ)
      → find key s.pending ≡ some sent
      → take_ack time key s ≡ record s {
        latencies = s.latencies ++ (sent, time) ∷ [];
        completed = (s.completed + 1) % 2 ^ 64;
        pending = erase key s.pending;
      }
  unfolding take_ack
  take_ack-some sent h = rw (h, take_ack) refl

  abbrev counted : ClientState
  counted = record s {
    started = true;
    start_time = if s.started then s.start_time else time;
    expected = (s.expected + 1) % 2 ^ 64;
  }

  pub record_accepted_write-none :
      find key s.committed_early ≡ none
      → record_accepted_write key time s ≡ record counted { pending = assign key time s.pending }
  unfolding record_accepted_write
  record_accepted_write-none h = rw (h, record_accepted_write) refl

  pub record_accepted_write-some :
      (acked : ℕ)
      → find key s.committed_early ≡ some acked
      → record_accepted_write key time s ≡ record counted {
        latencies = s.latencies ++ (time, acked) ∷ [];
        committed_early = erase key s.committed_early;
        completed = (s.completed + 1) % 2 ^ 64;
      }
  unfolding record_accepted_write
  record_accepted_write-some acked h = rw (h, record_accepted_write) refl

module _ (key : PendingKey) (sent now : ℕ) (s : ClientState) where
  early-settled :
      find key s.pending ≡ none
      → find key s.committed_early ≡ none
      → record_accepted_write key sent (take_ack now key s) ≡ settled sent now s
  early-settled h k =
      let held : find key (assign key now s.committed_early) ≡ some now =
        find-assign key key now s.committed_early ∙ rw (eq_refl key) refl in
      ap (record_accepted_write key sent) (take_ack-none key now s h)
      ∙ record_accepted_write-some key sent _ now held
      ∙ rw (erase-assign key now s.committed_early k) refl

  late-settled :
      find key s.pending ≡ none
      → find key s.committed_early ≡ none
      → take_ack now key (record_accepted_write key sent s) ≡ settled sent now s
  late-settled h k =
      let held : find key (assign key sent s.pending) ≡ some sent =
        find-assign key key sent s.pending ∙ rw (eq_refl key) refl in
      ap (take_ack now key) (record_accepted_write-none key sent s k)
      ∙ take_ack-some key now _ sent held
      ∙ rw (erase-assign key sent s.pending h) refl

-- An ack that comes before its write is recorded leads to the same state as one that comes after
-- it, if the client holds nothing of the write before.
pub record_accepted_write-commit_ack :
    (key : PendingKey) (sent now : ℕ) (s : ClientState)
    → find key s.pending ≡ none
    → find key s.committed_early ≡ none
    → record_accepted_write key sent (commit_ack now (ack_of key) s)
      ≡ commit_ack now (ack_of key) (record_accepted_write key sent s)
unfolding commit_ack
record_accepted_write-commit_ack key sent now s h k =
    early-settled key sent now s h k ∙ sym (late-settled key sent now s h k)
