-- ===== src/Client/Commands/Waits.antt =====
-- What `put` of src/client/client.cpp reports of the commit.
use crown_kv.Common.{
  ℕ, ◌≡◌, refl, ap, ◌∙◌, arith, Bool, true, false, not, ◌||◌, if◌then◌else◌, Option, none, some,
  List, [], ◌∷◌, Text, text_eq, ◌==◌, eq_refl, find,
}
use crown_kv.Messages.{PutResponse, CommitAck}
use crown_kv.Client.Commits.{
  PendingKey, pending_key_eq, ClientState, commit_ack, record_accepted_write, is_committed,
}
use crown_kv.Client.Commits.Orders.{pending-take_ack, early-take_ack, pending-record_accepted_write}
use crown_kv.Client.Commands.{Session, PutWorld, accepted, receive, wait_for_commit, put_accepted}

abbrev key_of : CommitAck → PendingKey
key_of ack = record { key = ack.key; version = ack.version }

-- An ack for the write is among them.
abbrev pub has_ack : PendingKey → List (ℕ × CommitAck) → Bool
has_ack k [] = false
has_ack k ((now, ack) ∷ acks) = (key_of ack == k) || has_ack k acks

abbrev is_held : Option ℕ → Bool
is_held none = false
is_held (some _) = true

pending-commit_ack :
    (k : PendingKey) (now : ℕ) (ack : CommitAck) (s : ClientState)
    → find k (commit_ack now ack s).pending ≡ (if key_of ack == k then none else find k s.pending)
unfolding commit_ack
pending-commit_ack k now ack s = pending-take_ack (key_of ack) k now s

pending-receive :
    (k : PendingKey) (acks : List (ℕ × CommitAck)) (s : ClientState)
    → find k (receive acks s).pending ≡ (if has_ack k acks then none else find k s.pending)
unfolding receive
pending-receive k [] s = refl
pending-receive k ((now, ack) ∷ acks) s =
    pending-receive k acks (commit_ack now ack s)
    ∙ rw (pending-commit_ack k now ack s) (by_tests (key_of ack == k) (has_ack k acks))
  where
    by_tests :
        (a b : Bool)
        → (if b then none else (if a then none else find k s.pending))
          ≡ (if a || b then none else find k s.pending)
    by_tests true true = refl
    by_tests true false = refl
    by_tests false b = refl

-- Acks for a write that is not pending are kept.
early-commit_ack :
    (k : PendingKey) (now : ℕ) (ack : CommitAck) (s : ClientState)
    → find k s.pending ≡ none
    → is_held (find k (commit_ack now ack s).committed_early)
      ≡ ((key_of ack == k) || is_held (find k s.committed_early))
unfolding commit_ack
early-commit_ack k now ack s h =
    rw (early-take_ack (key_of ack) k now s, h) (by_test (key_of ack == k))
  where
    by_test :
        (b : Bool)
        → is_held (if b then some now else find k s.committed_early)
          ≡ (b || is_held (find k s.committed_early))
    by_test true = refl
    by_test false = refl

early-receive :
    (k : PendingKey) (acks : List (ℕ × CommitAck)) (s : ClientState)
    → find k s.pending ≡ none
    → is_held (find k (receive acks s).committed_early)
      ≡ (has_ack k acks || is_held (find k s.committed_early))
unfolding receive
early-receive k [] s h = refl
early-receive k ((now, ack) ∷ acks) s h =
    let still : find k (commit_ack now ack s).pending ≡ none =
      pending-commit_ack k now ack s ∙ ground (arith, h) in
    early-receive k acks (commit_ack now ack s) still
    ∙ rw (early-commit_ack k now ack s h)
        (by_tests (key_of ack == k) (has_ack k acks) (is_held (find k s.committed_early)))
  where
    by_tests : (a b c : Bool) → (b || (a || c)) ≡ ((a || b) || c)
    by_tests true true c = refl
    by_tests true false c = refl
    by_tests false b c = refl

is_committed-held :
    (k : PendingKey) (s : ClientState) (o : Option ℕ)
    → find k s.pending ≡ o
    → is_committed k s ≡ not (is_held o)
unfolding is_committed
is_committed-held k s none e = rw (e, is_committed) refl
is_committed-held k s (some x) e = rw (e, is_committed) refl

-- Where the write is once it is recorded, if acks for it are kept or not.
recorded_pending :
    (k : PendingKey) (sent : ℕ) (s : ClientState) (kept : Option ℕ)
    → find k s.pending ≡ none
    → find k s.committed_early ≡ kept
    → find k (record_accepted_write k sent s).pending ≡ (if is_held kept then none else some sent)
recorded_pending k sent s none h e =
    pending-record_accepted_write k k sent s ∙ rw (eq_refl k, e) refl
recorded_pending k sent s (some y) h e =
    pending-record_accepted_write k k sent s ∙ rw (eq_refl k, e, h) refl

module _ (k : PendingKey) (sent : ℕ) (early late : List (ℕ × CommitAck)) (s : ClientState) where
  -- A write of which nothing was held is committed after these acks if one of them is for it.
  committed-has_ack :
      find k s.pending ≡ none
      → find k s.committed_early ≡ none
      → is_committed k (receive late (record_accepted_write k sent (receive early s)))
        ≡ (has_ack k early || has_ack k late)
  committed-has_ack h g =
      let e = receive early s in
      let absent : find k e.pending ≡ none = pending-receive k early s ∙ ground (arith, h) in
      let kept : is_held (find k e.committed_early) ≡ has_ack k early =
        early-receive k early s h ∙ rw g (ground arith) in
      let recorded = recorded_pending k sent e (find k e.committed_early) absent refl in
      let waited : find k (receive late (record_accepted_write k sent e)).pending
          ≡ (if has_ack k late then none else (if has_ack k early then none else some sent)) =
        pending-receive k late (record_accepted_write k sent e) ∙ rw (recorded, kept) refl in
      is_committed-held k (receive late (record_accepted_write k sent e)) _ waited
      ∙ by_tests (has_ack k early) (has_ack k late)
    where
      by_tests :
          (a b : Bool)
          → not (is_held (if b then none else (if a then none else some sent))) ≡ (a || b)
      by_tests true true = refl
      by_tests true false = refl
      by_tests false true = refl
      by_tests false false = refl

-- Once a write is accepted, `put` reports it as committed exactly if an ack for its key and version
-- came in, before the write was recorded or while it was waited for. The client held nothing of the
-- write before.
pub put_accepted-has_ack :
    (w : PutWorld) (key : Text) (response : PutResponse) (s : Session)
    → let k : PendingKey = record { key = key; version = response.version } in
      response.success ≡ true
      → find k s.state.pending ≡ none
      → find k s.state.committed_early ≡ none
      → (put_accepted w true key response (record s { state = receive w.early s.state })).1
        ≡ accepted response.version (some (has_ack k w.early || has_ack k w.late))
unfolding put_accepted wait_for_commit
put_accepted-has_ack w key response s t h g =
    let k : PendingKey = record { key = key; version = response.version } in
    rw t (
      ap (λ b. accepted response.version (some b))
        (committed-has_ack k w.sent w.early w.late s.state h g))
