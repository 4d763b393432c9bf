-- ===== src/Client/Attempts.antt =====
-- The requests of a write and how it ends, whatever is answered: `SendPutWithRetry` of
-- src/client/client.cpp.
use crown_kv.Common.{
  ℕ, zero, suc, ◌+◌, ◌%◌, ◌^◌, ◌≤◌, ◌<◌, ◌≡◌, refl, ◌⊎◌, inl, inr, arith, Bool, true, false,
  Bool-cases, Option-cases, if◌then◌else◌, Option, none, some, List, [], ◌∷◌, Text, length,
}
use crown_kv.Messages.{PutRequest, PutResponse}
use crown_kv.Replication.{Stub}
use crown_kv.Client.{
  MembershipState, fetch_membership, select_write_node_index, stub_at, PutResult, put_ends,
  refreshes_put, put_request, after_put, put_attempts, send_put_with_retry, Puts, Fetches,
}
use crown_kv.Client.Turns.{
  after_put-success, after_put-refresh, after_put-error, put_attempts-stub, put_attempts-none,
}

module _ (puts : Puts) (fetches : Fetches) (key value client_addr : Text) where
  -- Requests for the write, under consecutive ids.
  abbrev pub AreNumbered : ℕ → List (Stub × PutRequest) → Type 0
  AreNumbered request_id [] = Unit
  AreNumbered request_id ((stub, q) ∷ sent) =
      (q.request_id ≡ request_id)
      × (q.key ≡ key)
      × (q.value ≡ value)
      × (q.version ≡ 0)
      × (q.client_addr ≡ client_addr)
      × AreNumbered ((request_id + 1) % 2 ^ 64) sent

  -- The last request is the one that was answered so.
  abbrev pub IsAnswered : PutResponse → List (Stub × PutRequest) → Type 0
  IsAnswered response [] = ⊥
  IsAnswered response ((stub, q) ∷ []) = (left : ℕ) × (puts left stub q ≡ some response)
  IsAnswered response (_ ∷ next ∷ sent) = IsAnswered response (next ∷ sent)

  -- Without success, or with an answer that has success.
  abbrev pub IsEnd : PutResult → Type 0
  IsEnd r =
      (r.success ≡ false)
      ⊎ ((response : PutResponse) × (r.response ≡ some response)
          × (response.success ≡ true)
          × IsAnswered response r.sent)

  abbrev pub IsSeries : ℕ → ℕ → PutResult → Type 0
  IsSeries left request_id r =
      (length r.sent ≤ left)
      × (r.request_id ≡ (request_id + length r.sent) % 2 ^ 64)
      × AreNumbered request_id r.sent
      × IsEnd r

  IsAnswered-cons :
      (response : PutResponse) (call : Stub × PutRequest) (sent : List (Stub × PutRequest))
      → IsAnswered response sent
      → IsAnswered response (call ∷ sent)
  IsAnswered-cons response call [] h = absurd h
  IsAnswered-cons response call (next ∷ sent) h = h

  -- One more request in front.
  IsSeries-cons :
      (left request_id : ℕ) (stub : Stub) (membership : MembershipState) (r : PutResult)
      → IsSeries left ((request_id + 1) % 2 ^ 64) r
      → IsSeries (suc left) request_id (record r {
        sent = (stub, put_request key value client_addr request_id membership) ∷ r.sent;
      })
  unfolding put_request
  IsSeries-cons left request_id stub membership r (n, i, a, e) = (
    omega (arith, n),
    omega (arith, i),
    (refl, refl, refl, refl, refl, a),
    elim e [
      | inl f ↦ inl f
      | inr (response, s, t, answered) ↦
          inr (response, s, t, IsAnswered-cons response _ r.sent answered)
    ],
  )

  -- A request that is the last one.
  one-IsSeries :
      (left request_id : ℕ) (stub : Stub) (membership : MembershipState) (success : Bool)
      (response : Option PutResponse)
      → (success ≡ false)
        ⊎ ((a : PutResponse) × (response ≡ some a)
            × (a.success ≡ true)
            × (puts left stub (put_request key value client_addr request_id membership) ≡ some a))
      → IsSeries
          (suc left)
          request_id
          (record (put_ends success response membership ((request_id + 1) % 2 ^ 64)) {
            sent = (stub, put_request key value client_addr request_id membership) ∷ [];
          })
  unfolding put_request
  one-IsSeries left request_id stub membership success response h = (
    omega arith,
    refl,
    (refl, refl, refl, refl, refl, tt),
    elim h [ inl f ↦ inl f | inr (a, e, t, answered) ↦ inr (a, e, t, (left, answered)) ],
  )

  refreshed-IsSeries :
      (left request_id : ℕ) (stub : Stub) (membership : MembershipState) (fetched : Bool)
      (retried : PutResult)
      → IsSeries left ((request_id + 1) % 2 ^ 64) retried
      → let r =
          if fetched then retried else put_ends false none membership ((request_id + 1) % 2 ^ 64) in
        IsSeries (suc left) request_id (record r {
          sent = (stub, put_request key value client_addr request_id membership) ∷ r.sent;
        })
  refreshed-IsSeries left request_id stub membership true retried t =
      IsSeries-cons left request_id stub membership retried t
  refreshed-IsSeries left request_id stub membership false retried t =
      one-IsSeries left request_id stub membership false none (inl refl)

  -- An attempt that is answered, and the attempts after it.
  after_put-IsSeries :
      (left request_id : ℕ) (stub : Stub) (membership : MembershipState)
      (answer : Option PutResponse) (fetched : Bool) (again retried : PutResult)
      → request_id < 2 ^ 64
      → puts left stub (put_request key value client_addr request_id membership) ≡ answer
      → IsSeries left ((request_id + 1) % 2 ^ 64) again
      → IsSeries left ((request_id + 1) % 2 ^ 64) retried
      → let r = after_put answer fetched again retried membership ((request_id + 1) % 2 ^ 64) in
        IsSeries (suc left) request_id (record r {
          sent = (stub, put_request key value client_addr request_id membership) ∷ r.sent;
        })
  unfolding after_put
  after_put-IsSeries left request_id stub membership none fetched again retried l h s t =
      IsSeries-cons left request_id stub membership again s
  after_put-IsSeries left request_id stub membership (some response) fetched again retried l h s t =
      let next_id = (request_id + 1) % 2 ^ 64 in
      elim (Bool-cases response.success) [
        | inl e ↦ rw (after_put-success response fetched again retried membership next_id e) (
            one-IsSeries left request_id stub membership true (some response)
              (inr (response, refl, e, h)))
        | inr e ↦ elim (Bool-cases (refreshes_put response.error)) [
          | inl f ↦
              rw (after_put-refresh response fetched again retried membership next_id e f)
                (refreshed-IsSeries left request_id stub membership fetched retried t)
          | inr f ↦
              rw (after_put-error response fetched again retried membership next_id e f)
                (one-IsSeries left request_id stub membership false (some response) (inl refl))
        ]
      ]

  put_attempts-IsSeries :
      (left request_id : ℕ) (membership : MembershipState)
      → request_id < 2 ^ 64
      → IsSeries left request_id
          (put_attempts puts fetches key value client_addr left request_id membership)
  unfolding put_attempts
  put_attempts-IsSeries zero request_id membership h = (omega arith, omega arith, tt, inl refl)
  put_attempts-IsSeries (suc left) request_id membership h =
      elim (Option-cases (stub_at membership.stubs (select_write_node_index membership key))) [
        | inl e ↦
            rw (put_attempts-none puts fetches key value client_addr left request_id membership e)
              (omega arith, omega arith, tt, inl refl)
        | inr (stub, e) ↦
            let small : (request_id + 1) % 2 ^ 64 < 2 ^ 64 = omega arith in
            let (fetched, refreshed) = fetch_membership (fetches left) membership in
            rw
              (put_attempts-stub puts fetches key value client_addr left request_id membership stub
                e)
              (after_put-IsSeries left request_id stub membership
                (puts left stub (put_request key value client_addr request_id membership)) fetched _
                _ h refl (put_attempts-IsSeries left ((request_id + 1) % 2 ^ 64) membership small)
                (put_attempts-IsSeries left ((request_id + 1) % 2 ^ 64) refreshed small))
      ]

  -- Whatever the nodes and the metadata store answer, a write sends at most three requests, with
  -- its key, value and address and no version, under consecutive ids from the client's counter
  -- (modulo 2 ^ 64), which moves on by their number; and it ends without success or with an answer
  -- that has success and that the last of the requests got. The counter starts as a uint64_t.
  pub send_put_with_retry-IsSeries :
      (request_id : ℕ) (membership : MembershipState)
      → request_id < 2 ^ 64
      → IsSeries 3 request_id
          (send_put_with_retry puts fetches key value client_addr request_id membership)
  unfolding send_put_with_retry
  send_put_with_retry-IsSeries = put_attempts-IsSeries 3
