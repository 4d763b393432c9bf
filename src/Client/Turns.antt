-- ===== src/Client/Turns.antt =====
-- One turn of the loops of `SendPutWithRetry` and `SendGetWithRetry`, src/client/client.cpp, by what
-- is answered.
use crown_kv.Common.{
  ℕ, suc, ◌+◌, ◌%◌, ◌^◌, ◌≡◌, refl, true, false, if◌then◌else◌, Bool, none, some, ◌∷◌, Text,
}
use crown_kv.Messages.{PutResponse, GetRequest, GetResponse}
use crown_kv.Replication.{Stub}
use crown_kv.Client.{
  MembershipState, fetch_membership, select_write_node_index, select_read_node_index, stub_at,
  PutResult, put_ends, refreshes_put, put_request, after_put, put_attempts, Puts, Fetches,
  GetResult, get_ends, refreshes_get, after_get, get_attempts, Gets,
}

module _ (response : PutResponse) (fetched : Bool) (again retried : PutResult)
    (membership : MembershipState) (next_id : ℕ) where
  pub after_put-success :
      response.success ≡ true
      → after_put (some response) fetched again retried membership next_id
        ≡ put_ends true (some response) membership next_id
  unfolding after_put
  after_put-success e = rw e refl

  pub after_put-refresh :
      response.success ≡ false
      → refreshes_put response.error ≡ true
      → after_put (some response) fetched again retried membership next_id
        ≡ (if fetched then retried else put_ends false none membership next_id)
  unfolding after_put
  after_put-refresh e f = rw (e, f) refl

  pub after_put-error :
      response.success ≡ false
      → refreshes_put response.error ≡ false
      → after_put (some response) fetched again retried membership next_id
        ≡ put_ends false (some response) membership next_id
  unfolding after_put
  after_put-error e f = rw (e, f) refl

-- One turn of the loop, with a node to ask and without.
module _ (puts : Puts) (fetches : Fetches) (key value client_addr : Text) (left request_id : ℕ)
    (membership : MembershipState) where
  pub put_attempts-stub :
      (stub : Stub)
      → stub_at membership.stubs (select_write_node_index membership key) ≡ some stub
      → let attempts = put_attempts puts fetches key value client_addr in
        let request = put_request key value client_addr request_id membership in
        let next_id = (request_id + 1) % 2 ^ 64 in
        let (fetched, refreshed) = fetch_membership (fetches left) membership in
        let result =
          after_put
            (puts left stub request)
            fetched
            (attempts left next_id membership)
            (attempts left next_id refreshed)
            membership
            next_id in
        attempts (suc left) request_id membership
        ≡ record result { sent = (stub, request) ∷ result.sent }
  unfolding put_attempts
  put_attempts-stub stub e = rw (e, put_attempts) refl

  pub put_attempts-none :
      stub_at membership.stubs (select_write_node_index membership key) ≡ none
      → put_attempts puts fetches key value client_addr (suc left) request_id membership
        ≡ put_ends false none membership request_id
  unfolding put_attempts
  put_attempts-none e = rw (e, put_attempts) refl

module _ (response : GetResponse) (fetched : Bool) (again retried : GetResult)
    (membership : MembershipState) where
  pub after_get-final :
      refreshes_get response.error ≡ false
      → after_get (some response) fetched again retried membership
        ≡ get_ends true (some response) membership
  unfolding after_get
  after_get-final e = rw e refl

  pub after_get-refresh :
      refreshes_get response.error ≡ true
      → after_get (some response) fetched again retried membership
        ≡ (if fetched then retried else get_ends false none membership)
  unfolding after_get
  after_get-refresh e = rw e refl

pub get_attempts-stub :
    (gets : Gets) (fetches : Fetches) (key : Text) (left : ℕ) (membership : MembershipState)
    (stub : Stub)
    → stub_at membership.stubs (select_read_node_index membership key) ≡ some stub
    → let attempts = get_attempts gets fetches key in
      let request : GetRequest = record { key = key; epoch = membership.epoch } in
      let (fetched, refreshed) = fetch_membership (fetches left) membership in
      let result =
        after_get
          (gets left stub request)
          fetched
          (attempts left membership)
          (attempts left refreshed)
          membership in
      attempts (suc left) membership ≡ record result { sent = (stub, request) ∷ result.sent }
unfolding get_attempts
get_attempts-stub gets fetches key left membership stub e = rw (e, get_attempts) refl
