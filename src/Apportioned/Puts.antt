-- ===== src/Apportioned/Puts.antt =====
-- `handle_put` of src/replication/craq/craq_replication.cpp and
-- src/replication/crown/crown_replication.cpp.
use mathlib.Core.List.{append-nil}
use crown_kv.Common.{
  ℕ, ◌+◌, ◌^◌, ◌≤◌, ◌<◌, ◌≡◌, ◌⊎◌, split_bound, refl, inl, inr, arith, if◌then◌else◌, leb, le→leb,
  leb-false, nat_beq, Bool, true, false, not, ◌&&◌, ◌||◌, Bool-cases, Option, none, some, List, [],
  ◌∷◌, ◌++◌, Text, text_eq, nat_eq,
}
use crown_kv.Messages.{PutRequest}
use crown_kv.Address.{parse_host_port}
use crown_kv.KvStore.{KvStore, get_latest_version, put, mark_clean}
use crown_kv.KvStore.Views.{committed, committed_version}
use crown_kv.KvStore.Latest.{get_latest_version-IsLatest, put-assigns}
use crown_kv.KvStore.Commit.{put-commits_assigned, put-commits_offered}
use crown_kv.Replication.{
  Stub, Call, write_ack_call, commit_ack_call, Replication, Node, send_ack, forward_put,
}
use crown_kv.Apportioned.{
  Roles, put_success, get_committed_state, acknowledge, is_last, put_at_head, put_versioned,
  handle_put,
}

pub get_committed_state-version :
    (s : KvStore) (key : Text) → (get_committed_state s key).version ≡ committed_version s key
unfolding get_committed_state committed_version committed
get_committed_state-version s key = ground arith

-- The node takes the write: it has a membership and, if the write is a client's, it is the head.
abbrev pub accepts : Roles → PutRequest → Node → Bool
accepts roles q n =
    not (nat_beq n.repl.ring_size 0)
    && (not (nat_beq q.version 0) || nat_beq n.repl.node_index (roles.head q.key n.repl.ring_size))

-- The version of a write once it is accepted.
abbrev pub write_version : PutRequest → Node → ℕ
write_version q n = if nat_beq q.version 0 then get_latest_version n.kv q.key + 1 else q.version

abbrev pub HasRoom : PutRequest → Node → Type 0
HasRoom q n = write_version q n < 2 ^ 64

-- The acks of a write, to the predecessor and to the client.
abbrev pub write_acks : PutRequest → Option Stub → List Call
write_acks q none = []
write_acks q (some prev) =
    write_ack_call prev
      (record { request_id = q.request_id; key = q.key; version = q.version; epoch = q.epoch })
    ∷ []

abbrev pub commit_acks : PutRequest → List Call
commit_acks q = elim (parse_host_port q.client_addr) [
  | none ↦ []
  | some _ ↦ commit_ack_call q.client_addr (record { key = q.key; version = q.version }) ∷ []
]

calls-acknowledge :
    (q : PutRequest) (r : Replication)
    → (acknowledge q r).calls ≡ (r.calls ++ write_acks q r.prev_stub) ++ commit_acks q
unfolding acknowledge send_ack
calls-acknowledge q r =
    ground (arith, append-nil r.calls, append-nil (r.calls ++ write_acks q r.prev_stub))

-- What the last node does, in the two cases.
put_at_head-last :
    (now tail : ℕ) (q : PutRequest) (n : Node)
    → is_last tail n.repl ≡ true
    → get_latest_version n.kv q.key + 1 < 2 ^ 64
    → let v = get_latest_version n.kv q.key + 1 in
      put_at_head now tail q n ≡ (
        record {
          kv = mark_clean (put n.kv q.key q.value none).0 q.key v;
          repl = acknowledge (record q { version = v }) n.repl;
        },
        put_success v,
      )
unfolding put_at_head
put_at_head-last now tail q n l h = rw (l, (put-assigns n.kv q.key q.value h).0)

pub put_versioned-last :
    (now tail : ℕ) (q : PutRequest) (n : Node)
    → is_last tail n.repl ≡ true
    → put_versioned now tail q n ≡ (
      record {
        kv =
            if leb q.version (committed_version n.kv q.key)
            then n.kv
            else mark_clean (put n.kv q.key q.value (some q.version)).0 q.key q.version;
        repl = acknowledge q n.repl;
      },
      put_success q.version,
    )
unfolding put_versioned
put_versioned-last now tail q n l = rw (l, get_committed_state-version n.kv q.key) (ground arith)

-- What a node before the last one does.
pub put_at_head-before :
    (now tail : ℕ) (q : PutRequest) (n : Node)
    → is_last tail n.repl ≡ false
    → get_latest_version n.kv q.key + 1 < 2 ^ 64
    → let v = get_latest_version n.kv q.key + 1 in
      put_at_head now tail q n ≡ (
        record {
          kv = (put n.kv q.key q.value none).0;
          repl = forward_put now (record q { version = v }) n.repl.next_stub n.repl;
        },
        put_success v,
      )
unfolding put_at_head
put_at_head-before now tail q n l h = rw (l, (put-assigns n.kv q.key q.value h).0)

pub put_versioned-before :
    (now tail : ℕ) (q : PutRequest) (n : Node)
    → is_last tail n.repl ≡ false
    → put_versioned now tail q n ≡ (
      record {
        kv =
            if leb q.version (committed_version n.kv q.key)
            then n.kv
            else (put n.kv q.key q.value (some q.version)).0;
        repl = forward_put now q n.repl.next_stub n.repl;
      },
      put_success q.version,
    )
unfolding put_versioned
put_versioned-before now tail q n l = rw (l, get_committed_state-version n.kv q.key)

module _ (roles : Roles) (now : ℕ) (q : PutRequest) (n : Node) where
  -- The last node of a write's chain commits what it acknowledges. An accepted write above the
  -- committed version of its key becomes the committed record, any other leaves the store as it is.
  -- Both are acknowledged under the write's version, to the predecessor if there is one and to the
  -- client if its address can be read, and nothing else is sent. (The version has to fit 64 bits.)
  pub handle_put-commits :
      accepts roles q n ≡ true
      → is_last (roles.tail q.key n.repl.ring_size) n.repl ≡ true
      → HasRoom q n
      → let (n', response) = handle_put roles now q n in
        let v = write_version q n in
        let q' : PutRequest = record q { version = v } in
        (response.success ≡ true)
        × (response.version ≡ v)
        × (((committed_version n.kv q.key < v)
              × (committed n'.kv q.key ≡ some (record { verison = v; value = q.value })))
            ⊎ ((v ≤ committed_version n.kv q.key) × (n'.kv ≡ n.kv)))
        × (n'.repl.calls ≡ (n.repl.calls ++ write_acks q' n.repl.prev_stub) ++ commit_acks q')
  unfolding handle_put
  handle_put-commits a l h = elim (Bool-cases (nat_beq q.version 0)) [
    | inl z ↦
        let room : get_latest_version n.kv q.key + 1 < 2 ^ 64 = ground (arith, h) in
        let v = get_latest_version n.kv q.key + 1 in
        let c = (get_latest_version-IsLatest n.kv q.key).committed_le in
        let taken : (handle_put roles now q n)
            ≡ put_at_head now (roles.tail q.key n.repl.ring_size) q n =
          ground arith in
        rw (taken, put_at_head-last now _ q n l room, z)
          (
            refl,
            refl,
            inl (omega arith, put-commits_assigned n.kv q.key q.value room),
            calls-acknowledge (record q { version = v }) n.repl,
          )
    | inr z ↦
        let taken : (handle_put roles now q n)
            ≡ put_versioned now (roles.tail q.key n.repl.ring_size) q n =
          ground arith in
        rw (taken, put_versioned-last now _ q n l, z)
          (
            refl,
            refl,
            split_bound (committed_version n.kv q.key) q.version
                (λ g.
                  rw (leb-false q.version (committed_version n.kv q.key) g)
                    (put-commits_offered n.kv q.key q.value q.version g))
                (λ g. rw (le→leb q.version (committed_version n.kv q.key) g)),
            calls-acknowledge q n.repl,
          )
  ]
