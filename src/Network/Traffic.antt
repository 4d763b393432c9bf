-- ===== src/Network/Traffic.antt =====
-- What holds of the messages of a node and of the writes that it waits for an ack of, and that the
-- methods of src/replication/common/replication_common.cpp keep it.
use mathlib.Core.List.{Memᴰ}
use crown_kv.Common.{
  ℕ, ◌≤◌, ◌<◌, ◌≡◌, ◌≢◌, arith, List, Text, text_eq, nat_eq, All, All-mono, length, map,
}
use crown_kv.Messages.{PutRequest, NodeInfo}
use crown_kv.Ring.{next_index}
use crown_kv.KvStore.{KvStore}
use crown_kv.KvStore.Views.{committed_version}
use crown_kv.Replication.{
  Call, put_call, write_ack_call, commit_ack_call, PendingEntry, Replication,
}
use crown_kv.Replication.Queue.{to_call, unsent}
use crown_kv.Apportioned.{Roles}
use crown_kv.Network.{Write, write_of, IsAt, IsPlaced}
use crown_kv.Network.Rings.{distance}
use crown_kv.Network.Stores.{Holds, Grows}

module _ (roles : Roles) (members : List NodeInfo) (stores : ℕ → KvStore)
    (issued : List Write) where
  -- Every node from the head of the key on to this one holds the version.
  abbrev pub HeldTo : ℕ → Text → ℕ → Type 0
  HeldTo i key v =
      (j : ℕ)
      → j < length members
      → distance (length members) (roles.head key (length members)) j
        ≤ distance (length members) (roles.head key (length members)) i
      → Holds (stores j) key v

  -- The tail has committed the version, or a later one, of an accepted write.
  abbrev pub IsSettled : Write → Type 0
  IsSettled w =
      Memᴰ w issued
      × (w.version ≤ committed_version (stores (roles.tail w.key (length members))) w.key)

  module _ (i : ℕ) where
    -- An accepted write that has come to this node, which is not the last one for its key.
    abbrev pub IsCarried : PutRequest → Type 0
    IsCarried q =
        Memᴰ (write_of q) issued
        × (i ≢ roles.tail q.key (length members))
        × HeldTo i q.key q.version

    abbrev pub IsSound : Call → Type 0
    IsSound (put_call stub q) = IsAt members (next_index (length members) i) stub × IsCarried q
    IsSound (write_ack_call stub a) =
        (w : Write) × IsSettled w
        × (w.request_id ≡ a.request_id)
        × (w.key ≡ a.key)
        × (w.version ≡ a.version)
    IsSound (commit_ack_call address a) =
        (w : Write) × IsSettled w × (w.key ≡ a.key) × (w.version ≡ a.version)

    abbrev pub IsAwaited : ℕ × PendingEntry → Type 0
    IsAwaited (id, entry) = (entry.request.request_id ≡ id) × IsCarried entry.request

    pub record HasSound (r : Replication) : Type 0 where
      pub placed : IsPlaced members i r
      pub calls : All IsSound r.calls
      pub queue : All IsSound (map to_call (unsent r))
      pub pending : All IsAwaited r.pending_acks

-- The methods change nothing of a node's place.
abbrev pub SamePlace : Replication → Replication → Type 0
SamePlace r r' =
    (r'.node_index ≡ r.node_index)
    × (r'.ring_size ≡ r.ring_size)
    × (r'.membership ≡ r.membership)
    × (r'.next_stub ≡ r.next_stub)

pub IsPlaced-same :
    (members : List NodeInfo) (i : ℕ) (r r' : Replication)
    → SamePlace r r'
    → IsPlaced members i r
    → IsPlaced members i r'
IsPlaced-same members i r r' (a, b, c, d) p = record {
  index = rw a p.index;
  size = rw b p.size;
  all = rw c p.all;
  next = rw d p.next;
}

module _ (roles : Roles) (members : List NodeInfo) (stores : ℕ → KvStore) (issued : List Write)
    (i : ℕ) where
  module _ (stores' : ℕ → KvStore) (issued' : List Write)
      (grows : (j : ℕ) → Grows (stores j) (stores' j))
      (keeps : (w : Write) → Memᴰ w issued → Memᴰ w issued') where
    pub IsSettled-later :
        (w : Write)
        → IsSettled roles members stores issued w
        → IsSettled roles members stores' issued' w
    IsSettled-later w (m, le) =
        (keeps w m, omega (arith, le, (grows (roles.tail w.key (length members))).commits w.key))

    pub IsCarried-later :
        (q : PutRequest)
        → IsCarried roles members stores issued i q
        → IsCarried roles members stores' issued' i q
    IsCarried-later q (m, ne, held) =
        (keeps _ m, ne, λ j b d. (grows j).holds q.key q.version (held j b d))

    IsSound-later :
        (c : Call)
        → IsSound roles members stores issued i c
        → IsSound roles members stores' issued' i c
    IsSound-later (put_call stub q) (at, h) = (at, IsCarried-later q h)
    IsSound-later (write_ack_call stub a) (w, h, d, e, f) = (w, IsSettled-later w h, d, e, f)
    IsSound-later (commit_ack_call address a) (w, h, d, e) = (w, IsSettled-later w h, d, e)

    pub HasSound-later :
        (r : Replication)
        → HasSound roles members stores issued i r
        → HasSound roles members stores' issued' i r
    HasSound-later r h = record {
      placed = h.placed;
      calls = All-mono IsSound-later r.calls h.calls;
      queue = All-mono IsSound-later (map to_call (unsent r)) h.queue;
      pending = All-mono (λ e p. (p.0, IsCarried-later e.1.request p.1)) r.pending_acks h.pending;
    }
