-- ===== src/Ring.antt =====
-- The placement of keys on the ring of nodes: src/replication/common/replication_common.h, and the
-- neighbours that `update_membership` computes.
pub mod Placement
use Prim.Native.Nat.{bit_xor}
use crown_kv.Common.{ℕ, zero, suc, ◌+◌, ◌-◌, ◌*◌, ◌%◌, ◌^◌, leb, if◌then◌else◌, List, [], ◌∷◌, Text}

-- The loop of `fnv1a_64`, in uint64_t.
fnv1a_from : ℕ → Text → ℕ
fnv1a_from hash [] = hash
fnv1a_from hash (c ∷ key) = fnv1a_from ((bit_xor hash c * 1099511628211) % 2 ^ 64) key

unfoldable pub fnv1a_64 : Text → ℕ
unfolding fnv1a_from
fnv1a_64 key = fnv1a_from 14695981039346656037 key

unfoldable pub head_index : Text → ℕ → ℕ
head_index key ring_size = if leb ring_size 0 then 0 else fnv1a_64 key % ring_size

-- `base + ring_size - 1` is computed in uint64_t.
unfoldable pub tail_index : Text → ℕ → ℕ
tail_index key ring_size =
    if leb ring_size 0
    then 0
    else (let base = fnv1a_64 key % ring_size in
        (((base + ring_size) % 2 ^ 64 + 2 ^ 64 - 1) % 2 ^ 64) % ring_size)

-- The indices of the neighbours in `update_membership`.
unfoldable pub prev_index : ℕ → ℕ → ℕ
prev_index ring_size node_index = (node_index + ring_size - 1) % ring_size

unfoldable pub next_index : ℕ → ℕ → ℕ
next_index ring_size node_index = (node_index + 1) % ring_size

-- Where a request is after a number of forwards.
unfoldable pub walk : ℕ → ℕ → ℕ → ℕ
walk ring_size zero i = i
walk ring_size (suc steps) i = walk ring_size steps (next_index ring_size i)
