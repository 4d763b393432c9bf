-- ===== src/Ring/Placement.antt =====
-- Where the head and the tail of a key lie: src/replication/common/replication_common.h.
use native.Mathlib.Nat.{mod-lt, mod-eq_of_lt, mod-eq-sub-mod}
use crown_kv.Common.{
  ℕ, zero, suc, ◌+◌, ◌-◌, ◌%◌, ◌^◌, ◌≤◌, ◌<◌, ◌≡◌, ◌↔◌, arith, Text, nat_beq, ltb, leb-false,
  if◌then◌else◌,
}
use crown_kv.Ring.{fnv1a_64, head_index, tail_index, prev_index, next_index, walk}

pub next_index-cases : (n i : ℕ) → i < n → next_index n i ≡ (if nat_beq (i + 1) n then 0 else i + 1)
unfolding next_index
next_index-cases n i h = grind arith

pub prev_index-cases : (n i : ℕ) → i < n → prev_index n i ≡ (if nat_beq i 0 then n - 1 else i - 1)
unfolding prev_index
prev_index-cases n zero h =
    let small : 0 + n - 1 < n = omega arith in omega (arith, mod-eq_of_lt small)
prev_index-cases n (suc i) h =
    let wraps : n ≤ suc i + n - 1 = omega arith in
    let small : suc i + n - 1 - n < n = omega arith in
    ground (arith, mod-eq-sub-mod wraps, mod-eq_of_lt small)

pub head_index-lt : (key : Text) (n : ℕ) → 0 < n → head_index key n < n
unfolding head_index
head_index-lt key n h = ground (arith, mod-lt (fnv1a_64 key) h)

uint64_pred :
    (f n : ℕ) → 0 < n → f < n → n < 2 ^ 31 → ((f + n) % 2 ^ 64 + 2 ^ 64 - 1) % 2 ^ 64 ≡ f + n - 1
uint64_pred f n h k l = omega arith

-- The tail of a key is the predecessor of its head.
pub tail_index-prev :
    (key : Text) (n : ℕ) → 0 < n → n < 2 ^ 31 → tail_index key n ≡ prev_index n (head_index key n)
unfolding tail_index prev_index head_index
tail_index-prev key n h k =
    rw (leb-false n 0 h) (rw (uint64_pred (fnv1a_64 key % n) n h (mod-lt (fnv1a_64 key) h) k))

pub tail_index-lt : (key : Text) (n : ℕ) → 0 < n → n < 2 ^ 31 → tail_index key n < n
tail_index-lt key n h k =
    ground (
      arith,
      tail_index-prev key n h k,
      head_index-lt key n h,
      prev_index-cases n (head_index key n),
    )

-- On a ring of 1 to 2 ^ 31 - 1 nodes the head and the tail of a key are places on the ring, the
-- node after the tail is the head, and they are one node only on a ring of one.
pub tail_index-next :
    (key : Text) (n : ℕ)
    → 0 < n
    → n < 2 ^ 31
    → (head_index key n < n)
      × (tail_index key n < n)
      × (next_index n (tail_index key n) ≡ head_index key n)
      × ((head_index key n ≡ tail_index key n) ↔ (n ≡ 1))
tail_index-next key n h k = ground (
  arith,
  head_index-lt key n h,
  tail_index-lt key n h k,
  tail_index-prev key n h k,
  prev_index-cases n (head_index key n),
  next_index-cases n (tail_index key n),
)

-- the place after some steps
advance : ℕ → ℕ → ℕ → ℕ
advance n i steps = if ltb (i + steps) n then i + steps else i + steps - n

walk-advance : (n steps i : ℕ) → i < n → steps < n → walk n steps i ≡ advance n i steps
unfolding walk advance
walk-advance n zero i h k = ground arith
walk-advance n (suc steps) i h k =
    ground (arith, next_index-cases n i h, walk-advance n steps (next_index n i))

-- On a ring of fewer than 2 ^ 31 nodes a request starts at the head of its key and is forwarded to
-- the next node each time. For fewer forwards than there are nodes it is at the tail after exactly
-- the last of them, and at the same node after two numbers of forwards only if they are equal.
pub walk-tail :
    (key : Text) (n steps other : ℕ)
    → n < 2 ^ 31
    → steps < n
    → other < n
    → let head = head_index key n in
      ((walk n steps head ≡ tail_index key n) ↔ (steps + 1 ≡ n))
      × ((walk n steps head ≡ walk n other head) ↔ (steps ≡ other))
unfolding advance
walk-tail key n steps other k s t =
    let h : 0 < n = omega arith in
    let lt = head_index-lt key n h in
    (
      ground (
        arith,
        lt,
        tail_index-prev key n h k,
        prev_index-cases n (head_index key n),
        walk-advance n steps (head_index key n) lt s,
      ),
      ground (
        arith,
        lt,
        walk-advance n steps (head_index key n) lt s,
        walk-advance n other (head_index key n) lt t,
      ),
    )
