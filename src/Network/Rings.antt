-- ===== src/Network/Rings.antt =====
-- Where the roles of src/replication/craq/craq_replication.cpp and
-- src/replication/crown/crown_replication.cpp lie on the ring, and how far a place is from the head.
use crown_kv.Common.{ℕ, ◌+◌, ◌-◌, ◌^◌, ◌≤◌, ◌<◌, ◌≡◌, ◌≢◌, arith, ltb, if◌then◌else◌, Text}
use crown_kv.Ring.{next_index, prev_index}
use crown_kv.Ring.Placement.{next_index-cases, prev_index-cases, head_index-lt, tail_index-prev}
use crown_kv.Apportioned.{Roles}
use crown_kv.Craq
use crown_kv.Crown

-- The tail of a key is the node before its head.
abbrev pub IsRing : Roles → ℕ → Type 0
IsRing roles n =
    (2 ≤ n)
    × ((key : Text) → (roles.head key n < n) × (roles.tail key n ≡ prev_index n (roles.head key n)))

pub Craq-IsRing : (n : ℕ) → 2 ≤ n → IsRing Craq.roles n
Craq-IsRing n h = (h, λ key. (omega arith, ground (arith, prev_index-cases n 0)))

pub Crown-IsRing : (n : ℕ) → 2 ≤ n → n < 2 ^ 31 → IsRing Crown.roles n
Crown-IsRing n h k =
    (h, λ key. (head_index-lt key n (omega arith), tail_index-prev key n (omega arith) k))

pub IsRing-apart :
    (roles : Roles) (n : ℕ) (key : Text) → IsRing roles n → roles.head key n ≢ roles.tail key n
IsRing-apart roles n key (h, ring) e =
    let (l, t) = ring key in absurd (ground (arith, l, t, e, prev_index-cases n (roles.head key n)))

pub IsRing-tail : (roles : Roles) (n : ℕ) (key : Text) → IsRing roles n → roles.tail key n < n
IsRing-tail roles n key (h, ring) =
    let (l, t) = ring key in ground (arith, l, t, prev_index-cases n (roles.head key n))

-- How many forwards a place is from the head.
abbrev pub distance : ℕ → ℕ → ℕ → ℕ
distance n head i = if ltb i head then i + n - head else i - head

module _ (n head i : ℕ) (h : head < n) (l : i < n) where
  pub distance-head : distance n head head ≡ 0
  distance-head = ground arith

  pub distance-le : distance n head i ≤ distance n head (prev_index n head)
  distance-le = ground (arith, prev_index-cases n head h)

  pub distance-next :
      i ≢ prev_index n head
      → (next_index n i < n) × (distance n head (next_index n i) ≡ distance n head i + 1)
  distance-next t = ground (arith, prev_index-cases n head h, next_index-cases n i l)

  pub distance-zero : distance n head i ≡ 0 → i ≡ head
  distance-zero e = ground arith

  pub distance-injective : (j : ℕ) → j < n → distance n head j ≡ distance n head i → j ≡ i
  distance-injective j k e = ground arith
