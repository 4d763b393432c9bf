-- ===== src/Membership/Neighbours.antt =====
-- The place of a node and its neighbours after `update_membership` of
-- src/replication/crown/crown_replication.cpp and its two twins.
use crown_kv.Common.{
  if◌then◌else◌, ℕ, zero, suc, ◌+◌, ◌<◌, ◌≡◌, ◌≢◌, refl, ◌⊎◌, inl, inr, arith, Bool-cases, ltb,
  ltb→lt, get_elem?-lt, All-get_elem?, none, some, List, [], ◌∷◌, Text, text_eq, text_beq_iff,
  eq_sound, ◌==◌, length, get_elem?, All,
}
use crown_kv.Messages.{NodeInfo}
use crown_kv.Ring.{prev_index, next_index}
use crown_kv.Ring.Placement.{prev_index-cases, next_index-cases}
use crown_kv.Replication.{make_replication_stub, Replication}
use crown_kv.Membership.{build_stub, index_of, update_membership}

-- The first node with an id stands at `i`.
pub record IsFirst (node_id : Text) (members : List NodeInfo) (i : ℕ) : Type 0 where
  pub found : (node : NodeInfo) × (get_elem? members i ≡ some node) × (node.node_id ≡ node_id)
  pub first :
      (j : ℕ) (node : NodeInfo) → j < i → get_elem? members j ≡ some node → node.node_id ≢ node_id

IsFirst-unique :
    (node_id : Text) (l : List NodeInfo) (i j : ℕ)
    → IsFirst node_id l i
    → IsFirst node_id l j
    → i ≡ j
IsFirst-unique node_id l i j f g = elim (Bool-cases (ltb i j)) [
  | inl e ↦ let (x, p, q) = f.found in absurd (g.first i x (ltb→lt i j e) p q)
  | inr e ↦ elim (Bool-cases (ltb j i)) [
    | inl d ↦ let (x, p, q) = g.found in absurd (f.first j x (ltb→lt j i d) p q)
    | inr d ↦ ground arith
  ]
]

-- What the search has found in the rest, one place further on.
IsFirst-cons :
    (node_id : Text) (node : NodeInfo) (rest : List NodeInfo) (i : ℕ)
    → node.node_id ≢ node_id
    → IsFirst node_id rest i
    → IsFirst node_id (node ∷ rest) (suc i)
IsFirst-cons node_id node rest i h f = record { found = f.found; first = earlier }
  where
    earlier :
        (j : ℕ) (x : NodeInfo)
        → j < suc i
        → get_elem? (node ∷ rest) j ≡ some x
        → x.node_id ≢ node_id
    earlier zero x l e = ground (arith, h)
    earlier (suc j) x l e = f.first j x (omega arith) e

-- The loop finds the first node with the id, or there is none and the result is 0.
index_of-found :
    (node_id : Text) (k : ℕ) (members : List NodeInfo)
    → ((i : ℕ) × (index_of node_id k members ≡ k + i) × IsFirst node_id members i)
      ⊎ ((index_of node_id k members ≡ 0)
          × All (λ (node : NodeInfo). node.node_id ≢ node_id) members)
unfolding index_of
index_of-found node_id k [] = inr (refl, tt)
index_of-found node_id k (node ∷ rest) = elim (Bool-cases (node.node_id == node_id)) [
  | inl e ↦ inl (
    0,
    rw e (omega arith),
    record {
      found = (node, refl, eq_sound node.node_id node_id e);
      first = λ j x l. absurd (omega arith);
    },
  )
  | inr e ↦
      let other : node.node_id ≢ node_id = ground (arith, text_beq_iff node.node_id node_id) in
      rw e (further other (index_of-found node_id (k + 1) rest))
]
  where
    further :
        node.node_id ≢ node_id
        → ((i : ℕ) × (index_of node_id (k + 1) rest ≡ k + 1 + i) × IsFirst node_id rest i)
          ⊎ ((index_of node_id (k + 1) rest ≡ 0) × All (λ (x : NodeInfo). x.node_id ≢ node_id) rest)
        → ((i : ℕ) × (index_of node_id (k + 1) rest ≡ k + i) × IsFirst node_id (node ∷ rest) i)
          ⊎ ((index_of node_id (k + 1) rest ≡ 0)
              × All (λ (x : NodeInfo). x.node_id ≢ node_id) (node ∷ rest))
    further h (inl (i, e, f)) = inl (suc i, omega arith, IsFirst-cons node_id node rest i h f)
    further h (inr (e, a)) = inr (e, (h, a))

not_found :
    (node_id : Text) (l : List NodeInfo) (i : ℕ)
    → IsFirst node_id l i
    → ¬ All (λ (x : NodeInfo). x.node_id ≢ node_id) l
not_found node_id l i f a =
    let (x, p, q) = f.found in All-get_elem? (λ (x : NodeInfo). x.node_id ≢ node_id) l i a p q

pub index_of-IsFirst :
    (node_id : Text) (members : List NodeInfo) (i : ℕ)
    → IsFirst node_id members i
    → index_of node_id 0 members ≡ i
index_of-IsFirst node_id members i f = from (index_of-found node_id 0 members)
  where
    from :
        ((j : ℕ) × (index_of node_id 0 members ≡ 0 + j) × IsFirst node_id members j)
          ⊎ ((index_of node_id 0 members ≡ 0) × All (λ (x : NodeInfo). x.node_id ≢ node_id) members)
        → index_of node_id 0 members ≡ i
    from (inl (j, e, g)) = omega (arith, IsFirst-unique node_id members i j f g)
    from (inr (e, a)) = absurd (not_found node_id members i f a)

-- The place `i` comes after the place `j` on a ring of `n`: the first one after the last.
abbrev pub Follows : ℕ → ℕ → ℕ → Type 0
Follows n j i = (i ≡ suc j) ⊎ ((i ≡ 0) × (n ≡ suc j))

prev_index-Follows : (n j i : ℕ) → i < n → Follows n j i → prev_index n i ≡ j
prev_index-Follows n j i l h = ground (arith, prev_index-cases n i l)

next_index-Follows : (n i k : ℕ) → i < n → k < n → Follows n i k → next_index n i ≡ k
next_index-Follows n i k l m h = ground (arith, next_index-cases n i l)

-- A member's place is the first one with its id, and the ring has the size of the list. On a ring
-- of two or more nodes its stubs are those of the nodes before and after it, round the end; alone
-- on the ring it has none.
pub update_membership-places :
    (members : List NodeInfo) (node_id : Text) (r : Replication) (i j k : ℕ) (p q : NodeInfo)
    → IsFirst node_id members i
    → Follows (length members) j i
    → get_elem? members j ≡ some p
    → Follows (length members) i k
    → get_elem? members k ≡ some q
    → let n = length members in
      let r' = update_membership members node_id r in
      (r'.node_index ≡ i)
      × (r'.ring_size ≡ n)
      × (r'.membership ≡ members)
      × (i < n)
      × (r'.prev_stub ≡ (if ltb 1 n then some (make_replication_stub p) else none))
      × (r'.next_stub ≡ (if ltb 1 n then some (make_replication_stub q) else none))
unfolding update_membership build_stub
update_membership-places members node_id r i j k p q f before at_j after at_k =
    let e = index_of-IsFirst node_id members i f in
    let (x, at, _) = f.found in
    let l = get_elem?-lt members i at in
    let b = prev_index-Follows (length members) j i l before in
    let a = next_index-Follows (length members) i k l (get_elem?-lt members k at_k) after in
    (e, refl, refl, l, rw (e, b, at_j), rw (e, a, at_k))
