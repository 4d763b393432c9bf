-- ===== src/Network/Redirects.antt =====
-- A client's write that comes to a node other than its head: `handle_put` of
-- src/replication/craq/craq_replication.cpp and src/replication/crown/crown_replication.cpp.
use crown_kv.Common.{
  ℕ, ◌≡◌, ◌≢◌, ◌⊎◌, inl, inr, arith, Bool-cases, nat_beq, true, false, some, List, text_eq, nat_eq,
  length, get_elem?, get_elem?-some,
}
use crown_kv.Messages.{NodeInfo, PutRequest, wrong_node}
use crown_kv.Address.{address_from_node}
use crown_kv.Replication.{Node}
use crown_kv.Apportioned.{Roles, put_at_head, wrong_node_error, handle_put}
use crown_kv.Network.{IsPlaced}
use crown_kv.Network.Rings.{IsRing}

module _ (roles : Roles) (members : List NodeInfo) (ring : IsRing roles (length members))
    (q : PutRequest) (client : q.version ≡ 0) where
  abbrev head : ℕ
  head = roles.head q.key (length members)

  taken_at_head :
      (now : ℕ) (n : Node)
      → IsPlaced members head n.repl
      → (handle_put roles now q n).1.success ≡ true
  unfolding handle_put put_at_head
  taken_at_head now n p = let (two, _) = ring in ground (arith, p.index, p.size, client, two)

  -- A client's write that comes to a member is taken exactly if that member is the head of its key.
  -- Any other member stays as it is and answers WRONG_NODE with the address of the member at the
  -- head's place, and that member takes the write. (There are two or more members, each key's head
  -- is one of the places, and both members have the whole membership.)
  pub handle_put-redirects :
      (i now later : ℕ) (n m : Node)
      → IsPlaced members i n.repl
      → IsPlaced members head m.repl
      → let (n', response) = handle_put roles now q n in
        ((i ≡ head) × (response.success ≡ true))
        ⊎ ((i ≢ head)
            × (n' ≡ n)
            × (response.success ≡ false)
            × ((node : NodeInfo) × (get_elem? members head ≡ some node)
                × (response.error ≡ wrong_node (some (address_from_node node))))
            × ((handle_put roles later q m).1.success ≡ true))
  unfolding handle_put wrong_node_error
  handle_put-redirects i now later n m p at = elim (Bool-cases (nat_beq i head)) [
    | inl e ↦
        let same : i ≡ head = ground (arith, e) in inl (same, taken_at_head now n (rw (← same) p))
    | inr e ↦
        let (two, places) = ring in
        let (node, found) = get_elem?-some members head (places q.key).0 in
        inr (
          (λ same. ground (arith, same, e)),
          ground (arith, p.index, p.size, client, two, e),
          ground (arith, p.index, p.size, client, two, e),
          (node, found, ground (arith, p.index, p.size, p.all, client, two, e, found)),
          taken_at_head later m at,
        )
  ]
