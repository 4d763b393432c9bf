-- ===== src/Tests/Chains.antt =====
-- A write along a chain of three nodes: src/replication/craq/craq_replication.cpp.
use crown_kv.Common.{refl, arith, List, [], ◌∷◌, bytes, text_eq, text_beq, nat_eq, find}
use crown_kv.KvStore.{get_latest_version, newest}
use crown_kv.KvStore.Views.{committed_version, committed}
use crown_kv.Replication.{Node}
use crown_kv.Apportioned.{is_last}
use crown_kv.Apportioned.Passes.{pass_write, IsPath, AreSettled, pass_write-AreSettled}
use crown_kv.Craq
use crown_kv.Tests.Data.{key, request, head_node, middle_node, tail_node}

abbrev chain : List Node
chain = head_node ∷ middle_node ∷ tail_node ∷ []

-- The version 3 is above what is committed.
chain-IsPath : IsPath Craq.roles key 3 chain
unfolding is_last committed_version committed find text_beq
chain-IsPath = (
  omega arith,
  refl,
  (bytes "b:5002", refl),
  refl,
  omega arith,
  (omega arith, refl, (bytes "c:5003", refl), refl, omega arith, (omega arith, refl, omega arith)),
)

-- A client's write at the head, which gives it the version 3.
pass_write-AreSettled_example :
    AreSettled key 3 (bytes "c") chain (pass_write Craq.roles 0 (request 0) chain)
unfolding get_latest_version newest find text_beq
pass_write-AreSettled_example =
    pass_write-AreSettled Craq.roles 0 (request 0) head_node (middle_node ∷ tail_node ∷ []) 3 refl
      refl (omega arith) chain-IsPath
