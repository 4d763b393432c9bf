-- ===== src/Chain/Acks.antt =====
-- `handle_ack` of src/replication/chain/chain_replication.cpp.
use crown_kv.Common.{ℕ, ◌≡◌, refl}
use crown_kv.Replication.{Node}
use crown_kv.Apportioned
use crown_kv.Craq.{roles}
use crown_kv.Chain.{handle_ack}

-- A chain node handles an ack as a CRAQ node does.
pub handle_ack-craq : (id : ℕ) (n : Node) → handle_ack id n ≡ Apportioned.handle_ack roles id n
unfolding handle_ack Apportioned.handle_ack
handle_ack-craq id n = refl
