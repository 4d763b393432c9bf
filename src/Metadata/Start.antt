-- ===== src/Metadata/Start.antt =====
-- How the metadata store starts: `Split` and `main` of src/metadata_store/metadata_store.cpp. An
-- exception of `std::stoi` and a return before the server waits are none.
use crown_kv.Common.{
  ℕ, Bool, true, false, if◌then◌else◌, nat_beq, Option, none, some, ◌>>=◌, List, [], ◌∷◌, Text,
  text_eq, ◌==◌, bytes, parts, ℤ, pos,
}
use crown_kv.Messages.{NodeInfo}
use crown_kv.Address.{stoi, parse_member}
use crown_kv.Metadata.{ClusterState}

-- `std::getline` to the next delimiter; an empty part is dropped.
unfoldable pub split : Text → ℕ → List Text
unfolding parts
split text delim = parts (λ c. nat_beq c delim) text

unfoldable pub parse_members : List Text → Option (List NodeInfo)
parse_members [] = some []
parse_members (part ∷ parts) = do
  node ← parse_member part
  members ← parse_members parts
  some (node ∷ members)

pub record Options : Type 0 where
  pub listen_addr : Text
  pub mode : Text
  pub members_arg : Text
  pub add_member_arg : Text
  pub add_after_ms : ℤ

abbrev pub default_options : Options
default_options = record {
  listen_addr = bytes "0.0.0.0:50050";
  mode = bytes "CROWN";
  members_arg = [];
  add_member_arg = [];
  add_after_ms = pos 0;
}

-- An argument that has one after it: whether it takes that, and the options then.
unfoldable pub read_option : Text → Text → Options → Option (Bool × Options)
read_option arg value o =
    if arg == bytes "--listen"
    then some (true, record o { listen_addr = value })
    else if arg == bytes "--mode"
    then some (true, record o { mode = value })
    else if arg == bytes "--members"
    then some (true, record o { members_arg = value })
    else if arg == bytes "--add-member"
    then some (true, record o { add_member_arg = value })
    else if arg == bytes "--add-after-ms"
    then (stoi value >>= λ ms. some (true, record o { add_after_ms = ms }))
    else some (false, o)

unfoldable pub read_options : List Text → Options → Option Options
unfolding read_option
read_options [] o = some o
read_options (arg ∷ []) o = some o
read_options (arg ∷ value ∷ rest) o = do
  (taken, o') ← read_option arg value o
  let after = read_options rest o'
  let next = read_options (value ∷ rest) o'
  if taken then after else next

-- The state that the options ask for.
unfoldable pub start : Options → Option ClusterState
unfolding split parse_members
start o = do
  members ← parse_members (if o.members_arg == [] then [] else split o.members_arg b',')
  some (record {
    epoch = 1;
    mode = o.mode;
    membership = members;
    last_heartbeat = [];
    reconfig_in_progress = false;
  })

-- The node that a thread adds later, if there is one.
unfoldable pub added_node : Options → Option (Option NodeInfo)
added_node o =
    if o.add_member_arg == []
    then some none
    else (parse_member o.add_member_arg >>= λ node. some (some node))

unfoldable pub main : List Text → Option (ClusterState × Option NodeInfo)
unfolding read_options start added_node
main args = do
  o ← read_options args default_options
  s ← start o
  added ← added_node o
  some (s, added)
