-- ===== src/Server/Main.antt =====
-- How the server process starts: `main` of src/server/server.cpp up to the first membership.
use crown_kv.Common.{
  ℕ, Bool, true, false, if◌then◌else◌, Option, none, some, List, [], ◌∷◌, Text, text_eq, ◌==◌,
  bytes,
}
use crown_kv.Messages.{MembershipResponse}
use crown_kv.Replication.{Replication}
use crown_kv.Server.{starting, Process, refresh_membership}

pub record Options : Type 0 where
  pub node_id : Text
  pub listen_addr : Text
  pub metadata_addr : Text
  pub verbose : Bool

abbrev pub default_options : Options
default_options = record {
  node_id = [];
  listen_addr = bytes "0.0.0.0:50051";
  metadata_addr = bytes "127.0.0.1:50050";
  verbose = false;
}

-- An argument that needs the one after it, if there is one: the options then.
unfoldable pub read_value : Text → Text → Options → Option Options
read_value arg value o =
    if arg == bytes "--node-id"
    then some (record o { node_id = value })
    else if arg == bytes "--listen"
    then some (record o { listen_addr = value })
    else if arg == bytes "--metadata"
    then some (record o { metadata_addr = value })
    else none

unfoldable pub read_flag : Text → Options → Options
read_flag arg o =
    if arg == bytes "--verbose"
    then record o { verbose = true }
    else if arg == bytes "-v"
    then record o { verbose = true }
    else o

-- The loop over the arguments after the program's name.
unfoldable pub read_options : List Text → Options → Options
unfolding read_value read_flag
read_options [] o = o
read_options (arg ∷ []) o = read_flag arg o
read_options (arg ∷ value ∷ rest) o =
    let next = read_options (value ∷ rest) (read_flag arg o) in
    elim (read_value arg value o) [ none ↦ next | some o' ↦ read_options rest o' ]

-- An object as its constructor leaves it.
abbrev pub new_object : Replication
new_object = record {
  pending_acks = [];
  epoch = 0;
  forward_queue = [];
  taken = [];
  forward_shutdown = false;
  calls = [];
  node_index = 0;
  ring_size = 0;
  membership = [];
  prev_stub = none;
  next_stub = none;
}

abbrev pub new_process : Text → Process
new_process node_id = record {
  server = record { node_id = node_id; epoch = 0; mode = []; membership = []; state = starting };
  kv = record { store = []; dirty_store = [] };
  chain = new_object;
  craq = new_object;
  crown = new_object;
}

-- With an id, the process has asked for the membership; without one, it exits.
unfoldable pub main : ℕ → List Text → Option MembershipResponse → Option Process
unfolding read_options
main now args answer =
    let o = read_options args default_options in
    if o.node_id == [] then none else some (refresh_membership now answer (new_process o.node_id))
