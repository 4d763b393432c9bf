-- ===== src/Client/Options.antt =====
-- The options of the client, and what `main` of src/client/client.cpp does with them.
use crown_kv.Common.{
  ℕ, Bool, true, false, not, ◌&&◌, nat_beq, if◌then◌else◌, Option, some, ◌>>=◌, List, [], ◌∷◌, Text,
  text_eq, ◌==◌, bytes,
}
use crown_kv.Address.{stoull}

pub record Options : Type 0 where
  pub metadata_addr : Text
  pub listen_addr : Text
  pub key_prefix : Text
  pub value_prefix : Text
  pub get_key : Text
  pub put_count : ℕ
  pub show_membership : Bool
  pub repl : Bool

abbrev pub default_options : Options
default_options = record {
  metadata_addr = bytes "127.0.0.1:50050";
  listen_addr = bytes "0.0.0.0:6000";
  key_prefix = bytes "key";
  value_prefix = bytes "value";
  get_key = [];
  put_count = 0;
  show_membership = false;
  repl = false;
}

unfoldable pub read_flag : Text → Options → Options
read_flag arg o =
    if arg == bytes "--get-membership"
    then record o { show_membership = true }
    else if arg == bytes "--repl"
    then record o { repl = true }
    else o

-- An argument that has one after it: whether it takes that, and the options then. none is the
-- exception of `std::stoull`.
unfoldable pub read_value : Text → Text → Options → Option (Bool × Options)
unfolding read_flag
read_value arg value o =
    if arg == bytes "--metadata"
    then some (true, record o { metadata_addr = value })
    else if arg == bytes "--listen"
    then some (true, record o { listen_addr = value })
    else if arg == bytes "--put-count"
    then (stoull value >>= λ n. some (true, record o { put_count = n }))
    else if arg == bytes "--key-prefix"
    then some (true, record o { key_prefix = value })
    else if arg == bytes "--value-prefix"
    then some (true, record o { value_prefix = value })
    else if arg == bytes "--get"
    then some (true, record o { get_key = value })
    else some (false, read_flag arg o)

unfoldable pub read_options : List Text → Options → Option Options
unfolding read_value read_flag
read_options [] o = some o
read_options (arg ∷ []) o = some (read_flag arg o)
read_options (arg ∷ value ∷ rest) o = do
  (taken, o') ← read_value arg value o
  let after = read_options rest o'
  let next = read_options (value ∷ rest) o'
  if taken then after else next

pub data Action : Type 0 where
  run_repl print_membership print_usage : Action
  get_value : Text → Action
  send_values : ℕ → Action

-- After the membership has been fetched.
unfoldable pub actions : Options → List Action
actions o =
    let last =
      if not (o.get_key == [])
      then get_value o.get_key
      else if nat_beq o.put_count 0
      then print_usage
      else send_values o.put_count in
    if o.repl
    then run_repl ∷ []
    else if o.show_membership
    then (if nat_beq o.put_count 0 && o.get_key == []
        then print_membership ∷ []
        else print_membership ∷ last ∷ [])
    else last ∷ []
