-- ===== src/Metadata/Members.antt =====
-- The member list of the command line, src/metadata_store/metadata_store.cpp, written and read back.
use crown_kv.Common.{
  ℕ, ◌<◌, ◌≡◌, ◌≢◌, refl, inl, arith, false, nat_beq, if◌then◌else◌, none, some, List, [], ◌∷◌,
  ◌++◌, Text, text_eq, text_beq, ◌==◌, bytes, length, All, All-mono, map, join, parts, parts-join,
  first_part, keep, nat_beq,
}
use crown_kv.Messages.{NodeInfo}
use crown_kv.Address.{address_from_node, member_text}
use crown_kv.Address.RoundTrip.{InRange, to_string-without, parse_member-member_text}
use crown_kv.Metadata.Start.{
  split, parse_members, read_option, read_options, start, added_node, main,
}

-- A field is not empty, and the delimiter is not in it.
abbrev pub IsField : ℕ → Text → Type 0
IsField delim field = (0 < length field) × All (λ c. c ≢ delim) field

split-join : (l : List Text) (delim : ℕ) → All (IsField delim) l → split (join l delim) delim ≡ l
unfolding split
split-join l delim h =
    parts-join (λ c. nat_beq c delim) delim (ground arith) l
      (All-mono (λ part f. (f.0, All-mono (λ c n. ground (arith, n)) part f.1)) l h)

-- What can be written as an entry of the member list.
abbrev pub IsEntry : NodeInfo → Type 0
IsEntry node =
    IsField b'@' node.node_id
    × All (λ c. c ≢ b',') node.node_id
    × IsField b',' node.address
    × InRange node.port

abbrev pub members_text : List NodeInfo → Text
members_text members = join (map member_text members) b','

All-append :
    (c : ℕ) (s t : Text) → All (λ x. x ≢ c) s → All (λ x. x ≢ c) t → All (λ x. x ≢ c) (s ++ t)
All-append c [] t h k = k
All-append c (x ∷ s) t h k = (h.0, All-append c s t h.1 k)

length-before : (s : Text) (c : ℕ) (t : Text) → 0 < length (s ++ c ∷ t)
length-before [] c t = omega arith
length-before (x ∷ s) c t = omega arith

member_text-IsField : (node : NodeInfo) → IsEntry node → IsField b',' (member_text node)
unfolding member_text address_from_node
member_text-IsField node (_, no_comma, host, _) = (
  length-before node.node_id b'@' _,
  All-append b',' node.node_id _ no_comma (
    omega arith,
    All-append b',' node.address _ host.1
        (omega arith, to_string-without b',' node.port (inl (omega arith))),
  ),
)

map-IsField :
    (members : List NodeInfo) → All IsEntry members → All (IsField b',') (map member_text members)
map-IsField [] h = tt
map-IsField (node ∷ members) h = (member_text-IsField node h.0, map-IsField members h.1)

parse_members-map :
    (members : List NodeInfo)
    → All IsEntry members
    → parse_members (map member_text members) ≡ some members
unfolding parse_members
parse_members-map [] h = refl
parse_members-map (node ∷ members) ((id, _, host, port), hs) =
    rw (parse_member-member_text node id.0 id.1 host.0 port, parse_members-map members hs) refl

-- The empty text has no parts, whether it is split or not.
split-empty :
    (text : Text) (delim : ℕ) → (if text == [] then [] else split text delim) ≡ split text delim
unfolding split parts first_part keep text_beq
split-empty [] delim = refl
split-empty (c ∷ t) delim = refl

-- A metadata store that is started with --mode and --members, the list of members in the form
-- NODE_ID@HOST:PORT with commas between them, has that mode, those members and epoch 1, and adds no
-- node later. Each id is not empty and has no @ or comma, each host is not empty and has no comma,
-- and each port is an int32_t.
pub main-members_text :
    (mode : Text) (members : List NodeInfo)
    → All IsEntry members
    → main (bytes "--mode" ∷ mode ∷ bytes "--members" ∷ members_text members ∷ [])
      ≡ some (
        record {
          epoch = 1;
          mode = mode;
          membership = members;
          last_heartbeat = [];
          reconfig_in_progress = false;
        },
        none,
      )
unfolding main read_options read_option start added_node text_beq
main-members_text mode members h =
    rw
      (
        split-empty (members_text members) b',',
        split-join (map member_text members) b',' (map-IsField members h),
        parse_members-map members h,
      )
      refl
