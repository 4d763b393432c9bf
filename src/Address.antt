-- ===== src/Address.antt =====
-- Addresses as text: `address_from_node` and `parse_host_port` of
-- src/replication/common/replication_common.h, `ParseHostPort` and `ParseMember` of
-- src/metadata_store/metadata_store.cpp, and the numbers in them.
pub mod RoundTrip
use crown_kv.Common.{
  ℕ, zero, suc, ◌+◌, ◌-◌, ◌*◌, ◌/◌, ◌%◌, ◌^◌, Bool, true, false, ◌&&◌, ◌||◌, leb, ltb, nat_beq,
  if◌then◌else◌, Option, none, some, ◌>>=◌, List, [], ◌∷◌, ◌++◌, Text, ℤ, pos, negsuc, length, take,
  drop,
}
use crown_kv.Messages.{NodeInfo}

-- The decimal digits of `n`, in front of `rest`.
unfoldable pub digits : ℕ → ℕ → Text → Text
digits zero n rest = rest
digits (suc fuel) n rest =
    let digit = 48 + n % 10 in
    let more = digits fuel (n / 10) (digit ∷ rest) in if ltb n 10 then digit ∷ rest else more

-- `std::to_string` of an int32_t; n + 1 rounds are more than its digits.
unfoldable pub to_string : ℤ → Text
unfolding digits
to_string (pos n) = digits (n + 1) n []
to_string (negsuc n) = b'-' ∷ digits (n + 1 + 1) (n + 1) []

unfoldable pub address_from_node : NodeInfo → Text
address_from_node node = node.address ++ b':' ∷ to_string node.port

is_digit : ℕ → Bool
is_digit c = leb 48 c && leb c 57

unfoldable pub is_space : ℕ → Bool
is_space c = nat_beq c 32 || (leb 9 c && leb c 13)

-- The value of the digits in front, added to what was read before.
value_from : ℕ → Text → ℕ
unfolding is_digit
value_from n [] = n
value_from n (c ∷ t) = let more = value_from (n * 10 + (c - 48)) t in if is_digit c then more else n

-- Without a digit in front there is no number.
magnitude : Text → Option ℕ
unfolding is_digit value_from
magnitude [] = none
magnitude (c ∷ t) = if is_digit c then some (value_from 0 (c ∷ t)) else none

negate : ℕ → ℤ
negate zero = pos 0
negate (suc n) = negsuc n

-- int ranges from - 2 ^ 31 to 2 ^ 31 - 1; `std::stoi` throws outside it, as it does without a digit.
signed : Text → Option ℤ
unfolding magnitude negate
signed [] = none
signed (c ∷ t) =
    if nat_beq c b'-'
    then (magnitude t >>= λ n. if leb n 2147483648 then some (negate n) else none)
    else if nat_beq c b'+'
    then (magnitude t >>= λ n. if leb n 2147483647 then some (pos n) else none)
    else (magnitude (c ∷ t) >>= λ n. if leb n 2147483647 then some (pos n) else none)

-- `std::stoi`: white space, a sign, digits; what follows them is not read. none is an exception.
unfoldable pub stoi : Text → Option ℤ
unfolding is_space signed
stoi [] = none
stoi (c ∷ t) = let rest = stoi t in if is_space c then rest else signed (c ∷ t)

-- `std::stoull` wraps a negative number, and throws for one that does not fit 64 bits.
unsigned : Text → Option ℕ
unfolding magnitude
unsigned [] = none
unsigned (c ∷ t) =
    if nat_beq c b'-'
    then (magnitude t >>= λ n. if ltb n (2 ^ 64) then some ((2 ^ 64 - n) % 2 ^ 64) else none)
    else if nat_beq c b'+'
    then (magnitude t >>= λ n. if ltb n (2 ^ 64) then some n else none)
    else (magnitude (c ∷ t) >>= λ n. if ltb n (2 ^ 64) then some n else none)

unfoldable pub stoull : Text → Option ℕ
unfolding is_space unsigned
stoull [] = none
stoull (c ∷ t) = let rest = stoull t in if is_space c then rest else unsigned (c ∷ t)

-- `text.rfind(c)` and `text.find(c)`: none is npos.
unfoldable pub rfind : ℕ → Text → Option ℕ
rfind c [] = none
rfind c (x ∷ t) = elim (rfind c t) [
  | some i ↦ some (suc i)
  | none ↦ if nat_beq x c then some 0 else none
]

unfoldable pub find_first : ℕ → Text → Option ℕ
find_first c [] = none
find_first c (x ∷ t) =
    let rest = find_first c t >>= λ i. some (suc i) in if nat_beq x c then some 0 else rest

-- none is the result false.
unfoldable pub parse_host_port : Text → Option (Text × ℤ)
parse_host_port input = do
  position ← rfind b':' input
  if nat_beq position 0 || leb (length input) (position + 1)
      then none
      else do port ← stoi (drop (position + 1) input); some (take position input, port)

unfoldable pub parse_member : Text → Option NodeInfo
unfolding parse_host_port
parse_member text = do
  position ← find_first b'@' text
  if nat_beq position 0 || leb (length text) (position + 1) then none else do
    (host, port) ← parse_host_port (drop (position + 1) text)
    some (record { node_id = take position text; address = host; port = port })

-- An entry of the `--members` option.
unfoldable pub member_text : NodeInfo → Text
member_text node = node.node_id ++ b'@' ∷ address_from_node node
