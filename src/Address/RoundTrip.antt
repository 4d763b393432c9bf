-- ===== src/Address/RoundTrip.antt =====
-- Printing and reading addresses: `address_from_node` and `parse_host_port` of
-- src/replication/common/replication_common.h, `ParseMember` of
-- src/metadata_store/metadata_store.cpp.
use native.Mathlib.Numerals.{add-one}
use crown_kv.Common.{
  ℕ, zero, suc, ◌+◌, ◌-◌, ◌*◌, ◌/◌, ◌%◌, ◌≤◌, ◌<◌, ◌≡◌, ◌≢◌, refl, ap, arith, true, false, ◌||◌,
  leb, ltb, ltb→lt, nat_beq, ◌∙◌, ◌^◌, ◌⊎◌, if◌then◌else◌, Bool-cases, inl, inr, none, some, ◌>>=◌,
  [], ◌∷◌, ◌++◌, Text, ℤ, pos, negsuc, length, length-append, drop, take-append, drop-append, All,
}
use crown_kv.Messages.{NodeInfo}
use crown_kv.Address.{
  digits, to_string, address_from_node, is_digit, is_space, value_from, magnitude, negate, stoi,
  rfind, find_first, parse_host_port, parse_member, member_text,
}

-- The text starts with a digit.
abbrev StartsDigit : Text → Type 0
StartsDigit [] = ⊥
StartsDigit (c ∷ t) = is_digit c ≡ true

digits-StartsDigit : (fuel n : ℕ) (t : Text) → n < fuel → StartsDigit (digits fuel n t)
unfolding digits is_digit
digits-StartsDigit zero n t h = absurd (omega arith)
digits-StartsDigit (suc fuel) n t h = elim (Bool-cases (ltb n 10)) [
  | inl e ↦ rw e (ground arith)
  | inr e ↦ rw e (digits-StartsDigit fuel (n / 10) _ (ground arith))
]

-- All bytes of the text are digits.
abbrev AllDigits : Text → Type 0
AllDigits = All (λ c. (48 ≤ c) × (c ≤ 57))

digits-AllDigits : (fuel n : ℕ) (t : Text) → AllDigits t → AllDigits (digits fuel n t)
unfolding digits
digits-AllDigits zero n t h = h
digits-AllDigits (suc fuel) n t h = elim (Bool-cases (ltb n 10)) [
  | inl e ↦ rw e ((omega arith, omega arith), h)
  | inr e ↦ rw e (digits-AllDigits fuel (n / 10) _ ((omega arith, omega arith), h))
]

value_from-digit :
    (m d : ℕ) (t : Text) → d < 10 → value_from m ((48 + d) ∷ t) ≡ value_from (m * 10 + d) t
unfolding value_from
value_from-digit m d t h =
    let e : 48 + d - 48 ≡ d = omega arith in
    let f : is_digit (48 + d) ≡ true = unfold is_digit in ground arith in
    rw f (ap (λ k. value_from (m * 10 + k) t) e)

value_from-digits :
    (fuel n : ℕ) (t : Text) → n < fuel → value_from 0 (digits fuel n t) ≡ value_from n t
unfolding digits
value_from-digits zero n t h = absurd (omega arith)
value_from-digits (suc fuel) n t h = elim (Bool-cases (ltb n 10)) [
  | inl e ↦
      let f : 0 * 10 + n % 10 ≡ n = omega (arith, ltb→lt n 10 e) in
      rw e (value_from-digit 0 (n % 10) t (omega arith) ∙ ap (λ k. value_from k t) f)
  | inr e ↦
      let f : n / 10 * 10 + n % 10 ≡ n = omega arith in
      rw e (
        value_from-digits fuel (n / 10) ((48 + n % 10) ∷ t) (ground arith)
        ∙ value_from-digit (n / 10) (n % 10) t (omega arith)
        ∙ ap (λ k. value_from k t) f)
]

-- An int32_t.
abbrev pub InRange : ℤ → Type 0
InRange (pos n) = n < 2 ^ 31
InRange (negsuc n) = n < 2 ^ 31

magnitude-digit : (t : Text) → StartsDigit t → magnitude t ≡ some (value_from 0 t)
unfolding magnitude
magnitude-digit [] h = absurd h
magnitude-digit (c ∷ t) h = rw h

magnitude-digits : (n : ℕ) → magnitude (digits (n + 1) n []) ≡ some n
unfolding value_from
magnitude-digits n =
    magnitude-digit _ (digits-StartsDigit (n + 1) n [] (omega arith))
    ∙ ap some (value_from-digits (n + 1) n [] (omega arith))

stoi-digit :
    (t : Text)
    → StartsDigit t
    → stoi t ≡ (magnitude t >>= λ n. if leb n 2147483647 then some (pos n) else none)
unfolding stoi is_digit is_space
stoi-digit [] h = absurd h
stoi-digit (c ∷ t) h = ground arith

stoi-minus :
    (t : Text)
    → stoi (b'-' ∷ t) ≡ (magnitude t >>= λ n. if leb n 2147483648 then some (negate n) else none)
unfolding stoi is_space
stoi-minus t = refl

rfind-none : (c : ℕ) (t : Text) → All (λ x. x ≢ c) t → rfind c t ≡ none
unfolding rfind
rfind-none c [] h = refl
rfind-none c (x ∷ t) h = ground (arith, rfind-none c t h.1, h.0)

rfind-append : (c : ℕ) (s t : Text) → All (λ x. x ≢ c) t → rfind c (s ++ c ∷ t) ≡ some (length s)
unfolding rfind
rfind-append c [] t h = ground (arith, rfind-none c t h)
rfind-append c (x ∷ s) t h = ground (arith, rfind-append c s t h)

pub find_first-append :
    (c : ℕ) (s t : Text) → All (λ x. x ≢ c) s → find_first c (s ++ c ∷ t) ≡ some (length s)
unfolding find_first
find_first-append c [] t h = ground arith
find_first-append c (x ∷ s) t h = ground (arith, find_first-append c s t h.1, h.0)

AllDigits-without : (c : ℕ) (t : Text) → (c < 48) ⊎ (57 < c) → AllDigits t → All (λ x. x ≢ c) t
AllDigits-without c [] l h = tt
AllDigits-without c (d ∷ t) l h = (omega (arith, l, h.0.0, h.0.1), AllDigits-without c t l h.1)

-- What is no digit and no minus sign is not in a number.
pub to_string-without : (c : ℕ) (z : ℤ) → (c < 45) ⊎ (57 < c) → All (λ x. x ≢ c) (to_string z)
unfolding to_string
to_string-without c (pos n) l =
    AllDigits-without c _ (omega (arith, l)) (digits-AllDigits (n + 1) n [] tt)
to_string-without c (negsuc n) l = (
  omega (arith, l),
  AllDigits-without c _ (omega (arith, l)) (digits-AllDigits (n + 1 + 1) (n + 1) [] tt),
)

StartsDigit-length : (t : Text) → StartsDigit t → 0 < length t
StartsDigit-length [] h = absurd h
StartsDigit-length (c ∷ t) h = omega arith

length-to_string : (z : ℤ) → 0 < length (to_string z)
unfolding to_string
length-to_string (pos n) = StartsDigit-length _ (digits-StartsDigit (n + 1) n [] (omega arith))
length-to_string (negsuc n) = omega arith

-- The tests on a position, and what stands after it.
module _ (s : Text) (c : ℕ) (t : Text) (h : 0 < length s) (k : 0 < length t) where
  split_tests : (nat_beq (length s) 0 || leb (length (s ++ c ∷ t)) (length s + 1)) ≡ false
  split_tests = ground (arith, length-append s (c ∷ t))

pub drop-split : (s : Text) (c : ℕ) (t : Text) → drop (length s + 1) (s ++ c ∷ t) ≡ t
drop-split s c t = rw add-one (drop-append s c t)

-- An int32_t is printed and read back.
stoi-to_string : (z : ℤ) → InRange z → stoi (to_string z) ≡ some z
unfolding to_string negate
stoi-to_string (pos n) h =
    stoi-digit _ (digits-StartsDigit (n + 1) n [] (omega arith))
    ∙ rw (magnitude-digits n) (ground arith)
stoi-to_string (negsuc n) h = stoi-minus _ ∙ rw (magnitude-digits (n + 1)) (ground arith)

length-address_from_node : (node : NodeInfo) → 0 < length (address_from_node node)
unfolding address_from_node
length-address_from_node node =
    omega (arith, length-append node.address (b':' ∷ to_string node.port))

-- `address_from_node` prints what `parse_host_port` reads: the host, whatever is in it, and the
-- port. The host is not empty and the port is an int32_t.
pub parse_host_port-address_from_node :
    (node : NodeInfo)
    → 0 < length node.address
    → InRange node.port
    → parse_host_port (address_from_node node) ≡ some (node.address, node.port)
unfolding parse_host_port address_from_node
parse_host_port-address_from_node node h k =
    let printed = to_string node.port in
    rw (
      rfind-append b':' node.address printed (to_string-without b':' node.port (inr (omega arith))),
      split_tests node.address b':' printed h (length-to_string node.port),
      drop-split node.address b':' printed,
      stoi-to_string node.port k,
      take-append node.address (b':' ∷ printed),
    )

-- An entry NODE_ID@HOST:PORT of the member list is read back, for a node id that is not empty and
-- holds no @, a host that is not empty and a port that is an int32_t.
pub parse_member-member_text :
    (node : NodeInfo)
    → 0 < length node.node_id
    → All (λ x. x ≢ b'@') node.node_id
    → 0 < length node.address
    → InRange node.port
    → parse_member (member_text node) ≡ some node
unfolding parse_member member_text
parse_member-member_text node h a k l =
    let printed = address_from_node node in
    rw (
      find_first-append b'@' node.node_id printed a,
      split_tests node.node_id b'@' printed h (length-address_from_node node),
      drop-split node.node_id b'@' printed,
      parse_host_port-address_from_node node k l,
      take-append node.node_id (b'@' ∷ printed),
    )
