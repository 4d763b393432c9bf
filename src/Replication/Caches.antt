-- ===== src/Replication/Caches.antt =====
-- The caches of channels and stubs of src/replication/common/replication_common.cpp. A channel or a
-- stub that gRPC creates is a number that no other has, with what it was created for.
use crown_kv.Common.{
  ℕ, ◌+◌, ◌≡◌, refl, inl, inr, arith, none, some, Option-cases, Text, text_eq, Map, find, assign,
  eq_refl, find-assign, text_beq_iff,
}

pub record Channel : Type 0 where
  pub id : ℕ
  pub address : Text

pub record CachedStub : Type 0 where
  pub id : ℕ
  pub channel : Channel

pub record Caches : Type 0 where
  pub channels : Map Text Channel
  pub repl_stubs : Map Text CachedStub
  pub client_ack_stubs : Map Text CachedStub
  pub created : ℕ

unfoldable pub get_or_create_channel : Text → Caches → Caches × Channel
get_or_create_channel address c = elim (find address c.channels) [
  | some channel ↦ (c, channel)
  | none ↦
      let channel : Channel = record { id = c.created; address = address } in
      (record c { channels = assign address channel c.channels; created = c.created + 1 }, channel)
]

-- `emplace`: an entry that is there stays. The result is the entry.
unfoldable pub emplace : Text → CachedStub → Map Text CachedStub → Map Text CachedStub × CachedStub
emplace address stub m = elim (find address m) [
  | some there ↦ (m, there)
  | none ↦ (assign address stub m, stub)
]

-- `make_replication_stub` of an address. It releases its lock to create the stub; `others` is what
-- other threads do meanwhile.
unfoldable pub make_replication_stub : (Caches → Caches) → Text → Caches → Caches × CachedStub
unfolding get_or_create_channel emplace
make_replication_stub others address c = elim (find address c.repl_stubs) [
  | some stub ↦ (c, stub)
  | none ↦
      let (c', channel) = get_or_create_channel address c in
      let stub : CachedStub = record { id = c'.created; channel = channel } in
      let c'' = others (record c' { created = c'.created + 1 }) in
      let (stubs, result) = emplace address stub c''.repl_stubs in
      (record c'' { repl_stubs = stubs }, result)
]

unfoldable pub get_client_ack_stub : (Caches → Caches) → Text → Caches → Caches × CachedStub
unfolding get_or_create_channel emplace
get_client_ack_stub others client_addr c = elim (find client_addr c.client_ack_stubs) [
  | some stub ↦ (c, stub)
  | none ↦
      let (c', channel) = get_or_create_channel client_addr c in
      let stub : CachedStub = record { id = c'.created; channel = channel } in
      let c'' = others (record c' { created = c'.created + 1 }) in
      let (stubs, result) = emplace client_addr stub c''.client_ack_stubs in
      (record c'' { client_ack_stubs = stubs }, result)
]

-- What is in the caches stays in them.
pub record Keeps (c c' : Caches) : Type 0 where
  pub channels : (a : Text) (x : Channel) → find a c.channels ≡ some x → find a c'.channels ≡ some x
  pub repl_stubs :
      (a : Text) (x : CachedStub) → find a c.repl_stubs ≡ some x → find a c'.repl_stubs ≡ some x
  pub client_ack_stubs :
      (a : Text) (x : CachedStub)
      → find a c.client_ack_stubs ≡ some x
      → find a c'.client_ack_stubs ≡ some x

emplace_lem :
    (address : Text) (stub : CachedStub) (m : Map Text CachedStub)
    → let (m', result) = emplace address stub m in
      (find address m' ≡ some result)
      × ((a : Text) (x : CachedStub) → find a m ≡ some x → find a m' ≡ some x)
unfolding emplace
emplace_lem address stub m = elim (Option-cases (find address m)) [
  | inr (there, e) ↦ rw (e, emplace) (e, λ a x f. f)
  | inl e ↦
      rw (e, emplace)
        (
          ground (arith, find-assign address address stub m, eq_refl address),
          λ a x f. ground (arith, f, e, find-assign address a stub m, text_beq_iff address a),
        )
]

get_or_create_channel-Keeps :
    (address : Text) (c : Caches)
    → let (c', channel) = get_or_create_channel address c in
      Keeps c c' × (find address c'.channels ≡ some channel)
unfolding get_or_create_channel
get_or_create_channel-Keeps address c = elim (Option-cases (find address c.channels)) [
  | inr (channel, e) ↦
      rw (e, get_or_create_channel)
        (
          record { channels = λ a x f. f; repl_stubs = λ a x f. f; client_ack_stubs = λ a x f. f },
          e,
        )
  | inl e ↦
      let channel : Channel = record { id = c.created; address = address } in
      rw (e, get_or_create_channel)
        (
          record {
            channels = λ a x f.
                ground
                  (arith, f, e, find-assign address a channel c.channels, text_beq_iff address a);
            repl_stubs = λ a x f. f;
            client_ack_stubs = λ a x f. f;
          },
          ground (arith, find-assign address address channel c.channels, eq_refl address),
        )
]

make_replication_stub-found :
    (others : Caches → Caches) (address : Text) (c : Caches) (stub : CachedStub)
    → find address c.repl_stubs ≡ some stub
    → make_replication_stub others address c ≡ (c, stub)
unfolding make_replication_stub
make_replication_stub-found others address c stub e = rw (e, make_replication_stub) refl

make_replication_stub-new :
    (others : Caches → Caches) (address : Text) (c : Caches)
    → find address c.repl_stubs ≡ none
    → let (c', channel) = get_or_create_channel address c in
      let stub : CachedStub = record { id = c'.created; channel = channel } in
      let c'' = others (record c' { created = c'.created + 1 }) in
      let (stubs, result) = emplace address stub c''.repl_stubs in
      make_replication_stub others address c ≡ (record c'' { repl_stubs = stubs }, result)
unfolding make_replication_stub
make_replication_stub-new others address c e = rw (e, make_replication_stub) refl

-- Making a stub for an address keeps all that is in the caches, and every later call for the
-- address, from any thread, returns the same stub and changes nothing, also if other threads ask
-- for the address at the same time. (What other threads do keeps what is in the caches.)
pub make_replication_stub-Keeps :
    (others : Caches → Caches) (address : Text) (c : Caches)
    → ((d : Caches) → Keeps d (others d))
    → let (c', stub) = make_replication_stub others address c in
      Keeps c c'
      × ((d : Caches) (others' : Caches → Caches)
          → Keeps c' d
          → make_replication_stub others' address d ≡ (d, stub))
make_replication_stub-Keeps others address c keeps =
    elim (Option-cases (find address c.repl_stubs)) [
      | inr (stub, e) ↦ rw (make_replication_stub-found others address c stub e) (
        record { channels = λ a x f. f; repl_stubs = λ a x f. f; client_ack_stubs = λ a x f. f },
        λ d others' k.
            make_replication_stub-found others' address d stub (k.repl_stubs address stub e),
      )
      | inl e ↦
          let (k, _) = get_or_create_channel-Keeps address c in
          let (c', channel) = get_or_create_channel address c in
          let stub : CachedStub = record { id = c'.created; channel = channel } in
          let c'' = others (record c' { created = c'.created + 1 }) in
          let o = keeps (record c' { created = c'.created + 1 }) in
          let (found, kept) = emplace_lem address stub c''.repl_stubs in
          rw (make_replication_stub-new others address c e) (
            record {
              channels = λ a x f. o.channels a x (k.channels a x f);
              repl_stubs = λ a x f. kept a x (o.repl_stubs a x (k.repl_stubs a x f));
              client_ack_stubs = λ a x f. o.client_ack_stubs a x (k.client_ack_stubs a x f);
            },
            λ d others' later.
                make_replication_stub-found others' address d _ (later.repl_stubs address _ found),
          )
    ]
