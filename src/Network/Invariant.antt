-- ===== src/Network/Invariant.antt =====
-- What holds in every state of the cluster that is reached, and that each step of one node keeps it.
use mathlib.Core.Path.{subst, fun_ext}
use mathlib.Core.List.{Memᴰ}
use crown_kv.Common.{
  ℕ, ◌<◌, ◌≡◌, refl, sym, ap, true, false, nat_beq, List, text_eq, nat_eq, if◌then◌else◌, length,
}
use crown_kv.Messages.{NodeInfo}
use crown_kv.KvStore.{KvStore}
use crown_kv.Replication.{Replication, Node, forward_worker_take, forward_worker_send}
use crown_kv.Replication.Retries.{retry_round}
use crown_kv.Apportioned.{Roles}
use crown_kv.Network.{Write, System, update, set_node}
use crown_kv.Network.Stores.{Grows, Grows-refl}
use crown_kv.Network.Safety.{IsSafe, update-Grows, update_ind}
use crown_kv.Network.Traffic.{HasSound, HasSound-later}
use crown_kv.Network.Methods.{
  HasSound-forward_worker_take, HasSound-forward_worker_send, HasSound-retry_round,
}

abbrev pub stores_of : (ℕ → Node) → ℕ → KvStore
stores_of nodes j = (nodes j).kv

pub update_same {ℓ} : {A : Type ℓ} (f : ℕ → A) (i : ℕ) → update f i (f i) ≡ f
update_same f i = fun_ext (λ j. update_ind (λ x a. a ≡ f x) f i (f i) j (λ e. ap f e) refl)

pub update_twice {ℓ} :
    {A : Type ℓ} (f : ℕ → A) (i : ℕ) (a b : A) → update (update f i a) i b ≡ update f i b
update_twice f i a b = fun_ext (λ j.
    elim (nat_beq i j) as (λ c. (if c then b else if c then a else f j) ≡ (if c then b else f j)) [
      | true ↦ refl
      | false ↦ refl
    ])

stores_of-update :
    (nodes : ℕ → Node) (i : ℕ) (m : Node)
    → stores_of (update nodes i m) ≡ update (stores_of nodes) i m.kv
stores_of-update nodes i m = fun_ext (λ j.
    elim (nat_beq i j)
      as (λ b. (if b then m else nodes j).kv ≡ (if b then m.kv else (nodes j).kv)) [
        | true ↦ refl
        | false ↦ refl
      ])

-- Every node holds what it held, and every accepted write stays.
pub record IsLater (s t : System) : Type 0 where
  pub grows : (i : ℕ) → Grows (s.nodes i).kv (t.nodes i).kv
  pub keeps : (w : Write) → Memᴰ w s.issued → Memᴰ w t.issued

module _ (roles : Roles) (members : List NodeInfo) where
  pub record Inv (s : System) : Type 0 where
    pub safe : IsSafe roles (length members) (stores_of s.nodes) s.issued
    pub sound :
        (i : ℕ)
        → i < length members
        → HasSound roles members (stores_of s.nodes) s.issued i (s.nodes i).repl

  -- What a step makes of a state: a later one, of which the same holds.
  abbrev pub Kept : System → System → Type 0
  Kept s t = Inv t × IsLater s t

  -- One node changes.
  pub set-Kept :
      (s : System) (i : ℕ) (m : Node) (issued' : List Write)
      → Inv s
      → Grows (s.nodes i).kv m.kv
      → ((w : Write) → Memᴰ w s.issued → Memᴰ w issued')
      → IsSafe roles (length members) (update (stores_of s.nodes) i m.kv) issued'
      → HasSound roles members (update (stores_of s.nodes) i m.kv) issued' i m.repl
      → Kept s (record { nodes = update s.nodes i m; issued = issued' })
  set-Kept s i m issued' h g k safe' sound' =
      let e = sym (stores_of-update s.nodes i m) in
      (
        record {
          safe = subst (λ st. IsSafe roles (length members) st issued') e safe';
          sound = λ j b.
              subst (λ st. HasSound roles members st issued' j (update s.nodes i m j).repl) e
                (update_ind
                  (λ x a.
                    HasSound roles members (update (stores_of s.nodes) i m.kv) issued' x a.repl)
                  s.nodes i m j
                  (λ at.
                    subst
                      (λ x.
                        HasSound roles members (update (stores_of s.nodes) i m.kv) issued' x m.repl)
                      at sound')
                  (HasSound-later roles members (stores_of s.nodes) s.issued j _ issued'
                    (update-Grows (stores_of s.nodes) i m.kv g) k (s.nodes j).repl (h.sound j b)));
        },
        record {
          grows = λ j.
              subst (λ (st : ℕ → KvStore). Grows (s.nodes j).kv (st j)) e
                (update-Grows (stores_of s.nodes) i m.kv g j);
          keeps = k;
        },
      )

  -- One node changes nothing of its store.
  pub set_repl-Kept :
      (s : System) (i : ℕ) (r : Replication)
      → Inv s
      → HasSound roles members (stores_of s.nodes) s.issued i r
      → Kept s (set_node s i (record (s.nodes i) { repl = r }))
  set_repl-Kept s i r h sound' =
      let e = sym (update_same (stores_of s.nodes) i) in
      set-Kept s i (record (s.nodes i) { repl = r }) s.issued h (Grows-refl (s.nodes i).kv)
        (λ w m. m) (subst (λ st. IsSafe roles (length members) st s.issued) e h.safe)
        (subst (λ st. HasSound roles members st s.issued i r) e sound')

  pub take-Kept :
      (s : System) (i : ℕ)
      → i < length members
      → Inv s
      → Kept s (set_node s i (record (s.nodes i) { repl = forward_worker_take (s.nodes i).repl }))
  take-Kept s i l h =
      set_repl-Kept s i _ h
        (HasSound-forward_worker_take roles members _ s.issued i (s.nodes i).repl (h.sound i l))

  pub work-Kept :
      (s : System) (i k : ℕ)
      → i < length members
      → Inv s
      → Kept s (set_node s i (record (s.nodes i) { repl = forward_worker_send k (s.nodes i).repl }))
  work-Kept s i k l h =
      set_repl-Kept s i _ h
        (HasSound-forward_worker_send roles members _ s.issued i k (s.nodes i).repl (h.sound i l))

  pub retry-Kept :
      (s : System) (i now : ℕ)
      → i < length members
      → Inv s
      → Kept s (set_node s i (record (s.nodes i) { repl = (retry_round now (s.nodes i).repl).0 }))
  retry-Kept s i now l h =
      set_repl-Kept s i _ h
        (HasSound-retry_round roles members _ s.issued i now (s.nodes i).repl (h.sound i l))
