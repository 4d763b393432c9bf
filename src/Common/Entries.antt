-- ===== src/Common/Entries.antt =====
-- The entries of a map: how many there are, and which are left.
use Prim.Native.Nat.{◌+◌}
use mathlib.Core.Path.{◌≡◌, refl, subst}
use mathlib.Core.Option.{none, some}
use mathlib.Core.List.{[], ◌∷◌}
use native.Mathlib.Omega.{arith}
use mathlib.Core.Logic.{inl, inr}
use crown_kv.Common.Tests.{Bool-cases}
use crown_kv.Common.Equality.{Eq, nat_eq, eq_refl, eq_sound, ◌==◌}
use crown_kv.Common.Lists.{length, All}
use crown_kv.Common.Maps.{Map, find, assign, erase, find-erase, IsDistinct}

module _ {ℓ κ} {K : Type ℓ} {V : Type κ} ⦃e : Eq K⦄ where
  pub erase-none : (k : K) (m : Map K V) → find k m ≡ none → erase k m ≡ m
  unfolding find erase
  erase-none k [] h = refl
  erase-none k ((j, w) ∷ m) h = ground (arith, erase-none k m)

  pub erase-assign : (k : K) (v : V) (m : Map K V) → find k m ≡ none → erase k (assign k v m) ≡ m
  unfolding find erase assign
  erase-assign k v [] h = ground (arith, eq_refl k)
  erase-assign k v ((j, w) ∷ m) h = ground (arith, erase-assign k v m)

  pub erase-IsDistinct : (k : K) (m : Map K V) → IsDistinct m → IsDistinct (erase k m)
  unfolding find erase
  erase-IsDistinct k [] d = tt
  erase-IsDistinct k ((j, w) ∷ m) d = ground (arith, erase-IsDistinct k m d.1, find-erase k j m)

  pub length-assign :
      (k : K) (v : V) (m : Map K V) → find k m ≡ none → length (assign k v m) ≡ length m + 1
  unfolding find assign
  length-assign k v [] h = omega arith
  length-assign k v ((j, w) ∷ m) h = ground (arith, length-assign k v m)

  pub length-erase :
      (k : K) (v : V) (m : Map K V)
      → IsDistinct m
      → find k m ≡ some v
      → length (erase k m) + 1 ≡ length m
  unfolding find erase
  length-erase k v [] d h = cc
  length-erase k v ((j, w) ∷ m) d h =
      ground (arith, length-erase k v m d.1, erase-none k m, e.beq_iff j k)

  -- A map in which no key is found is empty.
  pub find-empty : (m : Map K V) → ((k : K) → find k m ≡ none) → m ≡ []
  unfolding find
  find-empty [] h = refl
  find-empty ((j, w) ∷ m) h = ground (arith, h j, eq_refl j)

-- What holds of all entries.
module _ {ℓ κ μ} {K : Type ℓ} {V : Type κ} ⦃e : Eq K⦄ (P : K × V → Type μ) where
  pub All-find : (k : K) {v : V} (m : Map K V) → All P m → find k m ≡ some v → P (k, v)
  unfolding find
  All-find k [] h f = cc
  All-find k {v} ((j, w) ∷ m) h f = elim (Bool-cases (j == k)) [
    | inl p ↦
        let same : w ≡ v = ground (arith, p) in
        subst (λ x. P (x, v)) (eq_sound j k p) (subst (λ x. P (j, x)) same h.0)
    | inr p ↦ All-find k m h.1 (ground (arith, p))
  ]

  pub All-assign : (k : K) (v : V) (m : Map K V) → P (k, v) → All P m → All P (assign k v m)
  unfolding assign
  All-assign k v [] p h = (p, tt)
  All-assign k v ((j, w) ∷ m) p h = elim (Bool-cases (j == k)) [
    | inl q ↦ rw q (p, h.1)
    | inr q ↦ rw q (h.0, All-assign k v m p h.1)
  ]

  pub All-erase : (k : K) (m : Map K V) → All P m → All P (erase k m)
  unfolding erase
  All-erase k [] h = tt
  All-erase k ((j, w) ∷ m) h = elim (Bool-cases (j == k)) [
    | inl q ↦ rw q (All-erase k m h.1)
    | inr q ↦ rw q (h.0, All-erase k m h.1)
  ]
