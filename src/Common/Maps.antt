-- ===== src/Common/Maps.antt =====
-- `std::unordered_map` as a list of entries in iteration order.
use Prim.Native.Nat.{ℕ}
use mathlib.Core.Path.{◌≡◌, refl}
use mathlib.Core.Option.{Option, none, some}
use mathlib.Core.List.{List, [], ◌∷◌}
use native.Mathlib.Omega.{arith}
use crown_kv.Common.Tests.{if◌then◌else◌, leb}
use crown_kv.Common.Equality.{Eq, ◌==◌, nat_eq}

abbrev pub Map {ℓ κ} : Type ℓ → Type κ → Type (ℓ ⊔ κ)
Map K V = List (K × V)

module _ {ℓ κ} {K : Type ℓ} {V : Type κ} ⦃e : Eq K⦄ where
  -- `m.find(k)`: none is `m.end()`.
  unfoldable pub find : K → Map K V → Option V
  find k [] = none
  find k ((j, v) ∷ m) = if j == k then some v else find k m

  -- `m[k] = v`: an entry that is there keeps its place.
  unfoldable pub assign : K → V → Map K V → Map K V
  assign k v [] = (k, v) ∷ []
  assign k v ((j, w) ∷ m) = if j == k then (k, v) ∷ m else (j, w) ∷ assign k v m

  -- `m.erase(k)`.
  unfoldable pub erase : K → Map K V → Map K V
  erase k [] = []
  erase k ((j, w) ∷ m) = let rest = erase k m in if j == k then rest else (j, w) ∷ rest

  pub find-assign :
      (k j : K) (v : V) (m : Map K V)
      → find j (assign k v m) ≡ (if k == j then some v else find j m)
  unfolding find assign
  find-assign k j v [] = refl
  find-assign k j v ((i, w) ∷ m) =
      ground (arith, e.beq_iff k j, e.beq_iff i k, e.beq_iff i j, find-assign k j v m)

  pub find-erase :
      (k j : K) (m : Map K V) → find j (erase k m) ≡ (if k == j then none else find j m)
  unfolding find erase
  find-erase k j [] = ground arith
  find-erase k j ((i, w) ∷ m) =
      ground (arith, e.beq_iff k j, e.beq_iff i k, e.beq_iff i j, find-erase k j m)

-- The loops that erase every entry with a key up to a bound.
module _ {κ} {V : Type κ} where
  unfoldable pub erase_upto : ℕ → Map ℕ V → Map ℕ V
  erase_upto b [] = []
  erase_upto b ((j, w) ∷ m) = let rest = erase_upto b m in if leb j b then rest else (j, w) ∷ rest

  pub find-erase_upto :
      (b j : ℕ) (m : Map ℕ V) → find j (erase_upto b m) ≡ (if leb j b then none else find j m)
  unfolding find erase_upto
  find-erase_upto b j [] = ground arith
  find-erase_upto b j ((i, w) ∷ m) = ground (arith, find-erase_upto b j m)

-- An unordered_map holds a key once.
module _ {ℓ κ} {K : Type ℓ} {V : Type κ} ⦃e : Eq K⦄ where
  abbrev pub IsDistinct : Map K V → Type (ℓ ⊔ κ)
  IsDistinct [] = Unit
  IsDistinct ((j, w) ∷ m) = (find j m ≡ none) × IsDistinct m

-- A loop that writes the image of each entry into another map.
module _ {ℓ κ μ} {K : Type ℓ} {V : Type κ} {W : Type μ} ⦃e : Eq K⦄ (f : V → W) where
  unfoldable pub assign_all : Map K V → Map K W → Map K W
  assign_all [] m = m
  assign_all ((k, v) ∷ l) m = assign_all l (assign k (f v) m)

  pub find-assign_all :
      (k : K) (l : Map K V) (m : Map K W)
      → IsDistinct l
      → find k (assign_all l m) ≡ (elim (find k l) [ some v ↦ some (f v) | none ↦ find k m ])
  unfolding assign_all find
  find-assign_all k [] m d = refl
  find-assign_all k ((j, v) ∷ l) m d =
      ground
        (arith, find-assign_all k l (assign j (f v) m) d.1, find-assign j k (f v) m, e.beq_iff j k)

module _ {ℓ κ} {K : Type ℓ} {V : Type κ} ⦃e : Eq K⦄ where
  pub assign-IsDistinct : (k : K) (v : V) (m : Map K V) → IsDistinct m → IsDistinct (assign k v m)
  unfolding assign find
  assign-IsDistinct k v [] d = (refl, tt)
  assign-IsDistinct k v ((j, w) ∷ m) d =
      ground (arith, assign-IsDistinct k v m d.1, find-assign k j v m, e.beq_iff j k, e.beq_iff k j)

module _ {ℓ κ μ} {K : Type ℓ} {V : Type κ} {W : Type μ} ⦃e : Eq K⦄ (f : V → W) where
  pub assign_all-IsDistinct :
      (l : Map K V) (m : Map K W) → IsDistinct m → IsDistinct (assign_all f l m)
  unfolding assign_all
  assign_all-IsDistinct [] m d = d
  assign_all-IsDistinct ((k, v) ∷ l) m d =
      assign_all-IsDistinct l (assign k (f v) m) (assign-IsDistinct k (f v) m d)
