-- ===== src/Common/Parts.antt =====
-- A text split at the bytes that a test finds; empty parts are dropped.
use Prim.Native.Nat.{ℕ, ◌<◌}
use mathlib.Core.Path.{◌≡◌, refl, ap, ◌∙◌}
use mathlib.Core.Bool.{Bool, true, false}
use mathlib.Core.List.{List, [], ◌∷◌, ◌++◌}
use native.Mathlib.Omega.{arith}
use crown_kv.Common.Tests.{if◌then◌else◌}
use crown_kv.Common.Equality.{Text}
use crown_kv.Common.Lists.{length, All}

-- A part that is not empty is kept.
unfoldable pub keep : Text → List Text → List Text
keep [] parts = parts
keep (c ∷ part) parts = (c ∷ part) ∷ parts

-- The part in front of the next delimiter, and the parts after it.
unfoldable pub first_part : (ℕ → Bool) → Text → Text × List Text
unfolding keep
first_part test [] = ([], [])
first_part test (c ∷ t) =
    let (part, parts) = first_part test t in
    if test c then ([], keep part parts) else (c ∷ part, parts)

unfoldable pub parts : (ℕ → Bool) → Text → List Text
unfolding first_part keep
parts test text = let (part, rest) = first_part test text in keep part rest

-- The parts with a delimiter between them.
abbrev pub join : List Text → ℕ → Text
join [] delim = []
join (part ∷ []) delim = part
join (part ∷ next ∷ rest) delim = part ++ delim ∷ join (next ∷ rest) delim

-- A part is not empty, and no delimiter is in it.
abbrev pub IsPart : (ℕ → Bool) → Text → Type 0
IsPart test part = (0 < length part) × All (λ c. test c ≡ false) part

module _ (test : ℕ → Bool) (delim : ℕ) (d : test delim ≡ true) where
  first_part-append :
      (part t : Text)
      → All (λ c. test c ≡ false) part
      → first_part test (part ++ delim ∷ t) ≡ (part, parts test t)
  unfolding first_part parts
  first_part-append [] t h = rw d
  first_part-append (c ∷ part) t h = rw (h.0, first_part-append part t h.1)

  first_part-all :
      (part : Text) → All (λ c. test c ≡ false) part → first_part test part ≡ (part, [])
  unfolding first_part
  first_part-all [] h = refl
  first_part-all (c ∷ part) h = rw (h.0, first_part-all part h.1)

  keep-part : (part : Text) (rest : List Text) → 0 < length part → keep part rest ≡ part ∷ rest
  unfolding keep
  keep-part [] rest h = absurd (omega arith)
  keep-part (c ∷ part) rest h = refl

  -- What is joined is split into the same parts.
  pub parts-join : (l : List Text) → All (IsPart test) l → parts test (join l delim) ≡ l
  unfolding parts first_part keep
  parts-join [] h = refl
  parts-join (part ∷ []) (h, _) = rw (first_part-all part h.1) (keep-part part [] h.0)
  parts-join (part ∷ next ∷ rest) (h, hs) =
      rw (first_part-append part (join (next ∷ rest) delim) h.1)
        (keep-part part _ h.0 ∙ ap (λ l. part ∷ l) (parts-join (next ∷ rest) hs))
