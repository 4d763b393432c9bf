-- ===== src/Client/Workload.antt =====
-- The dataset and the workload of `bench`: `LoadDatasetCsv` and `BuildSkewedWorkload` of
-- src/client/client.cpp. A file that does not open is none. size_t is uint64_t, and a row that is
-- read outside the dataset makes the workload none.
pub mod Rows
pub mod Shares
use crown_kv.Common.{
  ℕ, zero, suc, ◌+◌, ◌-◌, ◌*◌, ◌/◌, ◌%◌, ◌^◌, Bool, true, false, not, if◌then◌else◌, ltb, leb,
  nat_beq, Option, none, some, ◌>>=◌, List, [], ◌∷◌, ◌++◌, Text, text_eq, ℤ, pos, negsuc, length,
  get_elem?, take, drop,
}
use crown_kv.Address.{find_first}

abbrev pub Row : Type 0
Row = Text × Text

-- `std::getline`: a line end at the very end starts no further line.
unfoldable pub extend : ℕ → List Text → List Text
extend c [] = (c ∷ []) ∷ []
extend c (line ∷ lines) = (c ∷ line) ∷ lines

unfoldable pub lines : Text → List Text
unfolding extend
lines [] = []
lines (c ∷ t) = let rest = lines t in if nat_beq c 10 then [] ∷ rest else extend c rest

-- The loop after the header: a line without a comma is passed over, as is an empty one.
unfoldable pub read_rows : List Text → List Row
unfolding find_first
read_rows [] = []
read_rows (line ∷ rest) =
    let rows = read_rows rest in
    elim (find_first b',' line) [
      | none ↦ rows
      | some comma ↦ (take comma line, drop (comma + 1) line) ∷ rows
    ]

-- The result, and what `out` holds then.
unfoldable pub load_dataset_csv : Option Text → List Row → Bool × List Row
unfolding lines read_rows
load_dataset_csv none out = (false, out)
load_dataset_csv (some file) out =
    let rows = read_rows (drop 1 (lines file)) in
    (elim rows as (λ _. Bool) [ [] ↦ false | _ ∷ _ ↦ true ], rows)

-- An int as uint64_t.
abbrev pub to_uint64 : ℤ → ℕ
to_uint64 (pos n) = n
to_uint64 (negsuc n) = 2 ^ 64 - (n + 1)

-- `dataset[base + i % size]` for `count` values of i, upwards.
unfoldable pub push_rows : List Row → ℕ → ℕ → ℕ → ℕ → Option (List Row)
push_rows dataset base size i zero = some []
push_rows dataset base size i (suc count) = do
  row ← get_elem? dataset (base + i % size)
  rows ← push_rows dataset base size (i + 1) count
  some (row ∷ rows)

abbrev at_least_1 : ℕ → ℕ
at_least_1 n = if nat_beq n 0 then 1 else n

unfoldable pub hot_count : ℕ → ℤ → ℕ
hot_count total_count hot_share = at_least_1 ((total_count * to_uint64 hot_share) % 2 ^ 64 / 100)

unfoldable pub hot_set_size : ℕ → ℤ → ℕ
hot_set_size size hot_set_share =
    let n = at_least_1 ((size * to_uint64 hot_set_share) % 2 ^ 64 / 100) in
    if ltb size n then size else n

abbrev pub is_positive : ℤ → Bool
is_positive (pos zero) = false
is_positive (pos (suc _)) = true
is_positive (negsuc _) = false

unfoldable pub build_skewed_workload : List Row → ℕ → ℤ → ℤ → Option (List Row)
unfolding push_rows hot_count hot_set_size
build_skewed_workload dataset total_count hot_share hot_set_share =
    let size = length dataset in
    let hot = hot_count total_count hot_share in
    let cold = (total_count + 2 ^ 64 - hot) % 2 ^ 64 in
    let hot_set = hot_set_size size hot_set_share in
    if nat_beq size 0
    then some []
    else if nat_beq total_count 0
    then some []
    else if is_positive hot_share
    then (do
      first ← push_rows dataset 0 hot_set 0 hot
      second ←
          (if nat_beq (size - hot_set) 0
            then push_rows dataset 0 hot_set 0 cold
            else push_rows dataset hot_set (size - hot_set) 0 cold)
      some (first ++ second))
    else push_rows dataset 0 size 0 total_count
