-- ===== src/Client/Workload/Shares.antt =====
-- The workload that `BuildSkewedWorkload` of src/client/client.cpp builds.
use native.Mathlib.Nat.{mod-lt, mod-eq_of_lt, mul-le-mul_left}
use crown_kv.Common.{
  ℕ, zero, suc, ◌+◌, ◌-◌, ◌*◌, ◌/◌, ◌%◌, ◌^◌, ◌≤◌, ◌<◌, ◌≡◌, refl, inl, inr, arith, true, false,
  Bool-cases, if◌then◌else◌, nat_beq, nat_beq_iff, ltb-false, some, List, [], ◌∷◌, ◌++◌, length,
  length-append, get_elem?, get_elem?-some, All, pos,
}
use crown_kv.Client.Workload.{Row, push_rows, hot_count, hot_set_size, build_skewed_workload}

-- The row stands at one of `size` places from `base`.
abbrev pub IsAt : List Row → ℕ → ℕ → Row → Type 0
IsAt dataset base size row = (j : ℕ) × (j < size) × (get_elem? dataset (base + j) ≡ some row)

abbrev pub ArePushed : List Row → ℕ → ℕ → ℕ → List Row → Type 0
ArePushed dataset base size count rows = (length rows ≡ count) × All (IsAt dataset base size) rows

push_rows-ArePushed :
    (dataset : List Row) (base size i count : ℕ)
    → 0 < size
    → base + size ≤ length dataset
    → (rows : List Row) × (push_rows dataset base size i count ≡ some rows)
      × ArePushed dataset base size count rows
unfolding push_rows
push_rows-ArePushed dataset base size i zero h k = ([], refl, (refl, tt))
push_rows-ArePushed dataset base size i (suc count) h k =
    let small = mod-lt i h in
    let (row, at) = get_elem?-some dataset (base + i % size) (omega (arith, small)) in
    let (rows, e, (n, a)) = push_rows-ArePushed dataset base size (i + 1) count h k in
    (row ∷ rows, rw (at, e) refl, (omega (arith, n), ((i % size, small, at), a)))

-- The hot writes first, from the hot rows, then the others, from the rows that are left.
abbrev pub IsWorkload : List Row → ℕ → ℕ → ℕ → List Row → Type 0
IsWorkload dataset total hot hot_set w =
    let size = length dataset in
    (first : List Row) × (second : List Row) × (w ≡ first ++ second)
    × ArePushed dataset 0 hot_set hot first
    × (if nat_beq hot_set size
        then ArePushed dataset 0 size (total - hot) second
        else ArePushed dataset hot_set (size - hot_set) (total - hot) second)

-- A share of n, of at least 1 if there is one at all.
abbrev pub share : ℕ → ℕ → ℕ
share n zero = 0
share n percent = if nat_beq (n * percent / 100) 0 then 1 else n * percent / 100

-- The hot rows, if any writes are hot.
abbrev pub hot_rows : ℕ → ℕ → ℕ → ℕ
hot_rows n zero hot_set_share = 0
hot_rows n (suc _) hot_set_share = share n hot_set_share

product_le : (n percent : ℕ) → percent ≤ 100 → n * percent ≤ n * 100
product_le n percent h = mul-le-mul_left n h

share_le : (n percent : ℕ) → 0 < n → percent ≤ 100 → share n percent ≤ n
share_le n zero h k = omega arith
share_le n (suc percent) h k =
    let small : n * suc percent / 100 ≤ n = omega (arith, product_le n (suc percent) k) in
    ground (arith, small)

share-positive : (n percent : ℕ) → 0 < percent → 0 < share n percent
share-positive n zero h = absurd (omega arith)
share-positive n (suc percent) h = ground arith

hot_count-share :
    (total percent : ℕ)
    → total * 100 < 2 ^ 64
    → suc percent ≤ 100
    → hot_count total (pos (suc percent)) ≡ share total (suc percent)
unfolding hot_count
hot_count-share total percent h k =
    let fits : total * suc percent < 2 ^ 64 = omega (arith, product_le total (suc percent) k) in
    rw (mod-eq_of_lt fits) refl

hot_set_size-share :
    (size percent : ℕ)
    → 0 < size
    → size * 100 < 2 ^ 64
    → 0 < percent
    → percent ≤ 100
    → hot_set_size size (pos percent) ≡ share size percent
unfolding hot_set_size
hot_set_size-share size zero h l p k = absurd (omega arith)
hot_set_size-share size (suc percent) h l p k =
    let fits : size * suc percent < 2 ^ 64 = omega (arith, product_le size (suc percent) k) in
    rw
      (
        mod-eq_of_lt fits,
        ltb-false size (share size (suc percent)) (share_le size (suc percent) h k),
      )
      refl

-- The cold rows, or all rows if none is cold.
cold_rows :
    (dataset : List Row) (hot_set cold : ℕ)
    → 0 < length dataset
    → hot_set ≤ length dataset
    → let size = length dataset in
      (second : List Row) × ((if nat_beq (size - hot_set) 0
          then push_rows dataset 0 hot_set 0 cold
          else push_rows dataset hot_set (size - hot_set) 0 cold)
        ≡ some second)
      × (length second ≡ cold)
      × (if nat_beq hot_set size
          then ArePushed dataset 0 size cold second
          else ArePushed dataset hot_set (size - hot_set) cold second)
cold_rows dataset hot_set cold h k = elim (Bool-cases (nat_beq hot_set (length dataset))) [
  | inl e ↦
      let same : hot_set ≡ length dataset = (nat_beq_iff hot_set (length dataset)).0 e in
      let none_left : nat_beq (length dataset - hot_set) 0 ≡ true = ground (arith, same) in
      let (second, f, g) = push_rows-ArePushed dataset 0 (length dataset) 0 cold h (omega arith) in
      rw (none_left, e, same) (second, f, g.0, g)
  | inr e ↦
      let some_left : nat_beq (length dataset - hot_set) 0 ≡ false = ground arith in
      let (second, f, g) =
        push_rows-ArePushed dataset hot_set (length dataset - hot_set) 0 cold (ground arith)
          (omega arith) in
      rw (some_left, e) (second, f, g.0, g)
]

-- For shares of at most 100 per cent, a hot set of at least 1 per cent, a dataset and a number of
-- writes that are not empty and fit 64 bits when multiplied by 100, the workload reads no row
-- outside the dataset and has that many rows: first the hot writes, of rows from the hot set, then
-- the others, of the rows after it, or of any rows if it is the whole dataset. With no hot share
-- there are no hot writes.
pub build_skewed_workload-IsWorkload :
    (dataset : List Row) (total hot_share hot_set_share : ℕ)
    → 0 < length dataset
    → 0 < total
    → hot_share ≤ 100
    → 0 < hot_set_share
    → hot_set_share ≤ 100
    → total * 100 < 2 ^ 64
    → length dataset * 100 < 2 ^ 64
    → (w : List Row) × (build_skewed_workload dataset total (pos hot_share) (pos hot_set_share)
        ≡ some w)
      × (length w ≡ total)
      × IsWorkload dataset total
          (share total hot_share)
          (hot_rows (length dataset) hot_share hot_set_share)
          w
unfolding build_skewed_workload hot_count hot_set_size
build_skewed_workload-IsWorkload dataset total zero hot_set_share a b c d e f g =
    let (w, p, q) = push_rows-ArePushed dataset 0 (length dataset) 0 total a (omega arith) in
    (w, ground (arith, p), q.0, ([], w, refl, (refl, tt), ground (arith, q)))
build_skewed_workload-IsWorkload dataset total (suc hot_share) hot_set_share a b c d e f g =
    let hot = share total (suc hot_share) in
    let hot_set = share (length dataset) hot_set_share in
    let hot_le = share_le total (suc hot_share) b c in
    let hot_set_le = share_le (length dataset) hot_set_share a e in
    let (first, p, q) =
      push_rows-ArePushed dataset 0 hot_set 0 hot (share-positive (length dataset) hot_set_share d)
        (omega (arith, hot_set_le)) in
    let (second, r, n, t) = cold_rows dataset hot_set (total - hot) a hot_set_le in
    let some_rows : nat_beq (length dataset) 0 ≡ false = ground (arith, a) in
    let some_writes : nat_beq total 0 ≡ false = ground (arith, b) in
    let cold : (total + 2 ^ 64 - hot) % 2 ^ 64 ≡ total - hot = omega (arith, hot_le, f) in
    (
      first ++ second,
      rw
          (
            hot_count-share total hot_share f c,
            hot_set_size-share (length dataset) hot_set_share a g d e,
            some_rows,
            some_writes,
            cold,
            p,
            r,
          )
          refl,
      omega (arith, length-append first second, q.0, n, hot_le),
      (first, second, refl, q, t),
    )
