-- ===== src/Client/Workload/Rows.antt =====
-- A dataset file written and read back, and the rows that a loop of `BuildSkewedWorkload` takes:
-- src/client/client.cpp.
use crown_kv.Common.{
  ◌≡◌, ◌≢◌, refl, arith, true, some, List, [], ◌∷◌, ◌++◌, Text, length, take-append, All, All-mono,
}
use crown_kv.Address.{find_first}
use crown_kv.Address.RoundTrip.{find_first-append, drop-split}
use crown_kv.Client.Workload.{Row, extend, lines, read_rows, load_dataset_csv}

-- A key without a comma or a line end, and a value without a line end.
abbrev pub IsRow : Row → Type 0
IsRow row = All (λ c. (c ≢ b',') × (c ≢ 10)) row.0 × All (λ c. c ≢ 10) row.1

abbrev row_text : Row → Text
row_text row = row.0 ++ b',' ∷ row.1

-- The file: each line with its end.
abbrev pub rows_text : List Row → Text
rows_text [] = []
rows_text (row ∷ rows) = row_text row ++ 10 ∷ rows_text rows

lines-append : (line t : Text) → All (λ c. c ≢ 10) line → lines (line ++ 10 ∷ t) ≡ line ∷ lines t
unfolding lines extend
lines-append [] t h = ground arith
lines-append (c ∷ line) t h = ground (arith, lines-append line t h.1, h.0)

row_text-line : (row : Row) → IsRow row → All (λ c. c ≢ 10) (row_text row)
row_text-line ([], value) h = (omega arith, h.1)
row_text-line (c ∷ key, value) h = (h.0.0.1, row_text-line (key, value) (h.0.1, h.1))

row_text-key : (row : Row) → IsRow row → find_first b',' (row_text row) ≡ some (length row.0)
row_text-key (key, value) h = find_first-append b',' key value (All-mono (λ c k. k.0) key h.0)

read_rows-lines : (rows : List Row) → All IsRow rows → read_rows (lines (rows_text rows)) ≡ rows
unfolding read_rows lines
read_rows-lines [] h = refl
read_rows-lines (row ∷ rows) (h, hs) =
    rw
      (
        lines-append (row_text row) (rows_text rows) (row_text-line row h),
        read_rows,
        row_text-key row h,
        read_rows-lines rows hs,
        take-append row.0 (b',' ∷ row.1),
        drop-split row.0 b',' row.1,
      )
      refl

-- A dataset file, a header line and then at least one row KEY,VALUE a line, is read back as its
-- rows. The header and the values have no line end, and the keys neither a line end nor a comma.
pub load_dataset_csv-rows_text :
    (header : Text) (row : Row) (rows out : List Row)
    → All (λ c. c ≢ 10) header
    → All IsRow (row ∷ rows)
    → load_dataset_csv (some (header ++ 10 ∷ rows_text (row ∷ rows))) out ≡ (true, row ∷ rows)
unfolding load_dataset_csv
load_dataset_csv-rows_text header row rows out h hs =
    rw (lines-append header (rows_text (row ∷ rows)) h, read_rows-lines (row ∷ rows) hs) refl
