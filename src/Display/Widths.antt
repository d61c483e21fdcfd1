-- ===== src/Display/Widths.antt =====
-- How many columns the lines of the boxes take.
use Prim.Native.String.{String, ◌++◌, len, count}
use text.Mathlib.TextLemmas.{length-append}
use c_web_socket_client_with.Prelude.{
  ℕ, zero, suc, ◌+◌, ◌-◌, ◌≤◌, ◌≡◌, refl, ap, ap₂, ◌∙◌, List, [], ◌∷◌, arith,
}
use c_web_socket_client_with.Display.{spaces, setw_left, setw_right}
use c_web_socket_client_with.Display.Report.{Figures, report_box}
use c_web_socket_client_with.Display.Tables.{throughput_box, Cells, size_line}

-- The text has no more than `n` bytes, one for each column.
abbrev pub IsNarrow : ℕ → String → Type 0
IsNarrow n s = (count s ≡ len s) × (len s ≤ n)

pub count-spaces : (n : ℕ) → count (spaces n) ≡ n
unfolding spaces
count-spaces zero = refl
count-spaces (suc n) = length-append " " (spaces n) ∙ omega (arith, count-spaces n)

count-setw_left : (n : ℕ) (s : String) → IsNarrow n s → count (setw_left n s) ≡ n
count-setw_left n s h =
    length-append s (spaces (n - len s)) ∙ omega (arith, h.0, h.1, count-spaces (n - len s))

count-setw_right : (n : ℕ) (s : String) → IsNarrow n s → count (setw_right n s) ≡ n
count-setw_right n s h =
    length-append (spaces (n - len s)) s ∙ omega (arith, h.0, h.1, count-spaces (n - len s))

-- A field between two texts.
count-line :
    (a b : String) (n : ℕ) (s : String)
    → IsNarrow n s
    → count (a ++ (setw_left n s ++ b)) ≡ count a + (n + count b)
count-line a b n s h =
    length-append a (setw_left n s ++ b)
    ∙ ap (λ x. count a + x) (length-append (setw_left n s) b)
    ∙ omega (arith, count-setw_left n s h)

count-cell :
    (a b : String) (n : ℕ) (s : String)
    → IsNarrow n s
    → count (a ++ (setw_right n s ++ b)) ≡ count a + (n + count b)
count-cell a b n s h =
    length-append a (setw_right n s ++ b)
    ∙ ap (λ x. count a + x) (length-append (setw_right n s) b)
    ∙ omega (arith, count-setw_right n s h)

abbrev pub widths : List String → List ℕ
widths [] = []
widths (l ∷ ls) = count l ∷ widths ls

pub cons_eq : {m n : ℕ} {ms ns : List ℕ} → m ≡ n → ms ≡ ns → m ∷ ms ≡ n ∷ ns
cons_eq e es = ap₂ (λ x xs. x ∷ xs) e es

-- Every figure fits its field.
pub record AreNarrow (f : Figures) : Type 0 where
  pub samples : IsNarrow 32 f.samples
  pub min : IsNarrow 28 f.min
  pub max : IsNarrow 28 f.max
  pub mean : IsNarrow 28 f.mean
  pub stddev : IsNarrow 28 f.stddev
  pub median : IsNarrow 28 f.median
  pub p95 : IsNarrow 28 f.p95
  pub p99 : IsNarrow 28 f.p99
  pub p999 : IsNarrow 28 f.p999

-- The box of a report whose label and figures fit their fields has a right edge that is out of line:
-- the lines of the nine figures are one column shorter than the label's line and the borders.
pub report_box-widths :
    (label : String) (f : Figures)
    → IsNarrow 43 label
    → AreNarrow f
    → widths (report_box label f)
      ≡ 47 ∷ 47 ∷ 47 ∷ 46 ∷ 46 ∷ 46 ∷ 46 ∷ 46 ∷ 46 ∷ 46 ∷ 46 ∷ 46 ∷ 47 ∷ []
report_box-widths label f l h = cons_eq refl (
    cons_eq (count-line "│ " " │" 43 label l) (
      cons_eq refl (
        cons_eq (count-line "│  Samples : " "│" 32 f.samples h.samples) (
          cons_eq (count-line "│  Min     : " " µs │" 28 f.min h.min) (
            cons_eq (count-line "│  Max     : " " µs │" 28 f.max h.max) (
              cons_eq (count-line "│  Mean    : " " µs │" 28 f.mean h.mean) (
                cons_eq (count-line "│  StdDev  : " " µs │" 28 f.stddev h.stddev) (
                  cons_eq (count-line "│  Median  : " " µs │" 28 f.median h.median) (
                    cons_eq (count-line "│  p95     : " " µs │" 28 f.p95 h.p95) (
                      cons_eq (count-line "│  p99     : " " µs │" 28 f.p99 h.p99) (
                        cons_eq (count-line "│  p99.9   : " " µs │" 28 f.p999 h.p999)
                          refl)))))))))))

-- The box of the throughput benchmark: the lines of the title and of the throughput are one column
-- longer than the others.
pub throughput_box-widths :
    (messages total_ms msgs_per_sec interval_us : String)
    → IsNarrow 28 messages
    → IsNarrow 24 total_ms
    → IsNarrow 22 msgs_per_sec
    → IsNarrow 24 interval_us
    → widths (throughput_box messages total_ms msgs_per_sec interval_us)
      ≡ 47 ∷ 48 ∷ 47 ∷ 47 ∷ 47 ∷ 48 ∷ 47 ∷ 47 ∷ []
throughput_box-widths m t p i hm ht hp hi = cons_eq refl (
    cons_eq refl (
      cons_eq refl (
        cons_eq (count-line "│  Messages     : " "│" 28 m hm) (
          cons_eq (count-line "│  Total time   : " " ms │" 24 t ht) (
            cons_eq (count-line "│  Throughput   : " " msg/s │" 22 p hp)
              (cons_eq (count-line "│  Avg interval : " " µs │" 24 i hi) refl))))))

-- The lines of the table of message sizes have the 55 columns of its borders.
pub size_line-width :
    (c : Cells)
    → IsNarrow 5 c.size
    → IsNarrow 8 c.min
    → IsNarrow 8 c.mean
    → IsNarrow 8 c.p99
    → IsNarrow 8 c.max
    → count (size_line c) ≡ 55
size_line-width c hs hm ha hp hx =
    let t4 = " │ " ++ (setw_right 8 c.max ++ " │") in
    let t3 = " │ " ++ (setw_right 8 c.p99 ++ t4) in
    let t2 = " │ " ++ (setw_right 8 c.mean ++ t3) in
    let t1 = " │ " ++ (setw_right 8 c.min ++ t2) in
    omega (
      arith,
      count-cell "│ " (" B" ++ t1) 5 c.size hs,
      length-append " B" t1,
      count-cell " │ " t2 8 c.min hm,
      count-cell " │ " t3 8 c.mean ha,
      count-cell " │ " t4 8 c.p99 hp,
      count-cell " │ " " │" 8 c.max hx,
    )
