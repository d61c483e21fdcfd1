-- ===== src/Display/Drawn.antt =====
-- That `print_system_info` of src/main.cpp draws its box.
use Prim.Native.String.{String, ◌++◌, len, count}
use text.Mathlib.TextLemmas.{length-append}
use c_web_socket_client_with.Prelude.{
  ℕ, ◌+◌, ◌-◌, ◌/◌, ◌≤◌, ◌≡◌, refl, some, List, [], ◌∷◌, arith, le→leb,
}
use c_web_socket_client_with.Client.{queue_capacity}
use c_web_socket_client_with.Prelude.Decimal.{to_string, digits, count-to_string}
use c_web_socket_client_with.Display.{spaces, padding}
use c_web_socket_client_with.Display.System.{
  Numbers, numbers, system_lines, system_info, print_system_info,
}
use c_web_socket_client_with.Display.Widths.{IsNarrow, count-spaces, cons_eq, widths}

-- Two texts and what pads them.
count-padded :
    (a s m t b : String) (n : ℕ)
    → count s ≡ len s
    → count t ≡ len t
    → len s + len t ≤ n
    → count (a ++ (s ++ (m ++ (t ++ (b ++ (spaces (n - (len s + len t)) ++ "║"))))))
      ≡ count a + count m + count b + n + 1
count-padded a s m t b n hs ht le =
    let p = spaces (n - (len s + len t)) in
    omega (
      arith,
      length-append a (s ++ (m ++ (t ++ (b ++ (p ++ "║"))))),
      length-append s (m ++ (t ++ (b ++ (p ++ "║")))),
      length-append m (t ++ (b ++ (p ++ "║"))),
      length-append t (b ++ (p ++ "║")),
      length-append b (p ++ "║"),
      length-append p "║",
      count-spaces (n - (len s + len t)),
    )

padding-some : (n size : ℕ) → size ≤ n → padding n size ≡ some (spaces (n - size))
padding-some n size h = rw (le→leb size n h) refl

-- Every number fits its line.
pub record AreShort (n : Numbers) : Type 0 where
  pub cores : IsNarrow 28 n.cores
  pub capacity : IsNarrow 28 n.capacity
  pub buffer_kb : IsNarrow 25 n.buffer_kb
  pub blocks : count n.blocks ≡ len n.blocks
  pub block_size : count n.block_size ≡ len n.block_size
  pub pool : len n.blocks + len n.block_size ≤ 22

one_number :
    (a s : String) (n : ℕ)
    → IsNarrow n s
    → count (a ++ (s ++ (spaces (n - len s) ++ "║"))) ≡ count a + n + 1
one_number a s n h =
    let p = spaces (n - len s) in
    omega (
      arith,
      h.0,
      h.1,
      length-append a (s ++ (p ++ "║")),
      length-append s (p ++ "║"),
      length-append p "║",
      count-spaces (n - len s),
    )

one_text :
    (a s b : String) (n : ℕ)
    → IsNarrow n s
    → count (a ++ (s ++ (b ++ (spaces (n - len s) ++ "║")))) ≡ count a + count b + n + 1
one_text a s b n h =
    let p = spaces (n - len s) in
    omega (
      arith,
      h.0,
      h.1,
      length-append a (s ++ (b ++ (p ++ "║"))),
      length-append s (b ++ (p ++ "║")),
      length-append b (p ++ "║"),
      length-append p "║",
      count-spaces (n - len s),
    )

-- If the numbers fit their lines.
system_info-widths :
    (n : Numbers)
    → AreShort n
    → (ls : List String) × (system_info n ≡ some ls)
      × (widths ls ≡ 48 ∷ 47 ∷ 48 ∷ 48 ∷ 48 ∷ 48 ∷ 47 ∷ 48 ∷ [])
unfolding system_info
system_info-widths n h = (
  system_lines n (spaces (28 - len n.cores)) (spaces (28 - len n.capacity))
      (spaces (25 - len n.buffer_kb)) (spaces (22 - (len n.blocks + len n.block_size))),
  rw
      (
        padding-some 28 (len n.cores) h.cores.1,
        padding-some 28 (len n.capacity) h.capacity.1,
        padding-some 25 (len n.buffer_kb) h.buffer_kb.1,
        padding-some 22 (len n.blocks + len n.block_size) h.pool,
      )
      refl,
  cons_eq refl (
      cons_eq refl (
        cons_eq refl (
          cons_eq (one_number "║  CPU cores     : " n.cores 28 h.cores) (
            cons_eq (one_number "║  Queue capacity: " n.capacity 28 h.capacity) (
              cons_eq (one_text "║  Read buffer   : " n.buffer_kb " KB" 25 h.buffer_kb) (
                cons_eq
                  (count-padded "║  Pool blocks   : " n.blocks " x " n.block_size " B" 22 h.blocks
                    h.block_size h.pool)
                  refl)))))),
)

two_numbers :
    (len (to_string 256) + len (to_string 4096) ≤ 22)
    × (count (to_string 256) ≡ len (to_string 256))
    × (count (to_string 4096) ≡ len (to_string 4096))
unfolding to_string digits
two_numbers = (omega arith, refl, refl)

numbers-AreShort : (cores : ℕ) → AreShort (numbers cores)
numbers-AreShort cores =
    let (narrow, short) = count-to_string cores in
    let (cn, cs) = count-to_string queue_capacity in
    let (bn, bs) = count-to_string (65536 / 1024) in
    record {
      cores = (narrow, omega (arith, short));
      capacity = (cn, omega (arith, cs));
      buffer_kb = (bn, omega (arith, bs));
      blocks = two_numbers.1;
      block_size = two_numbers.2;
      pool = two_numbers.0;
    }

-- The box of `print_system_info` is drawn on every machine, however many cores it has: no length that
-- it computes wraps around. Its right edge is out of line: the lines of the title and of the pool's
-- blocks have 47 columns, the others 48.
pub print_system_info-widths :
    (cores : ℕ)
    → (ls : List String) × (print_system_info cores ≡ some ls)
      × (widths ls ≡ 48 ∷ 47 ∷ 48 ∷ 48 ∷ 48 ∷ 48 ∷ 47 ∷ 48 ∷ [])
print_system_info-widths cores = system_info-widths (numbers cores) (numbers-AreShort cores)
