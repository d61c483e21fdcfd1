-- ===== src/Prelude/Decimal.antt =====
-- `std::to_string` of an unsigned number, and what its digits say.
use Prim.Native.Char.{code}
use Prim.Native.String.{String, ◌++◌, len, count}
use Prim.Native.Nat.{ℕ, zero, suc, ◌+◌, ◌-◌, ◌*◌, ◌/◌, ◌%◌, ◌^◌, ◌≤◌, ◌<◌}
use mathlib.Core.Path.{◌≡◌, refl, ◌∙◌}
use text.Mathlib.TextLemmas.{length-append, nil-append, cons-append}
use text.Mathlib.TextPositions.{len-append}
use native.Mathlib.Nat.{pow-suc}
use native.Mathlib.Omega.{arith}
use c_web_socket_client_with.Prelude.Tests.{
  ltb, if◌then◌else◌, Bool-cases, ltb→lt, ltb→ge, lt→ltb, ge→ltb,
}
use mathlib.Core.Logic.{inl, inr}

-- The digit of a number below ten.
abbrev pub digit : ℕ → String
digit zero = "0"
digit (suc zero) = "1"
digit (suc (suc zero)) = "2"
digit (suc (suc (suc zero))) = "3"
digit (suc (suc (suc (suc zero)))) = "4"
digit (suc (suc (suc (suc (suc zero))))) = "5"
digit (suc (suc (suc (suc (suc (suc zero)))))) = "6"
digit (suc (suc (suc (suc (suc (suc (suc zero))))))) = "7"
digit (suc (suc (suc (suc (suc (suc (suc (suc zero)))))))) = "8"
digit _ = "9"

-- At most `k` digits, the last ones.
unfoldable pub digits : (k n : ℕ) → String
digits zero n = ""
digits (suc k) n =
    let front = digits k (n / 10) in if ltb n 10 then digit n else front ++ digit (n % 10)

-- A number of 64 bits has at most 20 digits.
unfoldable pub to_string : ℕ → String
to_string n = digits 20 n

-- The number that the digits stand for, after `a`.
unfoldable pub value_from : ℕ → String → ℕ
value_from a String.[] = a
value_from a (String.◌∷◌ c s) = value_from (a * 10 + (code c - 48)) s

pub value_from-append :
    (a : ℕ) (s t : String) → value_from a (s ++ t) ≡ value_from (value_from a s) t
unfolding value_from
value_from-append a String.[] t = rw (nil-append t) refl
value_from-append a (String.◌∷◌ c s) t =
    rw (cons-append c s t) (value_from-append (a * 10 + (code c - 48)) s t)

value_from-digit : (a d : ℕ) → d < 10 → value_from a (digit d) ≡ a * 10 + d
unfolding value_from
value_from-digit a zero h = refl
value_from-digit a (suc zero) h = refl
value_from-digit a (suc (suc zero)) h = refl
value_from-digit a (suc (suc (suc zero))) h = refl
value_from-digit a (suc (suc (suc (suc zero)))) h = refl
value_from-digit a (suc (suc (suc (suc (suc zero))))) h = refl
value_from-digit a (suc (suc (suc (suc (suc (suc zero)))))) h = refl
value_from-digit a (suc (suc (suc (suc (suc (suc (suc zero))))))) h = refl
value_from-digit a (suc (suc (suc (suc (suc (suc (suc (suc zero)))))))) h = refl
value_from-digit a (suc (suc (suc (suc (suc (suc (suc (suc (suc zero))))))))) h = refl
value_from-digit a (suc (suc (suc (suc (suc (suc (suc (suc (suc (suc d)))))))))) h =
    absurd (omega arith)

digits_below : (k n : ℕ) → n < 10 → digits (suc k) n ≡ digit n
unfolding digits
digits_below k n h = rw (lt→ltb n 10 h) refl

digits_above : (k n : ℕ) → 10 ≤ n → digits (suc k) n ≡ digits k (n / 10) ++ digit (n % 10)
unfolding digits
digits_above k n h = rw (ge→ltb n 10 h) refl

tenth-lt : (k n : ℕ) → n < 10 ^ suc k → n / 10 < 10 ^ k
tenth-lt k n h = omega (arith, pow-suc 10 k, h)

value_from-no_digits : (n : ℕ) → n < 1 → value_from 0 (digits zero n) ≡ n
unfolding value_from digits
value_from-no_digits n h = omega (arith, h)

-- Digits enough give the number back.
value_from-digits : (k n : ℕ) → n < 10 ^ k → value_from 0 (digits k n) ≡ n
unfolding value_from
value_from-digits zero n h = value_from-no_digits n h
value_from-digits (suc k) n h = elim (Bool-cases (ltb n 10)) [
  | inl e ↦
      rw (digits_below k n (ltb→lt n 10 e)) (value_from-digit 0 n (ltb→lt n 10 e) ∙ omega arith)
  | inr e ↦ rw (digits_above k n (ltb→ge n 10 e)) (
      value_from-append 0 (digits k (n / 10)) (digit (n % 10))
      ∙ value_from-digit _ (n % 10) (omega arith)
      ∙ omega (arith, value_from-digits k (n / 10) (tenth-lt k n h)))
]

abbrev IsOneByte : String → Type 0
IsOneByte s = (count s ≡ 1) × (len s ≡ 1)

digit-IsOneByte : (d : ℕ) → IsOneByte (digit d)
digit-IsOneByte zero = (refl, refl)
digit-IsOneByte (suc zero) = (refl, refl)
digit-IsOneByte (suc (suc zero)) = (refl, refl)
digit-IsOneByte (suc (suc (suc zero))) = (refl, refl)
digit-IsOneByte (suc (suc (suc (suc zero)))) = (refl, refl)
digit-IsOneByte (suc (suc (suc (suc (suc zero))))) = (refl, refl)
digit-IsOneByte (suc (suc (suc (suc (suc (suc zero)))))) = (refl, refl)
digit-IsOneByte (suc (suc (suc (suc (suc (suc (suc zero))))))) = (refl, refl)
digit-IsOneByte (suc (suc (suc (suc (suc (suc (suc (suc zero)))))))) = (refl, refl)
digit-IsOneByte (suc (suc (suc (suc (suc (suc (suc (suc (suc d))))))))) = (refl, refl)

count-no_digits :
    (n : ℕ) → (count (digits zero n) ≡ len (digits zero n)) × (len (digits zero n) ≤ 0)
unfolding digits
count-no_digits n = (refl, omega arith)

-- Digits take one byte each, and are no more than asked for.
pub count-digits : (k n : ℕ) → (count (digits k n) ≡ len (digits k n)) × (len (digits k n) ≤ k)
count-digits zero n = count-no_digits n
count-digits (suc k) n = elim (Bool-cases (ltb n 10)) [
  | inl e ↦
      rw (digits_below k n (ltb→lt n 10 e))
        (omega (arith, digit-IsOneByte n), omega (arith, digit-IsOneByte n))
  | inr e ↦ rw (digits_above k n (ltb→ge n 10 e)) (appended (count-digits k (n / 10)))
]
  where
    appended :
        (count (digits k (n / 10)) ≡ len (digits k (n / 10))) × (len (digits k (n / 10)) ≤ k)
        → (count (digits k (n / 10) ++ digit (n % 10)) ≡ len (digits k (n / 10) ++ digit (n % 10)))
          × (len (digits k (n / 10) ++ digit (n % 10)) ≤ suc k)
    appended h =
        let one = digit-IsOneByte (n % 10) in
        let c = length-append (digits k (n / 10)) (digit (n % 10)) in
        let l = len-append (digits k (n / 10)) (digit (n % 10)) in
        (omega (arith, h, one, c, l), omega (arith, h, one, l))

-- A number of 64 bits is read back from its decimal text.
pub value_from-to_string : (n : ℕ) → n < 2 ^ 64 → value_from 0 (to_string n) ≡ n
unfolding to_string
value_from-to_string n h = value_from-digits 20 n (omega arith)

pub count-to_string : (n : ℕ) → (count (to_string n) ≡ len (to_string n)) × (len (to_string n) ≤ 20)
unfolding to_string
count-to_string n = count-digits 20 n
