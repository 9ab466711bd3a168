-- ===== src/Base/Decimal.antt =====
-- `strconv.Itoa`: decimal digits, most significant first.
use Prim.Native.Nat.{ℕ, zero, suc, ◌+◌, ◌-◌, ◌*◌, ◌/◌, ◌%◌, ◌<◌}
use mathlib.Core.Path.{◌≡◌, refl, ap}
use mathlib.Core.Bool.{Bool, true}
use mathlib.Core.List.{[], ◌∷◌, ◌++◌}
use native.Mathlib.Omega.{arith}
use shimux.Base.Int.{ℤ, pos, negsuc}
use shimux.Base.Lists.{all, all-append}
use shimux.Base.Tests.{ltb, within, if◌then◌else◌}
use shimux.Base.Text.{Bytes}

unfoldable pub is_digit : ℕ → Bool
is_digit c = within b'0' b'9' c

-- Fuel `n + 1` is enough: each round divides by ten.
digits : ℕ → ℕ → Bytes
digits zero n = []
digits (suc fuel) n =
    let more = digits fuel (n / 10) ++ (b'0' + n % 10) ∷ [] in
    if ltb n 10 then (b'0' + n) ∷ [] else more

unfoldable pub decimal : ℕ → Bytes
unfolding digits
decimal n = digits (suc n) n

unfoldable pub itoa : ℤ → Bytes
unfolding decimal
itoa (pos n) = decimal n
itoa (negsuc n) = b'-' ∷ decimal (suc n)

pub itoa-pos : (n : ℕ) → itoa (pos n) ≡ decimal n
unfolding itoa
itoa-pos n = refl

-- The number that a text of digits stands for, after `acc`.
unfoldable pub value_from : ℕ → Bytes → ℕ
value_from acc [] = acc
value_from acc (c ∷ cs) = value_from (acc * 10 + (c - b'0')) cs

value_from-append :
    (acc : ℕ) (xs ys : Bytes) → value_from acc (xs ++ ys) ≡ value_from (value_from acc xs) ys
unfolding value_from
value_from-append acc [] ys = refl
value_from-append acc (x ∷ xs) ys = value_from-append (acc * 10 + (x - b'0')) xs ys

value-digits : (fuel n : ℕ) → n < fuel → value_from 0 (digits fuel n) ≡ n
unfolding digits value_from
value-digits zero n h = elim h [ ]
value-digits (suc fuel) n h = ground (
  arith,
  value_from-append 0 (digits fuel (n / 10)) ((b'0' + n % 10) ∷ []),
  value-digits fuel (n / 10),
)

pub value-decimal : (n : ℕ) → value_from 0 (decimal n) ≡ n
unfolding decimal
value-decimal n = value-digits (suc n) n (omega arith)

pub decimal_inj : (a b : ℕ) → decimal a ≡ decimal b → a ≡ b
decimal_inj a b e = omega (arith, ap (value_from 0) e, value-decimal a, value-decimal b)

digits-is_digit : (fuel n : ℕ) → all is_digit (digits fuel n) ≡ true
unfolding digits is_digit
digits-is_digit zero n = refl
digits-is_digit (suc fuel) n = ground (
  arith,
  digits-is_digit fuel (n / 10),
  all-append is_digit (digits fuel (n / 10)) ((b'0' + n % 10) ∷ []),
)

pub decimal-is_digit : (n : ℕ) → all is_digit (decimal n) ≡ true
unfolding decimal
decimal-is_digit n = digits-is_digit (suc n) n

itoa_runs : itoa (negsuc 1023) ≡ b'-' ∷ b'1' ∷ b'0' ∷ b'2' ∷ b'4' ∷ []
unfolding itoa
itoa_runs = refl
