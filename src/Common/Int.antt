-- ===== src/Common/Int.antt =====
-- Go's `int` and `int32`: whole numbers, `int32(p)` with its wrap-around, `strconv.Itoa` and
-- `strconv.Atoi` for a 64-bit `int`.
use Prim.Native.Nat.{ℕ, zero, suc, ◌+◌, ◌-◌, ◌*◌, ◌/◌, ◌%◌, ◌^◌, ◌≤◌}
use Prim.Native.Char.{code}
use Prim.Native.String.{String}
use mathlib.Core.Path.{◌≡◌, refl}
use mathlib.Core.Logic.{◌↔◌}
use mathlib.Core.Bool.{Bool, true, false, ◌&&◌}
use mathlib.Core.Option.{Option, none, some}
use native.Mathlib.Omega.{arith}
use nghttpx_ingress_lb.Common.Cond.{ltb, leb, ◌==◌, if◌then◌else◌}
use nghttpx_ingress_lb.Common.Text.{◌<>◌}

-- `negsuc n` is -(n + 1).
pub data ℤ : Type 0 where
  pos : ℕ → ℤ
  negsuc : ℕ → ℤ

infix 50 ◌=i◌
abbrev pub ◌=i◌ : ℤ → ℤ → Bool
pos m =i pos n = m == n
pos m =i negsuc n = false
negsuc m =i pos n = false
negsuc m =i negsuc n = m == n

pub =i_iff : (a b : ℤ) → ((a =i b) ≡ true) ↔ (a ≡ b)
=i_iff a b = ground arith

-- A residue modulo 2^32, read as an `int32`.
abbrev of_u32 : ℕ → ℤ
of_u32 u = if ltb u (2 ^ 31) then pos u else negsuc (2 ^ 32 - 1 - u)

-- `int32(p)`
unfoldable pub to_int32 : ℤ → ℤ
to_int32 (pos n) = of_u32 (n % 2 ^ 32)
to_int32 (negsuc n) = of_u32 (2 ^ 32 - 1 - n % 2 ^ 32)

-- The values that an `int32` has.
abbrev pub IsInt32 : ℤ → Type 0
IsInt32 (pos n) = suc n ≤ 2 ^ 31
IsInt32 (negsuc n) = suc n ≤ 2 ^ 31

pub to_int32_of_IsInt32 : (p : ℤ) → IsInt32 p → to_int32 p ≡ p
unfolding to_int32
to_int32_of_IsInt32 (pos n) h = ground arith
to_int32_of_IsInt32 (negsuc n) h = ground arith

digit : ℕ → String
digit d =
    if d == 0
    then "0"
    else if d == 1
    then "1"
    else if d == 2
    then "2"
    else if d == 3
    then "3"
    else if d == 4
    then "4"
    else if d == 5
    then "5"
    else if d == 6
    then "6"
    else if d == 7
    then "7"
    else if d == 8
    then "8"
    else "9"

-- The decimal digits of `n` in front of `acc`; `n + 1` rounds are enough.
digits : ℕ → ℕ → String → String
unfolding digit
digits zero n acc = acc
digits (suc f) n acc =
    let rest = digits f (n / 10) (digit (n % 10) <> acc) in
    if ltb n 10 then digit n <> acc else rest

-- `strconv.Itoa`
unfoldable pub itoa : ℤ → String
unfolding digits
itoa (pos n) = digits (suc n) n ""
itoa (negsuc n) = "-" <> digits (suc (suc n)) (suc n) ""

-- The number that a text of digits denotes, after `acc`.
parse_digits : ℕ → String → Option ℕ
parse_digits acc String.[] = some acc
parse_digits acc (String.◌∷◌ c s) =
    let rest = parse_digits (acc * 10 + (code c - b'0')) s in
    if leb b'0' (code c) && leb (code c) b'9' then rest else none

unsigned : String → Option ℕ
unfolding parse_digits
unsigned String.[] = none
unsigned (String.◌∷◌ c s) = parse_digits 0 (String.◌∷◌ c s)

in_range_pos : Option ℕ → Option ℤ
in_range_pos none = none
in_range_pos (some n) = if ltb n (2 ^ 63) then some (pos n) else none

in_range_neg : Option ℕ → Option ℤ
in_range_neg none = none
in_range_neg (some zero) = some (pos 0)
in_range_neg (some (suc n)) = if ltb n (2 ^ 63) then some (negsuc n) else none

-- `strconv.Atoi`; `none` is its error
unfoldable pub atoi : String → Option ℤ
unfolding unsigned in_range_pos in_range_neg
atoi String.[] = none
atoi (String.◌∷◌ c s) =
    if code c == b'-'
    then in_range_neg (unsigned s)
    else if code c == b'+'
    then in_range_pos (unsigned s)
    else in_range_pos (unsigned (String.◌∷◌ c s))

atoi_runs :
    (atoi (itoa (pos 8080)) ≡ some (pos 8080))
    × (atoi "-17" ≡ some (negsuc 16))
    × (atoi "http" ≡ none)
    × (atoi "9223372036854775808" ≡ none)
unfolding atoi itoa
atoi_runs = (refl, refl, refl, refl)
