-- ===== src/Hash/Or.antt =====
-- `bit_or` at variables, from the digit recursion that the native operation stands for.
use Prim.Native.Nat.{max, bit_or, digits, bit_or-bitwise}
use ommo_sdk_external.Prelude.{ℕ, zero, suc, ◌+◌, ◌*◌, ◌/◌, ◌%◌, ◌<◌, ◌≤◌, ◌≡◌, refl, ap₂, arith}

abbrev or_digits : ℕ → ℕ → ℕ → ℕ
or_digits n a b = digits (λ b. b) max n a b

or_digits_fuel : (n m a b : ℕ) → a ≤ n → a ≤ m → or_digits n a b ≡ or_digits m a b
or_digits_fuel zero zero a b p q = refl
or_digits_fuel zero (suc m) zero b p q = refl
or_digits_fuel zero (suc m) (suc a) b p q = absurd (omega arith)
or_digits_fuel (suc n) zero zero b p q = refl
or_digits_fuel (suc n) zero (suc a) b p q = absurd (omega arith)
or_digits_fuel (suc n) (suc m) zero b p q = refl
or_digits_fuel (suc n) (suc m) (suc a) b p q =
    omega (arith, or_digits_fuel n m (suc a / 2) (b / 2) (omega arith) (omega arith))

zero-bit_or : (b : ℕ) → bit_or 0 b ≡ b
zero-bit_or b = bit_or-bitwise 0 b

bit_or_step : (a b : ℕ) → bit_or a b ≡ bit_or (a / 2) (b / 2) * 2 + max (a % 2) (b % 2)
bit_or_step zero b = omega (arith, zero-bit_or b, zero-bit_or (b / 2))
bit_or_step (suc a) b = omega (
  arith,
  bit_or-bitwise (suc a) b,
  bit_or-bitwise (suc a / 2) (b / 2),
  or_digits_fuel a (suc a / 2) (suc a / 2) (b / 2) (omega arith) (omega arith),
)

bit_or-zero_fuel : (n a : ℕ) → a ≤ n → bit_or a 0 ≡ a
bit_or-zero_fuel n zero h = zero-bit_or 0
bit_or-zero_fuel zero (suc a) h = absurd (omega arith)
bit_or-zero_fuel (suc n) (suc a) h =
    omega (arith, bit_or_step (suc a) 0, bit_or-zero_fuel n (suc a / 2) (omega arith))

pub bit_or-zero : (a : ℕ) → bit_or a 0 ≡ a
bit_or-zero a = bit_or-zero_fuel a a (omega arith)

bit_or_self_fuel : (n a : ℕ) → a ≤ n → bit_or a a ≡ a
bit_or_self_fuel n zero h = zero-bit_or 0
bit_or_self_fuel zero (suc a) h = absurd (omega arith)
bit_or_self_fuel (suc n) (suc a) h =
    omega (arith, bit_or_step (suc a) (suc a), bit_or_self_fuel n (suc a / 2) (omega arith))

pub bit_or_self : (a : ℕ) → bit_or a a ≡ a
bit_or_self a = bit_or_self_fuel a a (omega arith)

-- Behind `w` zeros on the left, a number below `w` on the right stays as it is.
abbrev Shifts : ℕ → Type 0
Shifts w = (x y p : ℕ) → p < w → bit_or (x * w) (y * w + p) ≡ bit_or x y * w + p

Shifts-one : Shifts 1
Shifts-one x y p h =
    let e : x * 1 ≡ x = omega arith in
    let f : y * 1 + p ≡ y = omega arith in rw (e, f) (omega arith)

Shifts-double : (w : ℕ) → Shifts w → Shifts (w * 2)
Shifts-double w ih x y p h =
    let a : x * (w * 2) / 2 ≡ x * w = omega arith in
    let b : (y * (w * 2) + p) / 2 ≡ y * w + p / 2 = omega arith in
    let halves = ap₂ bit_or a b in
    omega (arith, bit_or_step (x * (w * 2)) (y * (w * 2) + p), halves, ih x y (p / 2) (omega arith))

-- A number shifted by eight bits, and one whose low byte is `p`.
pub shift-bit_or : (x y p : ℕ) → p < 256 → bit_or (x * 256) (y * 256 + p) ≡ bit_or x y * 256 + p
shift-bit_or x y p h = byte x y p h
  where
    byte : Shifts 256
    byte = Shifts-double 128 (
        Shifts-double 64 (
          Shifts-double 32 (
            Shifts-double 16
              (Shifts-double 8 (Shifts-double 4 (Shifts-double 2 (Shifts-double 1 Shifts-one)))))))

-- A byte beside a shifted number: the two stand side by side.
pub byte-bit_or : (x p : ℕ) → p < 256 → bit_or (x * 256) p ≡ x * 256 + p
byte-bit_or x p h =
    let z : 0 * 256 + p ≡ p = omega arith in
    let s = shift-bit_or x 0 p h in rw (z, bit_or-zero x) at s
