-- ===== src/Common/Decimal.antt =====
-- Unsigned integers in decimal: `{}` and `str::parse`, which accepts a plus sign and refuses what
-- exceeds the type.
use Prim.Native.Nat.{ℕ, zero, suc, ◌+◌, ◌-◌, ◌*◌, ◌/◌, ◌%◌, ◌≤◌, ◌<◌}
use mathlib.Core.Path.{◌≡◌, refl}
use mathlib.Core.Logic.{inl, inr, ◌≢◌}
use mathlib.Core.Bool.{Bool, true, false, ◌&&◌}
use mathlib.Core.List.{[], ◌∷◌, ◌++◌}
use mathlib.Core.Option.{Option, none, some}
use native.Mathlib.Omega.{arith}
use titan_ssh.Common.Tests.{nat_eq, ◌==◌, ltb, leb, if◌then◌else◌, Bool-cases}
use titan_ssh.Common.Lists.{All}
use titan_ssh.Common.Texts.{Text}

-- Fuel: one unit for a digit.
to_digits : ℕ → ℕ → Text
to_digits zero n = []
to_digits (suc f) n =
    let rest = to_digits f (n / 10) in
    if ltb n 10 then (48 + n) ∷ [] else rest ++ (48 + n % 10) ∷ []

-- `{}`: a number has no more digits than its value plus one.
unfoldable pub to_decimal : ℕ → Text
unfolding to_digits
to_decimal n = to_digits (suc n) n

abbrev pub is_digit : ℕ → Bool
is_digit c = leb 48 c && leb c 57

-- The digits after those that make `acc`, up to the greatest value `top`.
parse_digits : ℕ → ℕ → Text → Option ℕ
parse_digits top acc [] = some acc
parse_digits top acc (c ∷ s) =
    let v : ℕ = acc * 10 + (c - 48) in
    let rest = parse_digits top v s in if is_digit c && leb v top then rest else none

parse_unsigned : ℕ → Text → Option ℕ
unfolding parse_digits
parse_unsigned top [] = none
parse_unsigned top (c ∷ s) = parse_digits top 0 (c ∷ s)

-- `str::parse` for an unsigned type whose greatest value is `top`.
unfoldable pub parse_uint : ℕ → Text → Option ℕ
unfolding parse_unsigned
parse_uint top [] = none
parse_uint top (c ∷ s) = if c == 43 then parse_unsigned top s else parse_unsigned top (c ∷ s)

parse_digits-append :
    (top acc : ℕ) (xs : Text) (d v : ℕ)
    → parse_digits top acc xs ≡ some v
    → is_digit d ≡ true
    → v * 10 + (d - 48) ≤ top
    → parse_digits top acc (xs ++ d ∷ []) ≡ some (v * 10 + (d - 48))
unfolding parse_digits
parse_digits-append top acc [] d v h i l = ground arith
parse_digits-append top acc (c ∷ xs) d v h i l =
    ground (arith, parse_digits-append top (acc * 10 + (c - 48)) xs d v)

parse_digits-to_digits :
    (top f n : ℕ) → n < f → n ≤ top → parse_digits top 0 (to_digits f n) ≡ some n
unfolding parse_digits to_digits
parse_digits-to_digits top zero n h l = absurd (omega arith)
parse_digits-to_digits top (suc f) n h l = elim (Bool-cases (ltb n 10)) [
  | inl small ↦ ground arith
  | inr big ↦
      let ih = parse_digits-to_digits top f (n / 10) (ground arith) (omega arith) in
      let e : n / 10 * 10 + (48 + n % 10 - 48) ≡ n = omega arith in
      let a =
        parse_digits-append top 0 (to_digits f (n / 10)) (48 + n % 10) (n / 10) ih (ground arith)
          (omega arith) in
      rw big (rw e at a)
]

All-digit-append :
    (xs : Text) (d : ℕ)
    → All (λ (c : ℕ). is_digit c ≡ true) xs
    → is_digit d ≡ true
    → All (λ (c : ℕ). is_digit c ≡ true) (xs ++ d ∷ [])
All-digit-append [] d a h = (h, tt)
All-digit-append (x ∷ xs) d a h = (a.0, All-digit-append xs d a.1 h)

to_digits-digits : (f n : ℕ) → All (λ (c : ℕ). is_digit c ≡ true) (to_digits f n)
unfolding to_digits
to_digits-digits zero n = tt
to_digits-digits (suc f) n = elim (Bool-cases (ltb n 10)) [
  | inl small ↦ rw small (ground arith, tt)
  | inr big ↦ rw big (
      All-digit-append (to_digits f (n / 10)) (48 + n % 10) (to_digits-digits f (n / 10))
        (ground arith))
]

pub to_decimal-digits : (n : ℕ) → All (λ (c : ℕ). is_digit c ≡ true) (to_decimal n)
unfolding to_decimal
to_decimal-digits n = to_digits-digits (suc n) n

append-ne : (xs : Text) (d : ℕ) → xs ++ d ∷ [] ≢ []
append-ne [] d e = cc
append-ne (x ∷ xs) d e = cc

to_digits-ne : (f n : ℕ) → n < f → to_digits f n ≢ []
unfolding to_digits
to_digits-ne zero n h = absurd (omega arith)
to_digits-ne (suc f) n h = elim (Bool-cases (ltb n 10)) [
  | inl small ↦ rw small (λ e. cc)
  | inr big ↦ rw big (append-ne (to_digits f (n / 10)) (48 + n % 10))
]

pub to_decimal-ne : (n : ℕ) → to_decimal n ≢ []
unfolding to_decimal
to_decimal-ne n = to_digits-ne (suc n) n (omega arith)

parse_uint-digits :
    (top : ℕ) (s : Text) {n : ℕ}
    → s ≢ []
    → All (λ (c : ℕ). is_digit c ≡ true) s
    → parse_digits top 0 s ≡ some n
    → parse_uint top s ≡ some n
unfolding parse_uint parse_unsigned
parse_uint-digits top [] ne a h = absurd (ne refl)
parse_uint-digits top (c ∷ s) ne a h =
    let not_plus : (c == 43) ≡ false = ground (arith, a.0) in rw not_plus h

-- What is printed is read back, for every number of the type.
pub parse_uint-to_decimal : (top n : ℕ) → n ≤ top → parse_uint top (to_decimal n) ≡ some n
parse_uint-to_decimal top n h =
    parse_uint-digits top (to_decimal n) (to_decimal-ne n) (to_decimal-digits n)
      (unfold to_decimal in parse_digits-to_digits top (suc n) n (omega arith) h)
