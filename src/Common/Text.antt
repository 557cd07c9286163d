-- ===== src/Common/Text.antt =====
-- Texts: what a test of a text for truth says, the blanks that `trim` cuts off, and the decimal
-- digits of a number in a template.
use package.text.Mathlib.Text.{◌==◌ as str_eq}
use Prim.Native.Nat.{ℕ, zero, suc, ◌/◌, ◌%◌, ◌≤◌}
use Prim.Native.Char.{code}
use Prim.Native.String.{String}
use mathlib.Core.Path.{◌≡◌, refl, ap}
use mathlib.Core.Logic.{inl, inr}
use mathlib.Core.Bool.{Bool, true, false, ◌&&◌, ◌||◌, not}
use mathlib.Core.Option.{Option, none, some}
use native.Mathlib.Omega.{arith}
use lodgiva.Common.Tests.{ltb, leb, ◌==◌, if◌then◌else◌, ◌&◌, Bool-cases}

-- `Boolean(s)`, where `s` may be missing: the empty text counts as none
abbrev pub has_text : Option String → Bool
has_text none = false
has_text (some s) = not (str_eq s "")

-- The code points that `String.prototype.trim` cuts off.
abbrev pub is_space : ℕ → Bool
is_space c =
    (leb 9 c && leb c 13)
    || (c == 32
        || (c == 160
            || (c == 0x1680
                || ((leb 0x2000 c && leb c 0x200a)
                    || (c == 0x2028
                        || (c == 0x2029
                            || (c == 0x202f || (c == 0x205f || (c == 0x3000 || c == 0xfeff)))))))))

-- `s.trim() === ""`
abbrev pub is_blank : String → Bool
is_blank String.[] = true
is_blank (String.◌∷◌ c s) = is_space (code c) && is_blank s

abbrev digit : ℕ → String
digit d =
    if d == 0
    then "0"
    else if d == 1
    then "1"
    else if d == 2
    then "2"
    else if d == 3
    then "3"
    else if d == 4
    then "4"
    else if d == 5
    then "5"
    else if d == 6
    then "6"
    else if d == 7
    then "7"
    else if d == 8
    then "8"
    else "9"

-- A tenth of a number is less than it, so as many rounds as the number says are enough.
decimal_from : ℕ → ℕ → String
decimal_from zero n = digit n
decimal_from (suc fuel) n =
    let rest = decimal_from fuel (n / 10) in if ltb n 10 then digit n else rest & digit (n % 10)

-- A number in a template.
unfoldable pub decimal : ℕ → String
unfolding decimal_from
decimal n = decimal_from n n

decimal_from-enough :
    (fuel more n : ℕ) → n ≤ fuel → n ≤ more → decimal_from fuel n ≡ decimal_from more n
unfolding decimal_from
decimal_from-enough zero zero n h k = refl
decimal_from-enough zero (suc more) n h k =
    let small : ltb n 10 ≡ true = ground arith in rw small refl
decimal_from-enough (suc fuel) zero n h k =
    let small : ltb n 10 ≡ true = ground arith in rw small refl
decimal_from-enough (suc fuel) (suc more) n h k = elim (Bool-cases (ltb n 10)) [
  | inl small ↦ rw small refl
  | inr large ↦
      let tenth : n / 10 ≤ fuel = ground (arith, large) in
      let tenth' : n / 10 ≤ more = ground (arith, large) in
      rw large (ap (λ s. s & digit (n % 10)) (decimal_from-enough fuel more (n / 10) tenth tenth'))
]

-- The digits of a number: those of its tenth part, and the last one.
pub decimal_lem : (n : ℕ) → 10 ≤ n → decimal n ≡ decimal (n / 10) & decimal (n % 10)
unfolding decimal decimal_from
decimal_lem zero h = absurd (omega arith)
decimal_lem (suc n) h =
    let large : ltb (suc n) 10 ≡ false = ground arith in
    let last : decimal_from (suc n % 10) (suc n % 10) ≡ digit (suc n % 10) =
      one_digit (suc n % 10) (omega arith) in
    rw (large, last)
      (ap (λ s. s & digit (suc n % 10))
        (decimal_from-enough n (suc n / 10) (suc n / 10) (omega arith) (omega arith)))
  where
    one_digit : (d : ℕ) → suc d ≤ 10 → decimal_from d d ≡ digit d
    one_digit zero k = refl
    one_digit (suc d) k = let small : ltb (suc d) 10 ≡ true = ground arith in rw small refl

year : decimal 2026 ≡ "2026"
unfolding decimal decimal_from
year = refl
