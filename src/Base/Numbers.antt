-- ===== src/Base/Numbers.antt =====
-- Decimal texts: strconv.Atoi and strconv.Itoa on a 64-bit int, and what fmt.Sscanf reads for `%d`.
use Prim.Native.Nat.{ℕ, zero, suc, ◌+◌, ◌-◌, ◌*◌, ◌/◌, ◌%◌, ◌^◌, ◌<◌}
use mathlib.Core.Path.{◌≡◌, refl, ◌∙◌}
use mathlib.Core.Bool.{Bool, ◌&&◌}
use mathlib.Core.List.{[], ◌∷◌}
use mathlib.Core.Option.{Option, none, some}
use native.Mathlib.Omega.{arith}
use linuxgsm_dashboard.Base.Tests.{ltb, leb, ◌==◌, if◌then◌else◌}
use linuxgsm_dashboard.Base.Texts.{Text}

-- `negsuc n` is -(n + 1).
pub data ℤ : Type 0 where
  pos : ℕ → ℤ
  negsuc : ℕ → ℤ

abbrev pub max_int : ℕ
max_int = 2 ^ 63 - 1

abbrev pub digit_byte : ℕ → Bool
digit_byte c = leb b'0' c && leb c b'9'

-- The number that digits spell behind `n`; `none` at any other byte.
unfoldable pub digits_from : ℕ → Text → Option ℕ
digits_from n [] = some n
digits_from n (c ∷ s) = if digit_byte c then digits_from (n * 10 + (c - b'0')) s else none

abbrev pub up_to : ℕ → Option ℕ → Option ℕ
up_to limit none = none
up_to limit (some n) = if leb n limit then some n else none

-- One or more digits that spell a number up to the limit.
unfoldable pub parse_nat : ℕ → Text → Option ℕ
unfolding digits_from
parse_nat limit [] = none
parse_nat limit (c ∷ s) = up_to limit (digits_from 0 (c ∷ s))

abbrev pub negative : Option ℕ → Option ℤ
negative none = none
negative (some zero) = some (pos 0)
negative (some (suc n)) = some (negsuc n)

abbrev pub positive : Option ℕ → Option ℤ
positive none = none
positive (some n) = some (pos n)

-- strconv.Atoi: an optional sign and digits.
unfoldable pub atoi : Text → Option ℤ
unfolding parse_nat
atoi [] = none
atoi (c ∷ s) =
    if c == b'-'
    then negative (parse_nat (max_int + 1) s)
    else if c == b'+'
    then positive (parse_nat max_int s)
    else positive (parse_nat max_int (c ∷ s))

unfoldable pub itoa_from : ℕ → ℕ → Text → Text
itoa_from zero n out = out
itoa_from (suc f) n out =
    let more = itoa_from f (n / 10) ((b'0' + n % 10) ∷ out) in
    if ltb n 10 then (b'0' + n) ∷ out else more

-- strconv.Itoa of a number that is not negative; `n + 1` rounds are more than its digits.
unfoldable pub itoa : ℕ → Text
unfolding itoa_from
itoa n = itoa_from (n + 1) n []

-- The digits that `out` spells behind those of `n` are read after `n`.
digits-itoa_from :
    (f n : ℕ) (out : Text) → n < f → digits_from 0 (itoa_from f n out) ≡ digits_from n out
unfolding digits_from itoa_from
digits-itoa_from zero n out h = absurd (omega arith)
digits-itoa_from (suc f) n out h =
    ground (arith, digits-itoa_from f (n / 10) ((b'0' + n % 10) ∷ out))

-- Every number is read back from its decimal text.
pub digits-itoa : (n : ℕ) → digits_from 0 (itoa n) ≡ some n
unfolding itoa
digits-itoa n = digits-itoa_from (n + 1) n [] (omega arith) ∙ (unfold digits_from in refl)
