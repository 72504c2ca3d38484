-- ===== src/Cron.antt =====
-- Cron schedules: ParseCron, parseCronField and CronSpec.Matches of backend/cron.go. A bit set is the
-- test of its bits; every bit is below 64. The loop over the values of a part counts in a 64-bit int:
-- `v` is its two's complement, so a step close to 2 ^ 63 wraps around as in Go. Error texts are left out.
pub mod Fields
pub mod Validation
mod Examples
use linuxgsm_dashboard.Base.{
  ℕ, zero, suc, ◌+◌, ◌-◌, ◌*◌, ◌%◌, ◌^◌, Text, codes, List, [], ◌∷◌, Bool, true, false, not, ◌&&◌,
  ◌||◌, Option, none, some, ltb, leb, ◌==◌, if◌then◌else◌, ◌>>=◌, eqt, has_prefix, cut, split_on,
  atoi, ℤ, pos, negsuc,
}
use linuxgsm_dashboard.Totp.{trim_space, is_space}

abbrev pub Bits : Type 0
Bits = ℕ → Bool

abbrev pub no_bits : Bits
no_bits = λ v. false

pub record CronSpec : Type 0 where
  pub minute : Bits
  pub hour : Bits
  pub dom : Bits
  pub month : Bits
  pub dow : Bits
  pub dom_star : Bool
  pub dow_star : Bool

unfoldable pub cron_macro : Text → Text
cron_macro expr =
    if eqt expr (codes "@yearly") || eqt expr (codes "@annually")
    then codes "0 0 1 1 *"
    else if eqt expr (codes "@monthly")
    then codes "0 0 1 * *"
    else if eqt expr (codes "@weekly")
    then codes "0 0 * * 0"
    else if eqt expr (codes "@daily") || eqt expr (codes "@midnight")
    then codes "0 0 * * *"
    else if eqt expr (codes "@hourly")
    then codes "0 * * * *"
    else expr

abbrev pub starts_word : Text → Bool
starts_word [] = false
starts_word (c ∷ s) = not (is_space c)

abbrev pub onto_word : ℕ → Bool → List Text → List Text
onto_word c true (w ∷ ws) = (c ∷ w) ∷ ws
onto_word c _ ws = (c ∷ []) ∷ ws

-- strings.Fields
unfoldable pub fields : Text → List Text
fields [] = []
fields (c ∷ s) =
    let rest = fields s in if is_space c then rest else onto_word c (starts_word s) rest

abbrev pub as_step : Option ℤ → Option ℕ
as_step (some (pos (suc n))) = some (suc n)
as_step _ = none

-- What stands before a `/`, and the step behind it; the step is 1 where there is no `/`.
unfoldable pub split_step : Text → Option (Text × ℕ)
split_step part = elim (cut b'/' part) [
  | none ↦ some (part, 1)
  | some (range_part, t) ↦ elim (as_step (atoi t)) [ none ↦ none | some n ↦ some (range_part, n) ]
]

abbrev pub in_order : Option ℤ → Option ℤ → Option (ℕ × ℕ)
in_order (some (pos a)) (some (pos b)) = if ltb b a then none else some (a, b)
in_order _ _ = none

abbrev pub single : ℕ → ℕ → Option ℤ → Option (ℕ × ℕ)
single top step (some (pos n)) = some (n, if ltb 1 step then top else n)
single top step _ = none

-- The first and the last value of a part. What precedes the first `-` has no sign of its own, and a
-- negative second bound is below the first, so no negative number passes.
unfoldable pub part_range : ℕ → ℕ → Text → ℕ → Option (ℕ × ℕ)
part_range low top range_part step =
    if eqt range_part (codes "*") then some (low, top) else elim (cut b'-' range_part) [
      | some (a, b) ↦ in_order (atoi a) (atoi b)
      | none ↦ single top step (atoi range_part)
    ]

abbrev pub set_bit : ℕ → Bits → Bits
set_bit v bits x = x == v || bits x

-- `v <= hi` of 64-bit ints, where `hi` is not negative
abbrev pub at_most : ℕ → ℕ → Bool
at_most v hi = leb (2 ^ 63) v || leb v hi

-- The loop; `1 << uint(v)` is 0 from 64 on.
unfoldable pub fill : ℕ → ℕ → ℕ → ℕ → Bits → Bits
fill zero v hi step bits = bits
fill (suc rounds) v hi step bits =
    let more =
      fill rounds ((v + step) % 2 ^ 64) hi step (if ltb v 64 then set_bit v bits else bits) in
    if at_most v hi then more else bits

-- More rounds than the loop takes for values up to 59: a step that does not wrap gains at least 1 in
-- each round, and one that does loses at least 2 in two rounds.
abbrev pub max_rounds : ℕ
max_rounds = 200

unfoldable pub add_part : ℕ → ℕ → Text → Bits → Option Bits
add_part low top part bits = do
  split ← split_step part
  range ← part_range low top split.0 split.1
  if ltb range.0 low || ltb top range.1
      then none
      else some (fill max_rounds range.0 range.1 split.1 bits)

unfoldable pub add_parts : ℕ → ℕ → List Text → Bits → Option Bits
add_parts low top [] bits = some bits
add_parts low top (part ∷ parts) bits = do
  more ← add_part low top part bits
  add_parts low top parts more

unfoldable pub parse_cron_field : Text → ℕ → ℕ → Option Bits
parse_cron_field field low top = add_parts low top (split_on b',' field) no_bits

-- 7 is Sunday as well.
abbrev pub sunday : Bits → Bits
sunday dow = if dow 7 then set_bit 0 dow else dow

unfoldable pub spec_of : List Text → Option CronSpec
spec_of (m ∷ h ∷ d ∷ mon ∷ w ∷ []) = do
  minute ← parse_cron_field m 0 59
  hour ← parse_cron_field h 0 23
  dom ← parse_cron_field d 1 31
  month ← parse_cron_field mon 1 12
  dow ← parse_cron_field w 0 7
  some (record {
    minute = minute;
    hour = hour;
    dom = dom;
    month = month;
    dow = sunday dow;
    dom_star = has_prefix d (codes "*");
    dow_star = has_prefix w (codes "*");
  })
spec_of _ = none

unfoldable pub parse_cron : Text → Option CronSpec
parse_cron expr = spec_of (fields (cron_macro (trim_space expr)))

-- The fields of a time.Time that count; Sunday is 0.
pub record Moment : Type 0 where
  pub in_minute : ℕ
  pub in_hour : ℕ
  pub on_day : ℕ
  pub in_month : ℕ
  pub on_weekday : ℕ

unfoldable pub fires : CronSpec → Moment → Bool
fires s t =
    if not (s.minute t.in_minute) || (not (s.hour t.in_hour) || not (s.month t.in_month))
    then false
    else if s.dom_star || s.dow_star
    then s.dom t.on_day && s.dow t.on_weekday
    else s.dom t.on_day || s.dow t.on_weekday
