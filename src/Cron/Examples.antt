-- ===== src/Cron/Examples.antt =====
-- A minute field, and two expressions that are accepted though their values are out of range.
use linuxgsm_dashboard.Base.{
  if◌then◌else◌, ℕ, ◌≡◌, ◌↔◌, refl, Text, codes, true, Option, some, none, arith, All, eqt, cut,
  split_on, atoi, itoa,
}
use linuxgsm_dashboard.Totp.{trim_space, trim_left, trim_right}
use linuxgsm_dashboard.Cron.Validation.{
  is_valid_cron_expr, is_int_in_range, is_macro, has_line_break, is_cron_field,
}
use linuxgsm_dashboard.Cron.{
  fields, Bits, parse_cron_field, add_parts, add_part, split_step, part_range, fill, no_bits,
  max_rounds,
}
use linuxgsm_dashboard.Cron.Fields.{IsModest, Chosen, parse_cron_field_lem}

abbrev quarter : Text
quarter = codes "*/20,7"

abbrev quarter_bits : Bits
quarter_bits = fill max_rounds 7 7 1 (fill max_rounds 0 59 20 no_bits)

quarter_parses : parse_cron_field quarter 0 59 ≡ some quarter_bits
unfolding parse_cron_field add_parts add_part split_step part_range split_on cut eqt atoi
quarter_parses = refl

quarter-IsModest : All IsModest (split_on b',' quarter)
unfolding split_step split_on cut atoi
quarter-IsModest = ((λ r n h. ground arith), ((λ r n h. ground arith), tt))

parse_cron_field_lem_example : (quarter_bits 40 ≡ true) ↔ Chosen 0 59 40 (split_on b',' quarter)
parse_cron_field_lem_example =
    parse_cron_field_lem quarter 0 59 quarter_bits 40 (omega arith) (omega arith) quarter-IsModest
      quarter_parses

has_40 : quarter_bits 40 ≡ true
unfolding fill
has_40 = refl

abbrev bit_of : Option Bits → ℕ → ℕ
bit_of none v = 2
bit_of (some bits) v = if bits v then 1 else 0

-- The step wraps around, so that minute 3 is set.
wrapping_step : bit_of (parse_cron_field (codes "5/9223372036854775807") 0 59) 3 ≡ 1
unfolding parse_cron_field add_parts add_part split_step part_range split_on cut eqt atoi fill
wrapping_step = refl

-- A value above the range with a step is accepted, and sets nothing.
above_range : bit_of (parse_cron_field (codes "70/5") 0 59) 59 ≡ 0
unfolding parse_cron_field add_parts add_part split_step part_range split_on cut eqt atoi fill
above_range = refl

abbrev night : Text
night = codes " 30 4 * * 1-5"

night_valid : is_valid_cron_expr night ≡ true
unfolding is_valid_cron_expr is_macro has_line_break is_cron_field fields trim_space trim_left
    trim_right eqt
night_valid = refl

hour_valid : is_int_in_range (codes "23") 0 23 ≡ true
unfolding is_int_in_range atoi itoa eqt
hour_valid = refl
