-- ===== src/Cron/Validation.antt =====
-- The validation of cron expressions and of numbers in backend/schedule.go.
use linuxgsm_dashboard.Base.{
  ℕ, ◌≤◌, ◌≡◌, inl, inr, Text, codes, List, [], ◌∷◌, Bool, true, false, not, ◌&&◌, ◌||◌, Option,
  none, some, arith, ltb, leb, ◌==◌, if◌then◌else◌, eqt, eqt_iff, all_of, length, digit_byte, atoi,
  itoa, ℤ, pos, negsuc, Option-cases, Bool-cases, Lacks,
}
use linuxgsm_dashboard.Totp.{trim_space}
use linuxgsm_dashboard.Cron.{fields, parse_cron}

abbrev pub macros : List Text
macros =
    codes "@hourly"
    ∷ codes "@daily"
    ∷ codes "@midnight"
    ∷ codes "@weekly"
    ∷ codes "@monthly"
    ∷ codes "@yearly"
    ∷ codes "@annually"
    ∷ []

unfoldable pub is_macro : List Text → Text → Bool
is_macro [] expr = false
is_macro (m ∷ ms) expr = eqt expr m || is_macro ms expr

abbrev pub cron_byte : ℕ → Bool
cron_byte c = digit_byte c || (c == b'*' || (c == b'/' || (c == b',' || c == b'-')))

-- `^[0-9*/,-]{1,64}$`
unfoldable pub is_cron_field : Text → Bool
is_cron_field f = all_of cron_byte f && (leb 1 (length f) && leb (length f) 64)

unfoldable pub has_line_break : Text → Bool
has_line_break [] = false
has_line_break (c ∷ s) = (c == 10 || c == 13) || has_line_break s

unfoldable pub is_valid_cron_expr : Text → Bool
is_valid_cron_expr expr =
    let e = trim_space expr in
    if is_macro macros e
    then true
    else if has_line_break e
    then false
    else if not (length (fields e) == 5)
    then false
    else all_of is_cron_field (fields e)

unfoldable pub validate_cron_expr : Text → Bool
validate_cron_expr expr =
    is_valid_cron_expr expr && elim (parse_cron expr) [ none ↦ false | some spec ↦ true ]

abbrev pub within : Text → ℕ → ℕ → Option ℤ → Bool
within s low top (some (pos n)) = leb low n && (leb n top && eqt (itoa n) s)
within s low top _ = false

-- No bound is negative, so a negative number is outside.
unfoldable pub is_int_in_range : Text → ℕ → ℕ → Bool
is_int_in_range s low top =
    if eqt s [] || ltb 3 (length s) then false else within s low top (atoi s)

no_line_break : (s : Text) → has_line_break s ≡ false → Lacks 10 s × Lacks 13 s
unfolding has_line_break
no_line_break [] h = (tt, tt)
no_line_break (c ∷ s) h =
    let (a, b) = no_line_break s (ground arith) in ((ground arith, a), (ground arith, b))

is_macro-Lacks : (e : Text) → is_macro macros e ≡ true → has_line_break e ≡ false
unfolding is_macro has_line_break
is_macro-Lacks e h = ground (
  arith,
  eqt_iff e (codes "@hourly"),
  eqt_iff e (codes "@daily"),
  eqt_iff e (codes "@midnight"),
  eqt_iff e (codes "@weekly"),
  eqt_iff e (codes "@monthly"),
  eqt_iff e (codes "@yearly"),
  eqt_iff e (codes "@annually"),
)

-- An expression that is valid, without the spaces around it, has no line feed and no carriage return.
pub is_valid_cron_expr-Lacks :
    (expr : Text)
    → is_valid_cron_expr expr ≡ true
    → Lacks 10 (trim_space expr) × Lacks 13 (trim_space expr)
unfolding is_valid_cron_expr
is_valid_cron_expr-Lacks expr h =
    no_line_break (trim_space expr) (elim (Bool-cases (is_macro macros (trim_space expr))) [
      | inl m ↦ is_macro-Lacks (trim_space expr) m
      | inr other ↦ ground arith
    ])

-- A text that passes as a number in a range is the decimal text of a number of that range, and no
-- other spelling of it.
pub is_int_in_range_lem :
    (s : Text) (low top : ℕ)
    → is_int_in_range s low top ≡ true
    → (n : ℕ) × (s ≡ itoa n) × (low ≤ n) × (n ≤ top)
unfolding is_int_in_range
is_int_in_range_lem s low top h = elim (Option-cases (atoi s)) [
  | inl e ↦ absurd (ground arith)
  | inr (negsuc n, e) ↦ absurd (ground arith)
  | inr (pos n, e) ↦ (n, ground (arith, eqt_iff (itoa n) s), ground arith, ground arith)
]
