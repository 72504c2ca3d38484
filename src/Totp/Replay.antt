-- ===== src/Totp/Replay.antt =====
-- About verifyTOTP and TOTPCode of backend/twofactor.go: which codes pass, and what the dynamic
-- truncation reads.
use linuxgsm_dashboard.Base.{
  ℕ, zero, suc, ◌+◌, ◌-◌, ◌*◌, ◌^◌, ◌%◌, ◌≤◌, ◌<◌, ◌≡◌, refl, ◌⊎◌, inl, inr, Text, [], ◌∷◌, true,
  not, Option, none, some, arith, leb, ◌==◌, eqt, eqt_iff, all_of, length, digit_byte, Option-cases,
  Bool-cases,
}
use linuxgsm_dashboard.Passwords.{Crypto}
use linuxgsm_dashboard.Totp.{
  totp_code, try_step, typed_code, current_step, verify_totp, truncated, uint32_at, six_digits,
  last_or, totp_digits,
}

-- The step of an accepted code: it was not used before, lies next to the current step, and its code
-- is the one that was typed.
pub record IsFresh (c : Crypto) (secret code : Text) (now last_step step : ℕ) : Type 0 where
  pub unused : last_step < step
  pub near : (step ≤ current_step now + 1) × (current_step now ≤ step + 1)
  pub matching : totp_code c secret step ≡ some (typed_code code)

try_step-cases :
    (c : Crypto) (secret code : Text) (last_step step : ℕ) (rest : Option ℕ) (r : ℕ)
    → try_step c secret code last_step step rest ≡ some r
    → ((r ≡ step) × (last_step < step) × (totp_code c secret step ≡ some code)) ⊎ (rest ≡ some r)
try_step-cases c secret code last_step step rest r h = elim (Bool-cases (leb step last_step)) [
  | inl used ↦ inr (ground arith)
  | inr new ↦ elim (Option-cases (totp_code c secret step)) [
    | inl e ↦ ground arith
    | inr (want, e) ↦ elim (Bool-cases (eqt want code)) [
      | inl same ↦ inl (ground arith, ground arith, ground (arith, eqt_iff want code))
      | inr other ↦ inr (ground arith)
    ]
  ]
]

abbrev three_steps : Crypto → Text → Text → ℕ → ℕ → Option ℕ
three_steps c secret code current last_step =
    try_step c secret code last_step (current - 1) (
      try_step c secret code last_step current
        (try_step c secret code last_step (current + 1) none))

none-ne-some : (step : ℕ) → none ≡ some step → ⊥
none-ne-some step e = cc

-- A code of another form than six digits is not tried.
tried :
    (c : Crypto) (secret code : Text) (now last_step step : ℕ)
    → verify_totp c secret code now last_step ≡ some step
    → three_steps c secret (typed_code code) (current_step now) last_step ≡ some step
unfolding verify_totp
tried c secret code now last_step step h =
    elim (Bool-cases (not (length (typed_code code) == totp_digits))) [
      | inl short ↦ absurd (none-ne-some step (rw (short, verify_totp) at h))
      | inr long ↦ elim (Bool-cases (not (all_of digit_byte (typed_code code)))) [
        | inl odd ↦ absurd (none-ne-some step (rw (long, odd, verify_totp) at h))
        | inr digits ↦ rw (long, digits, verify_totp) at h
      ]
    ]

module _ (c : Crypto) (secret code : Text) (now last_step step : ℕ) where
  fresh :
      {k : ℕ}
      → (step ≡ k) × (last_step < k) × (totp_code c secret k ≡ some (typed_code code))
      → (last_step < k → k ≤ current_step now + 1)
      → (last_step < k → current_step now ≤ k + 1)
      → IsFresh c secret code now last_step step
  fresh {k} (e, n, m) a b = record {
    unused = rw e n;
    near = (rw e (a n), rw e (b n));
    matching = rw e m;
  }

  three_steps-IsFresh :
      three_steps c secret (typed_code code) (current_step now) last_step ≡ some step
      → IsFresh c secret code now last_step step
  three_steps-IsFresh h =
      elim (try_step-cases c secret (typed_code code) last_step (current_step now - 1) _ step h) [
        | inl p ↦ fresh p (λ n. omega arith) (λ n. omega arith)
        | inr h₁ ↦
            elim (try_step-cases c secret (typed_code code) last_step (current_step now) _ step
              h₁) [
                | inl p ↦ fresh p (λ n. omega arith) (λ n. omega arith)
                | inr h₂ ↦
                    elim (try_step-cases c secret (typed_code code) last_step (current_step now + 1)
                      none step h₂) [
                        | inl p ↦ fresh p (λ n. omega arith) (λ n. omega arith)
                        | inr h₃ ↦ absurd (none-ne-some step h₃)
                      ]
              ]
      ]

-- An accepted code is of a step that was not used before, at most one step from the current one, and
-- it is the code of that step.
pub verify_totp-IsFresh :
    (c : Crypto) (secret code : Text) (now last_step step : ℕ)
    → verify_totp c secret code now last_step ≡ some step
    → IsFresh c secret code now last_step step
verify_totp-IsFresh c secret code now last_step step h =
    three_steps-IsFresh c secret code now last_step step (tried c secret code now last_step step h)

six_digits_form : (n : ℕ) → (length (six_digits n) ≡ 6) × (all_of digit_byte (six_digits n) ≡ true)
unfolding six_digits
six_digits_form n = (refl, ground arith)

uint32_at_bound : (s : Text) (i : ℕ) → i + 4 ≤ length s → (v : ℕ) × (uint32_at s i ≡ some v)
unfolding uint32_at
uint32_at_bound [] i h = absurd (omega arith)
uint32_at_bound (a ∷ s) (suc i) h = let (v, e) = uint32_at_bound s i (omega arith) in (v, e)
uint32_at_bound (a ∷ []) zero h = absurd (omega arith)
uint32_at_bound (a ∷ b ∷ []) zero h = absurd (omega arith)
uint32_at_bound (a ∷ b ∷ d ∷ []) zero h = absurd (omega arith)
uint32_at_bound (a ∷ b ∷ d ∷ e ∷ s) zero h = (a * 2 ^ 24 + b * 2 ^ 16 + d * 2 ^ 8 + e, refl)

-- The dynamic truncation of a 20-byte MAC reads inside it, whatever its last byte, and gives a number
-- below 2 ^ 31.
pub truncated_bound :
    (sum : Text) → length sum ≡ 20 → (v : ℕ) × (truncated sum ≡ some v) × (v < 2 ^ 31)
unfolding truncated
truncated_bound sum h =
    let (word, e) = uint32_at_bound sum (last_or 0 sum % 16) (omega arith) in
    (word % 2 ^ 31, rw (e, truncated) refl, omega arith)
