-- ===== src/Totp.antt =====
-- One-time passwords and recovery codes of backend/twofactor.go.
-- HMAC-SHA1, SHA-256 and base32 are parameters; random bytes are arguments. The step of a code is a
-- Unix time over 30 seconds; times before 1970 are left out.
pub mod Replay
mod Examples
use linuxgsm_dashboard.Base.{
  ℕ, zero, suc, ◌+◌, ◌-◌, ◌*◌, ◌/◌, ◌%◌, ◌^◌, Text, codes, List, [], ◌∷◌, ◌++◌, Bool, true, false,
  not, ◌&&◌, ◌||◌, Option, none, some, ltb, leb, ◌==◌, if◌then◌else◌, ◌>>=◌, eqt, keep, all_of,
  length, take, drop, map, digit_byte, get_or,
}
use linuxgsm_dashboard.Passwords.{Crypto, hex_encode, to_lower_byte}

abbrev pub totp_period : ℕ
totp_period = 30

abbrev pub totp_digits : ℕ
totp_digits = 6

-- strings.TrimSpace of an ASCII text
abbrev pub is_space : ℕ → Bool
is_space c = c == b' ' || (leb 9 c && leb c 13)

unfoldable pub trim_left : Text → Text
trim_left [] = []
trim_left (c ∷ s) = if is_space c then trim_left s else c ∷ s

unfoldable pub trim_right : Text → Text
trim_right [] = []
trim_right (c ∷ s) = elim (trim_right s) [
  | [] ↦ if is_space c then [] else c ∷ []
  | d ∷ r ↦ c ∷ d ∷ r
]

unfoldable pub trim_space : Text → Text
unfolding trim_left trim_right
trim_space s = trim_right (trim_left s)

abbrev pub to_upper_byte : ℕ → ℕ
to_upper_byte c = if leb b'a' c && leb c b'z' then c - 32 else c

-- GenerateTOTPSecret: 20 random bytes in base32
unfoldable pub generate_totp_secret : Crypto → Option Text → Option Text
generate_totp_secret c none = none
generate_totp_secret c (some bytes) = some (c.base32_encode bytes)

-- binary.BigEndian.PutUint64
abbrev pub big_endian_8 : ℕ → Text
big_endian_8 n =
    (n / 2 ^ 56 % 256)
    ∷ (n / 2 ^ 48 % 256)
    ∷ (n / 2 ^ 40 % 256)
    ∷ (n / 2 ^ 32 % 256)
    ∷ (n / 2 ^ 24 % 256)
    ∷ (n / 2 ^ 16 % 256)
    ∷ (n / 2 ^ 8 % 256)
    ∷ (n % 256)
    ∷ []

-- Reading out of bounds stops the Go program.
unfoldable pub uint32_at : Text → ℕ → Option ℕ
uint32_at s i = elim (drop i s) [
  | b3 ∷ b2 ∷ b1 ∷ b0 ∷ _ ↦ some (b3 * 2 ^ 24 + b2 * 2 ^ 16 + b1 * 2 ^ 8 + b0)
  | _ ↦ none
]

-- fmt.Sprintf("%06d", n) for n below a million
unfoldable pub six_digits : ℕ → Text
six_digits n =
    (b'0' + n / 100000 % 10)
    ∷ (b'0' + n / 10000 % 10)
    ∷ (b'0' + n / 1000 % 10)
    ∷ (b'0' + n / 100 % 10)
    ∷ (b'0' + n / 10 % 10)
    ∷ (b'0' + n % 10)
    ∷ []

abbrev pub last_or : ℕ → Text → ℕ
last_or d [] = d
last_or d (c ∷ s) = last_or c s

-- The dynamic truncation of a MAC: the low four bits of its last byte are the offset of a big-endian
-- number, of which 31 bits are kept.
unfoldable pub truncated : Text → Option ℕ
truncated sum = do word ← uint32_at sum (last_or 0 sum % 16); some (word % 2 ^ 31)

unfoldable pub totp_code : Crypto → Text → ℕ → Option Text
totp_code c secret step = do
  key ← c.base32_decode (map to_upper_byte (trim_space secret))
  usable ← (elim key [ [] ↦ none | b ∷ bs ↦ some (b ∷ bs) ])
  value ← truncated (c.hmac_sha1 usable (big_endian_8 step))
  some (six_digits (value % 1000000))

-- One round of the loop over the steps around now: a used step is passed over, an error ends it.
abbrev pub try_step : Crypto → Text → Text → ℕ → ℕ → Option ℕ → Option ℕ
try_step c secret code last_step step rest =
    if leb step last_step then rest else elim (totp_code c secret step) [
      | none ↦ none
      | some want ↦ if eqt want code then some step else rest
    ]

-- Spaces are dropped from the code as typed.
unfoldable pub typed_code : Text → Text
typed_code code = keep (λ c. not (c == b' ')) (trim_space code)

unfoldable pub current_step : ℕ → ℕ
current_step now = now / 1_000_000_000 / totp_period

-- The steps current - 1, current and current + 1 in turn. At current = 0 the first is -1 in the
-- source, which is no step above `last_step`; nor is the 0 that stands for it here.
unfoldable pub verify_totp : Crypto → Text → Text → ℕ → ℕ → Option ℕ
verify_totp c secret code now last_step =
    let typed = typed_code code in
    let current = current_step now in
    if not (length typed == totp_digits)
    then none
    else if not (all_of digit_byte typed)
    then none
    else try_step c secret typed last_step (current - 1) (
        try_step c secret typed last_step current
          (try_step c secret typed last_step (current + 1) none))

abbrev pub recovery_alphabet : Text
recovery_alphabet = codes "abcdefghjkmnpqrstuvwxyz23456789"

-- One recovery code from ten random bytes: five characters, a dash, five characters.
unfoldable pub recovery_code : Text → Text
recovery_code buf =
    let chars = map (λ b. get_or recovery_alphabet (b % length recovery_alphabet) 0) buf in
    take 5 chars ++ (b'-' ∷ drop 5 chars)

-- The ten buffers in turn; `none` is an error of the random source.
unfoldable pub generate_recovery_codes : Option (List Text) → Option (List Text)
generate_recovery_codes none = none
generate_recovery_codes (some bufs) = some (map recovery_code bufs)

-- normalizeRecoveryCode of an ASCII text
unfoldable pub normalize_recovery_code : Text → Text
normalize_recovery_code code =
    keep (λ c. not (c == b'-' || c == b' ')) (map to_lower_byte (trim_space code))

unfoldable pub hash_recovery_code : Crypto → Text → Text → Text
hash_recovery_code c username code =
    hex_encode
      (c.sha256 (codes "lgsm-recovery" ++ (0 ∷ (username ++ (0 ∷ normalize_recovery_code code)))))
