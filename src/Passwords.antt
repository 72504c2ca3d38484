-- ===== src/Passwords.antt =====
-- Password hashing: HashPassword, IsLegacyPasswordHash and VerifyPassword of backend/security.go.
-- The package argon2, SHA-256 and base64 are parameters; the random salt is an argument. The
-- semaphore that bounds parallel hashing has no part in the results.
pub mod RoundTrip
pub mod Costs
pub mod Examples
use linuxgsm_dashboard.Base.{
  ℕ, zero, suc, ◌+◌, ◌-◌, ◌*◌, ◌/◌, ◌%◌, Text, codes, List, [], ◌∷◌, ◌++◌, Bool, true, false, not,
  ◌&&◌, ◌||◌, Option, none, some, ◌>>=◌, ◌^◌, ltb, leb, ◌==◌, if◌then◌else◌, length, all_of, eqt,
  split_on, has_prefix, drop, digits_from, itoa, digit_byte, map,
}

pub record Crypto : Type 0 where
  -- argon2.IDKey(password, salt, time, memory, threads, keyLen)
  pub argon2_id : Text → Text → ℕ → ℕ → ℕ → ℕ → Text
  pub sha256 : Text → Text
  pub hmac_sha1 : Text → Text → Text
  -- base64.RawStdEncoding; `none` is a decoding error
  pub base64_encode : Text → Text
  pub base64_decode : Text → Option Text
  -- base32.StdEncoding without padding
  pub base32_encode : Text → Text
  pub base32_decode : Text → Option Text

abbrev pub argon_memory : ℕ
argon_memory = 46 * 1024

abbrev pub argon_time : ℕ
argon_time = 1

abbrev pub argon_threads : ℕ
argon_threads = 1

abbrev pub argon_key_len : ℕ
argon_key_len = 32

-- argon2.Version
abbrev pub argon_version : ℕ
argon_version = 19

abbrev pub min_password_length : ℕ
min_password_length = 8

abbrev pub dollar : ℕ
dollar = b'$'

-- A salt of `none` is an error of the random source.
unfoldable pub hash_password : Crypto → Text → Option Text → Option Text
hash_password c password none = none
hash_password c password (some salt) =
    let key = c.argon2_id password salt argon_time argon_memory argon_threads argon_key_len in
    some (
      codes "$argon2id$v="
      ++ (itoa argon_version
          ++ (codes "$m="
              ++ (itoa argon_memory
                  ++ (codes ",t="
                      ++ (itoa argon_time
                          ++ (codes ",p="
                              ++ (itoa argon_threads
                                  ++ (dollar
                                      ∷ (c.base64_encode salt
                                          ++ (dollar ∷ c.base64_encode key)))))))))))

abbrev pub hex_byte : ℕ → Bool
hex_byte c = digit_byte c || (leb b'a' c && leb c b'f' || leb b'A' c && leb c b'F')

unfoldable pub is_legacy_password_hash : Text → Bool
is_legacy_password_hash hash = if not (length hash == 64) then false else all_of hex_byte hash

abbrev pub hex_digit : ℕ → ℕ
hex_digit n = if ltb n 10 then b'0' + n else b'a' + (n - 10)

-- hex.EncodeToString
unfoldable pub hex_encode : Text → Text
hex_encode [] = []
hex_encode (b ∷ s) = hex_digit (b / 16) ∷ hex_digit (b % 16) ∷ hex_encode s

abbrev pub to_lower_byte : ℕ → ℕ
to_lower_byte c = if leb b'A' c && leb c b'Z' then c + 32 else c

-- strings.ToLower of a hex text
unfoldable pub to_lower : Text → Text
to_lower = map to_lower_byte

-- fmt.Sscanf: a literal part of the format; spaces before a number; a run of digits that spells a
-- number below the bound. What follows the last part is not read.
unfoldable pub scan_literal : Text → Text → Option Text
scan_literal p s = if has_prefix s p then some (drop (length p) s) else none

unfoldable pub skip_spaces : Text → Text
skip_spaces [] = []
skip_spaces (c ∷ s) = if c == b' ' then skip_spaces s else c ∷ s

unfoldable pub scan_run : ℕ → Text → ℕ × Text
scan_run n [] = (n, [])
scan_run n (c ∷ s) = if digit_byte c then scan_run (n * 10 + (c - b'0')) s else (n, c ∷ s)

abbrev pub below : ℕ → ℕ × Text → Option (ℕ × Text)
below bound (n, s) = if ltb n bound then some (n, s) else none

unfoldable pub scan_digits : ℕ → Text → Option (ℕ × Text)
scan_digits bound [] = none
scan_digits bound (c ∷ s) = if digit_byte c then below bound (scan_run 0 (c ∷ s)) else none

unfoldable pub scan_uint : ℕ → Text → Option (ℕ × Text)
scan_uint bound s = scan_digits bound (skip_spaces s)

-- An int may have a sign; a negative number is no argon2 version, so it is left out.
unfoldable pub skip_plus : Text → Text
skip_plus [] = []
skip_plus (c ∷ s) = if c == b'+' then s else c ∷ s

unfoldable pub scan_version : Text → Option ℕ
scan_version s = do
  rest ← scan_literal (codes "v=") s
  number ← scan_digits (2 ^ 63) (skip_plus (skip_spaces rest))
  some number.0

pub record Params : Type 0 where
  pub memory : ℕ
  pub time_cost : ℕ
  pub threads : ℕ

unfoldable pub scan_params : Text → Option Params
scan_params s = do
  m ← scan_literal (codes "m=") s
  memory ← scan_uint (2 ^ 32) m
  t ← scan_literal (codes ",t=") memory.1
  time_cost ← scan_uint (2 ^ 32) t
  p ← scan_literal (codes ",p=") time_cost.1
  threads ← scan_uint (2 ^ 8) p
  some (record { memory = memory.0; time_cost = time_cost.0; threads = threads.0 })

abbrev pub absurd_params : Params → Bool
absurd_params p =
    p.memory == 0
    || (ltb (1024 * 1024) p.memory || (p.time_cost == 0 || (ltb 16 p.time_cost || p.threads == 0)))

-- What VerifyPassword hands to argon2 from the parts of a stored hash.
pub record Stored : Type 0 where
  pub params : Params
  pub salt : Text
  pub expected : Text

abbrev pub right_name : Text → Option (Unit {0})
right_name name = if eqt name (codes "argon2id") then some tt else none

abbrev pub right_version : ℕ → Option (Unit {0})
right_version v = if v == argon_version then some tt else none

abbrev pub fair_params : Params → Option Params
fair_params p = if absurd_params p then none else some p

abbrev pub fair_key : Text → Option Text
fair_key key = if length key == 0 || ltb 128 (length key) then none else some key

unfoldable pub parse_parts : Crypto → List Text → Option Stored
parse_parts c (_ ∷ name ∷ version ∷ costs ∷ salt_text ∷ key_text ∷ []) = do
  _ ← right_name name
  v ← scan_version version
  _ ← right_version v
  found ← scan_params costs
  p ← fair_params found
  salt_bytes ← c.base64_decode salt_text
  decoded ← c.base64_decode key_text
  key ← fair_key decoded
  some (record { params = p; salt = salt_bytes; expected = key })
parse_parts c _ = none

abbrev pub compare_key : Crypto → Text → Option Stored → Bool
compare_key c password none = false
compare_key c password (some s) =
    eqt
      (c.argon2_id password s.salt s.params.time_cost s.params.memory s.params.threads
        (length s.expected))
      s.expected

unfoldable pub verify_password : Crypto → Text → Text → Bool
verify_password c password stored =
    if is_legacy_password_hash stored
    then eqt (hex_encode (c.sha256 password)) (to_lower stored)
    else compare_key c password (parse_parts c (split_on dollar stored))
