-- ===== src/Passwords/RoundTrip.antt =====
-- About HashPassword and VerifyPassword of backend/security.go: the text of a hash read back, and
-- the parameters that a stored hash may ask for.
use linuxgsm_dashboard.Base.{
  ℕ, ◌≤◌, ◌<◌, ◌≡◌, refl, Text, codes, List, [], ◌∷◌, ◌++◌, true, false, some, arith, length, Lacks,
  eqt, eqt_refl, split_on, split_on-append, split_on-Lacks, has_prefix, itoa,
}
use linuxgsm_dashboard.Passwords.{
  Crypto, Params, Stored, hash_password, verify_password, is_legacy_password_hash, dollar,
  parse_parts, scan_version, scan_params, scan_uint, scan_digits, scan_run, scan_literal,
  skip_spaces, skip_plus, argon_memory, argon_time, argon_threads, argon_key_len,
}

-- What the program relies on: base64 decodes what it encoded, its text has no `$`, and argon2
-- returns as many bytes as it is asked for.
pub record IsLawful (c : Crypto) : Type 0 where
  pub base64_round : (x : Text) → c.base64_decode (c.base64_encode x) ≡ some x
  pub base64_plain : (x : Text) → Lacks dollar (c.base64_encode x)
  pub key_length : (p s : Text) (t m h n : ℕ) → length (c.argon2_id p s t m h n) ≡ n

abbrev version_part : Text
version_part = codes "v=19"

abbrev params_part : Text
params_part = codes "m=47104,t=1,p=1"

abbrev fixed_part : Text
fixed_part = codes "$argon2id$v=19$m=47104,t=1,p=1$"

-- The text that HashPassword returns.
hash_text :
    (c : Crypto) (password salt : Text)
    → hash_password c password (some salt)
      ≡ some (
          fixed_part
          ++ (c.base64_encode salt
              ++ (dollar
                  ∷ c.base64_encode (
                      c.argon2_id password salt argon_time argon_memory argon_threads
                        argon_key_len))))
unfolding hash_password itoa
hash_text c password salt = refl

not_legacy : (t : Text) → is_legacy_password_hash (dollar ∷ t) ≡ false
unfolding is_legacy_password_hash
not_legacy t = ground arith

split_fixed :
    (a b : Text)
    → Lacks dollar a
    → Lacks dollar b
    → split_on dollar (fixed_part ++ (a ++ (dollar ∷ b)))
      ≡ [] ∷ codes "argon2id" ∷ version_part ∷ params_part ∷ a ∷ b ∷ []
unfolding split_on
split_fixed a b ha hb = rw (split_on-append dollar a b ha, split_on-Lacks dollar b hb) refl

version_read : scan_version version_part ≡ some 19
unfolding scan_version scan_digits scan_run scan_literal skip_spaces skip_plus has_prefix
version_read = refl

params_read : scan_params params_part ≡ some (record { memory = 47104; time_cost = 1; threads = 1 })
unfolding scan_params scan_uint scan_digits scan_run scan_literal skip_spaces has_prefix
params_read = refl

module _ (c : Crypto) (lawful : IsLawful c) (password salt : Text) where
  abbrev own_key : Text
  own_key = c.argon2_id password salt argon_time argon_memory argon_threads argon_key_len

  parts_read :
      parse_parts c (
        []
        ∷ codes "argon2id"
        ∷ version_part
        ∷ params_part
        ∷ c.base64_encode salt
        ∷ c.base64_encode own_key
        ∷ [])
      ≡ some (record {
        params = record { memory = 47104; time_cost = 1; threads = 1 };
        salt = salt;
        expected = own_key;
      })
  unfolding parse_parts eqt
  parts_read =
      rw
        (
          version_read,
          params_read,
          lawful.base64_round salt,
          lawful.base64_round own_key,
          lawful.key_length password salt argon_time argon_memory argon_threads argon_key_len,
        )
        refl

  abbrev own_hash : Text
  own_hash = fixed_part ++ (c.base64_encode salt ++ (dollar ∷ c.base64_encode own_key))

  accepted : verify_password c password own_hash ≡ true
  unfolding verify_password
  accepted =
      rw
        (
          verify_password,
          not_legacy,
          split_fixed (c.base64_encode salt) (c.base64_encode own_key) (lawful.base64_plain salt)
              (lawful.base64_plain own_key),
          parts_read,
          lawful.key_length password salt argon_time argon_memory argon_threads argon_key_len,
        )
        (eqt_refl own_key)

  -- With packages that keep what IsLawful says, hashing a password with any salt succeeds, and the
  -- password is accepted against the hash.
  pub verify-hash :
      (stored : Text) × (hash_password c password (some salt) ≡ some stored)
      × (verify_password c password stored ≡ true)
  verify-hash = (own_hash, hash_text c password salt, accepted)

pub record IsBounded (s : Stored) : Type 0 where
  pub memory_bound : (1 ≤ s.params.memory) × (s.params.memory ≤ 1048576)
  pub time_bound : (1 ≤ s.params.time_cost) × (s.params.time_cost ≤ 16)
  pub threads_bound : (1 ≤ s.params.threads) × (s.params.threads ≤ 255)
  pub key_bound : (1 ≤ length s.expected) × (length s.expected ≤ 128)

scan_digits-lt : (bound : ℕ) (s : Text) (r : ℕ × Text) → scan_digits bound s ≡ some r → r.0 < bound
unfolding scan_digits
scan_digits-lt bound [] r h = cc
scan_digits-lt bound (b ∷ t) r h = ground arith

scan_uint-lt : (bound : ℕ) (s : Text) (r : ℕ × Text) → scan_uint bound s ≡ some r → r.0 < bound
unfolding scan_uint
scan_uint-lt bound s r h = scan_digits-lt bound (skip_spaces s) r h

scan_params-threads : (s : Text) (p : Params) → scan_params s ≡ some p → p.threads < 256
unfolding scan_params
scan_params-threads s p h = grind (arith, scan_uint-lt)

-- A stored hash that is read asks for at most 1 GiB of memory, 16 passes, 255 threads and 128 bytes of
-- output, and for none of them zero.
pub parse_parts-IsBounded :
    (c : Crypto) (parts : List Text) (s : Stored) → parse_parts c parts ≡ some s → IsBounded s
unfolding parse_parts
parse_parts-IsBounded c (_ ∷ name ∷ version ∷ costs ∷ salt_text ∷ key_text ∷ []) s h =
    grind (arith, scan_params-threads)
parse_parts-IsBounded c _ s h = cc
