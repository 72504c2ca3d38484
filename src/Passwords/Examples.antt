-- ===== src/Passwords/Examples.antt =====
-- A lawful stand-in for the packages, and the theorems on passwords with it.
use linuxgsm_dashboard.Base.{
  ltb, if◌then◌else◌, ◌+◌, ◌-◌, ◌≡◌, refl, Text, codes, [], ◌∷◌, true, some, arith, length, Lacks,
  replicate, length-replicate, ap,
}
use linuxgsm_dashboard.Passwords.{Crypto, hash_password, verify_password}
use linuxgsm_dashboard.Passwords.Costs.{Argon}
use linuxgsm_dashboard.Passwords.RoundTrip.{IsLawful, verify-hash}

abbrev shift : Text → Text
shift [] = []
shift (b ∷ s) = (b + 37) ∷ shift s

abbrev unshift : Text → Text
unshift [] = []
unshift (b ∷ s) = (b - 37) ∷ unshift s

unshift-shift : (s : Text) → unshift (shift s) ≡ s
unshift-shift [] = refl
unshift-shift (b ∷ s) = ground (arith, unshift-shift s)

shift-Lacks : (s : Text) → Lacks b'$' (shift s)
shift-Lacks [] = tt
shift-Lacks (b ∷ s) = (omega arith, shift-Lacks s)

abbrev pub toy : Crypto
toy = record {
  argon2_id = λ p s t m h n. replicate n 7;
  sha256 = λ s. replicate 32 (length s);
  hmac_sha1 = λ k m. replicate 20 (length m);
  base64_encode = shift;
  base64_decode = λ s. some (unshift s);
  base32_encode = shift;
  base32_decode = λ s. some (unshift s);
}

pub toy-IsLawful : IsLawful toy
toy-IsLawful = record {
  base64_round = λ x. ap some (unshift-shift x);
  base64_plain = shift-Lacks;
  key_length = λ p s t m h n. length-replicate n 7;
}

verify-hash_example :
    (stored : Text) × (hash_password toy (codes "secret12") (some (codes "salt")) ≡ some stored)
    × (verify_password toy (codes "secret12") stored ≡ true)
verify-hash_example = verify-hash toy toy-IsLawful (codes "secret12") (codes "salt")

-- Beyond 16 passes it gives up.
abbrev short_run : Argon
short_run p salt t m h n = if ltb 16 t then [] else replicate n 7

abbrev stored_hash : Text
stored_hash = codes "$argon2id$v=19$m=19456,t=2,p=1$salt$key"
