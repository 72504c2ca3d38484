-- ===== src/Query/Numbers.antt =====
-- About the numbers of Minecraft's protocol: appendVarInt and readVarInt of backend/query.go.
use linuxgsm_dashboard.Base.{
  ℕ, zero, suc, ◌+◌, ◌*◌, ◌%◌, ◌^◌, ◌≤◌, ◌<◌, ◌≡◌, ◌∙◌, refl, ap, Text, [], ◌∷◌, ◌++◌, append_assoc,
  drop, Option, none, some, arith, ℤ, pos, negsuc, length,
}
use linuxgsm_dashboard.Query.{
  int32, uint32, var_int_bytes, append_var_int, var_int_loop, signed, read_var_int,
}

-- An int32.
pub data IsInt32 : ℤ → Type 0 where
  nonnegative : (n : ℕ) → n < 2 ^ 31 → IsInt32 (pos n)
  below_zero : (n : ℕ) → n < 2 ^ 31 → IsInt32 (negsuc n)

pub int32-uint32 : (v : ℤ) → IsInt32 v → int32 (uint32 v) ≡ v
unfolding int32 uint32
int32-uint32 (pos n) (nonnegative m h) = ground arith
int32-uint32 (negsuc n) (below_zero m h) = ground arith

loop-bytes :
    (u : ℕ) (rest : Text)
    → u < 2 ^ 32
    → var_int_loop 5 1 0 (var_int_bytes 4 u ++ rest) ≡ some (u, rest)
unfolding var_int_loop var_int_bytes
loop-bytes u rest h = ground arith

pub uint32-lt : (v : ℤ) → IsInt32 v → uint32 v < 2 ^ 32
unfolding uint32
uint32-lt (pos n) (nonnegative m h) = omega arith
uint32-lt (negsuc n) (below_zero m h) = omega arith

drop_written : (b s : Text) → drop (length b) (b ++ s) ≡ s
drop_written [] s = refl
drop_written (c ∷ b) s = drop_written b s

-- Every int32 that is appended to a packet is read back from behind the packet, and the bytes after it
-- are left.
pub read-append_var_int :
    (b rest : Text) (v : ℤ)
    → IsInt32 v
    → read_var_int (drop (length b) (append_var_int b v ++ rest)) ≡ some (v, rest)
unfolding read_var_int append_var_int
read-append_var_int b rest v h =
    let q : drop (length b) ((b ++ var_int_bytes 4 (uint32 v)) ++ rest)
        ≡ var_int_bytes 4 (uint32 v) ++ rest =
      ap (drop (length b)) (append_assoc b (var_int_bytes 4 (uint32 v)) rest)
      ∙ drop_written b (var_int_bytes 4 (uint32 v) ++ rest) in
    rw (q, loop-bytes (uint32 v) rest (uint32-lt v h), int32-uint32 v h) refl

var_int_loop-le :
    (rounds weight result : ℕ) (s rest : Text) (n : ℕ)
    → var_int_loop rounds weight result s ≡ some (n, rest)
    → (length rest < length s) × (length s ≤ length rest + rounds)
unfolding var_int_loop
var_int_loop-le zero weight result s rest n h = cc
var_int_loop-le (suc rounds) weight result [] rest n h = cc
var_int_loop-le (suc rounds) weight result (b ∷ s) rest n h =
    ground
      (arith, var_int_loop-le rounds (weight * 128) ((result + b % 128 * weight) % 2 ^ 32) s rest n)

signed_rest :
    (o : Option (ℕ × Text)) (v : ℤ) (rest : Text)
    → signed o ≡ some (v, rest)
    → (n : ℕ) × (o ≡ some (n, rest))
signed_rest none v rest h = cc
signed_rest (some (n, s)) v rest h = (n, ap some (ap (λ x. (n, x)) (cc)))

-- A number that is read takes one to five bytes, whatever they are.
pub read_var_int-le :
    (s rest : Text) (v : ℤ)
    → read_var_int s ≡ some (v, rest)
    → (length rest < length s) × (length s ≤ length rest + 5)
unfolding read_var_int
read_var_int-le s rest v h =
    let (n, e) = signed_rest (var_int_loop 5 1 0 s) v rest h in var_int_loop-le 5 1 0 s rest n e
