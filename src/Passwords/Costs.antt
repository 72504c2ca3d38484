-- ===== src/Passwords/Costs.antt =====
-- About VerifyPassword of backend/security.go: what it makes argon2 do, whatever a stored hash says.
use linuxgsm_dashboard.Base.{ℕ, ◌≤◌, ◌≡◌, Text}

abbrev pub Argon : Type 0
Argon = Text → Text → ℕ → ℕ → ℕ → ℕ → Text

-- The two functions agree on a password with fair costs: 1 to 16 passes, 1 KiB to 1 GiB of memory,
-- 1 to 255 threads and 1 to 128 bytes of output.
abbrev pub AgreeWhenFair : Text → Argon → Argon → Type 0
AgreeWhenFair password f g =
    (salt : Text) (passes memory threads size : ℕ)
    → (1 ≤ passes) × (passes ≤ 16)
    → (1 ≤ memory) × (memory ≤ 1048576)
    → (1 ≤ threads) × (threads ≤ 255)
    → (1 ≤ size) × (size ≤ 128)
    → f password salt passes memory threads size ≡ g password salt passes memory threads size
