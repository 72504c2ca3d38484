-- ===== src/Limiter/Examples.antt =====
-- The new limiter under a few attempts.
use linuxgsm_dashboard.Base.{ℕ, Text, codes, List, [], ◌∷◌, true, false, arith}
use linuxgsm_dashboard.Limiter.{new_login_limiter}
use linuxgsm_dashboard.Limiter.Bounds.{IsSafe}
use linuxgsm_dashboard.Limiter.Runs.{Event, attempts, ends, run, run-IsSafe}

new-IsSafe : (t : ℕ) → IsSafe new_login_limiter t
unfolding new_login_limiter
new-IsSafe t = record { bounded = omega arith; capped = tt }

abbrev ip : List Text
ip = codes "ip:10.0.0.1" ∷ []

abbrev guesses : List Event
guesses = attempts 5 ip ∷ ends 5 [] ip false ∷ attempts 7 ip ∷ ends 1 [] ip true ∷ []

run-IsSafe_example : IsSafe (run new_login_limiter 0 guesses).0 (run new_login_limiter 0 guesses).1
run-IsSafe_example = run-IsSafe new_login_limiter 0 guesses (new-IsSafe 0)
