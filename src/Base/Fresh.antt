-- ===== src/Base/Fresh.antt =====
-- The loops that look for a free name: `for n := 2; taken(id); n++ { id = fmt.Sprintf("%s-%d", base, n) }`.
-- They run on fuel; where the taken names stand in a list, one round more than its length is enough.
use Prim.Native.Nat.{ℕ, zero, suc, ◌+◌, ◌≤◌, ◌<◌}
use mathlib.Core.Path.{◌≡◌, ap, sym, ◌∙◌}
use mathlib.Core.Logic.{◌≢◌, inl, inr}
use mathlib.Core.Bool.{Bool, true, false, not}
use mathlib.Core.List.{List, [], ◌∷◌, ◌++◌}
use mathlib.Core.Option.{some}
use native.Mathlib.Omega.{arith}
use linuxgsm_dashboard.Base.Tests.{ltb, if◌then◌else◌, Bool-cases}
use linuxgsm_dashboard.Base.Texts.{Text, eqt, eqt_iff, text_mem}
use linuxgsm_dashboard.Base.Lists.{length, keep, length-append}
use linuxgsm_dashboard.Base.Numbers.{itoa, digits_from, digits-itoa}

-- The first name, and the names behind it: base, base-2, base-3, …
unfoldable pub candidate : Text → ℕ → Text
candidate base n = if ltb n 2 then base else base ++ (b'-' ∷ itoa n)

unfoldable pub first_free : ℕ → Text → (Text → Bool) → ℕ → Text
first_free zero base taken n = candidate base n
first_free (suc fuel) base taken n =
    let later = first_free fuel base taken (n + 1) in
    if taken (candidate base n) then later else candidate base n

itoa_injective : (m n : ℕ) → itoa m ≡ itoa n → m ≡ n
itoa_injective m n e =
    let p : some m ≡ some n = sym (digits-itoa m) ∙ ap (digits_from 0) e ∙ digits-itoa n in cc

append_cancel : (base s t : Text) → base ++ s ≡ base ++ t → s ≡ t
append_cancel [] s t e = e
append_cancel (c ∷ base) s t e = append_cancel base s t (cc)

longer : (base s : Text) (c : ℕ) → base ≢ base ++ (c ∷ s)
longer base s c e = omega (arith, ap length e, length-append base (c ∷ s))

candidate_injective : (base : Text) (m n : ℕ) → 1 ≤ m → m < n → candidate base m ≢ candidate base n
unfolding candidate
candidate_injective base m n one lt e = elim (Bool-cases (ltb m 2)) [
  | inl first ↦ longer base (itoa n) b'-' (ground arith)
  | inr later ↦
      let p : base ++ (b'-' ∷ itoa m) ≡ base ++ (b'-' ∷ itoa n) = ground arith in
      let q : b'-' ∷ itoa m ≡ b'-' ∷ itoa n = append_cancel base _ _ p in
      let r : itoa m ≡ itoa n = cc in omega (arith, itoa_injective m n r)
]

without : Text → List Text → List Text
without t = keep (λ s. not (eqt s t))

text_mem-without :
    (t s : Text) (names : List Text)
    → t ≢ s
    → text_mem s names ≡ true
    → text_mem s (without t names) ≡ true
unfolding without text_mem
text_mem-without t s [] d h = cc
text_mem-without t s (n ∷ names) d h =
    ground (arith, text_mem-without t s names d, eqt_iff n t, eqt_iff n s, eqt_iff s n, eqt_iff t s)

length-without-le : (t : Text) (names : List Text) → length (without t names) ≤ length names
unfolding without
length-without-le t [] = omega arith
length-without-le t (n ∷ names) = ground (arith, length-without-le t names)

length-without-lt :
    (t : Text) (names : List Text)
    → text_mem t names ≡ true
    → length (without t names) < length names
unfolding without text_mem
length-without-lt t [] h = cc
length-without-lt t (n ∷ names) h =
    ground (arith, length-without-lt t names, length-without-le t names, eqt_iff n t, eqt_iff t n)

-- With more fuel than there are taken names, the name that is found is free.
pub first_free_lem :
    (fuel : ℕ) (base : Text) (taken : Text → Bool) (n : ℕ) (names : List Text)
    → 1 ≤ n
    → ((k : ℕ)
        → n ≤ k
        → k ≤ n + fuel
        → taken (candidate base k) ≡ true
        → text_mem (candidate base k) names ≡ true)
    → length names ≤ fuel
    → taken (first_free fuel base taken n) ≡ false
unfolding first_free
first_free_lem zero base taken n [] one h f = elim (Bool-cases (taken (candidate base n))) [
  | inl bad ↦ let m = h n (omega arith) (omega arith) bad in unfold text_mem in cc
  | inr fine ↦ fine
]
first_free_lem zero base taken n (t ∷ names) one h f = absurd (omega arith)
first_free_lem (suc fuel) base taken n names one h f =
    elim (Bool-cases (taken (candidate base n))) [
      | inr fine ↦ rw (fine, first_free) fine
      | inl bad ↦
          rw (bad, first_free)
            (first_free_lem fuel base taken (n + 1) (without (candidate base n) names) (omega arith)
              (λ k le top hit.
                text_mem-without (candidate base n) (candidate base k) names
                  (candidate_injective base n k one (omega arith))
                  (h k (omega arith) (omega arith) hit))
              (omega (
                arith,
                length-without-lt (candidate base n) names (h n (omega arith) (omega arith) bad),
              )))
    ]
