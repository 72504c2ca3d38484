-- ===== src/Base/Finds.antt =====
-- Lists with an element at an index: what finding, writing and removing it does.
use Prim.Native.Nat.{ℕ, zero, suc, ◌+◌, ◌-◌}
use mathlib.Core.Path.{◌≡◌, refl, ap, subst}
use mathlib.Core.Logic.{inl, inr}
use mathlib.Core.Bool.{Bool, true}
use mathlib.Core.List.{List, [], ◌∷◌, ◌++◌}
use mathlib.Core.Option.{Option, none, some}
use native.Mathlib.Omega.{arith}
use linuxgsm_dashboard.Base.Tests.{if◌then◌else◌, Bool-cases, Option-cases}
use linuxgsm_dashboard.Base.Lists.{
  length, take, set, remove_at, find_index, next_index, count_if, get_elem?, length-append,
}

module _ {ℓ} {A : Type ℓ} where
  abbrev Found : (A → Bool) → List A → Option (ℕ × A) → Type ℓ
  Found p xs none = Unit
  Found p xs (some (i, x)) = (get_elem? xs i ≡ some x) × (p x ≡ true)

  Found-next :
      (p : A → Bool) (y : A) (ys : List A) (r : Option (ℕ × A))
      → Found p ys r
      → Found p (y ∷ ys) (next_index r)
  Found-next p y ys none h = tt
  Found-next p y ys (some (i, x)) h = h

  found : (p : A → Bool) (xs : List A) → Found p xs (find_index p xs)
  found p [] = tt
  found p (y ∷ ys) = elim (Bool-cases (p y)) [
    | inl e ↦ rw e (refl, e)
    | inr e ↦ rw e (Found-next p y ys (find_index p ys) (found p ys))
  ]

  -- What is found stands at its index and passes the test.
  pub find_index-get :
      (p : A → Bool) (xs : List A) (i : ℕ) (x : A)
      → find_index p xs ≡ some (i, x)
      → (get_elem? xs i ≡ some x) × (p x ≡ true)
  find_index-get p xs i x h = subst (Found p xs) h (found p xs)

  pub set-set_self :
      (xs : List A) (i : ℕ) (x y : A) → get_elem? xs i ≡ some x → set (set xs i y) i x ≡ xs
  set-set_self [] i x y h = refl
  set-set_self (z ∷ zs) zero x y h = ground arith
  set-set_self (z ∷ zs) (suc i) x y h = ap (λ r. z ∷ r) (set-set_self zs i x y h)

  pub get_elem?-set_self :
      (xs : List A) (i : ℕ) (x y : A) → get_elem? xs i ≡ some x → get_elem? (set xs i y) i ≡ some y
  get_elem?-set_self [] i x y h = ground arith
  get_elem?-set_self (z ∷ zs) zero x y h = refl
  get_elem?-set_self (z ∷ zs) (suc i) x y h = get_elem?-set_self zs i x y h

  -- Nothing found: no element passes the test.
  pub count_if_absent : (p : A → Bool) (xs : List A) → find_index p xs ≡ none → count_if p xs ≡ 0
  count_if_absent p [] h = refl
  count_if_absent p (y ∷ ys) h = elim (Bool-cases (p y)) [
    | inl e ↦ ground arith
    | inr e ↦ elim (Option-cases (find_index p ys)) [
      | inl f ↦ ground (arith, count_if_absent p ys f)
      | inr (r, f) ↦ ground arith
    ]
  ]

  pub count_if-set :
      (q : A → Bool) (xs : List A) (i : ℕ) (x y : A)
      → get_elem? xs i ≡ some x
      → count_if q (set xs i y) + (if q x then 1 else 0) ≡ count_if q xs + (if q y then 1 else 0)
  count_if-set q [] i x y h = ground arith
  count_if-set q (z ∷ zs) zero x y h = ground arith
  count_if-set q (z ∷ zs) (suc i) x y h = ground (arith, count_if-set q zs i x y h)

  pub count_if-remove_at :
      (q : A → Bool) (xs : List A) (i : ℕ) (x : A)
      → get_elem? xs i ≡ some x
      → count_if q (remove_at xs i) + (if q x then 1 else 0) ≡ count_if q xs
  count_if-remove_at q [] i x h = ground arith
  count_if-remove_at q (z ∷ zs) zero x h = ground arith
  count_if-remove_at q (z ∷ zs) (suc i) x h = ground (arith, count_if-remove_at q zs i x h)

  take-append : (xs ys : List A) → take (length xs) (xs ++ ys) ≡ xs
  take-append [] ys = refl
  take-append (x ∷ xs) ys = ap (λ r. x ∷ r) (take-append xs ys)

  -- Taking off the element that was appended.
  pub take-append_one :
      (xs : List A) (x : A) → take (length (xs ++ (x ∷ [])) - 1) (xs ++ (x ∷ [])) ≡ xs
  take-append_one xs x =
      let e : length (xs ++ (x ∷ [])) - 1 ≡ length xs = omega (arith, length-append xs (x ∷ [])) in
      rw e (take-append xs (x ∷ []))
