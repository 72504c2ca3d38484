-- ===== src/Base/Tables.antt =====
-- Go maps with string keys whose size or entries the program looks at: lists of keys and values. A write
-- replaces the entry of a key or appends one.
use Prim.Native.Nat.{◌+◌, ◌≤◌}
use mathlib.Core.Path.{◌≡◌}
use mathlib.Core.Logic.{inl, inr}
use mathlib.Core.Bool.{Bool}
use mathlib.Core.Option.{Option, none, some}
use mathlib.Core.List.{List, [], ◌∷◌}
use native.Mathlib.Omega.{arith}
use linuxgsm_dashboard.Base.Tests.{if◌then◌else◌, Bool-cases}
use linuxgsm_dashboard.Base.Texts.{Text, eqt, eqt_iff}
use linuxgsm_dashboard.Base.Lists.{length, All}

abbrev pub Table {ℓ} : Type ℓ → Type ℓ
Table V = List (Text × V)

module _ {ℓ} {V : Type ℓ} where
  unfoldable pub lookup : Text → Table V → Option V
  lookup k [] = none
  lookup k ((j, v) ∷ m) = if eqt j k then some v else lookup k m

  -- m[k] = v
  unfoldable pub store : Text → V → Table V → Table V
  store k v [] = (k, v) ∷ []
  store k v ((j, w) ∷ m) = if eqt j k then (k, v) ∷ m else (j, w) ∷ store k v m

  -- delete(m, k)
  unfoldable pub delete : Text → Table V → Table V
  delete k [] = []
  delete k ((j, v) ∷ m) = if eqt j k then delete k m else (j, v) ∷ delete k m

  -- for k, v := range m { if !p(v) { delete(m, k) } }
  unfoldable pub retain : (V → Bool) → Table V → Table V
  retain p [] = []
  retain p ((j, v) ∷ m) = if p v then (j, v) ∷ retain p m else retain p m

  pub lookup-delete :
      (j k : Text) (m : Table V) → lookup j (delete k m) ≡ (if eqt k j then none else lookup j m)
  unfolding lookup delete
  lookup-delete j k [] = ground arith
  lookup-delete j k ((i, v) ∷ m) =
      ground (arith, lookup-delete j k m, eqt_iff i k, eqt_iff i j, eqt_iff k j)

  pub lookup-store :
      (j k : Text) (v : V) (m : Table V)
      → lookup j (store k v m) ≡ (if eqt k j then some v else lookup j m)
  unfolding lookup store
  lookup-store j k v [] = ground arith
  lookup-store j k v ((i, w) ∷ m) =
      ground (arith, lookup-store j k v m, eqt_iff i k, eqt_iff i j, eqt_iff k j)

  pub length-delete-le : (k : Text) (m : Table V) → length (delete k m) ≤ length m
  unfolding delete
  length-delete-le k [] = omega arith
  length-delete-le k ((j, v) ∷ m) = ground (arith, length-delete-le k m)

  pub length-retain-le : (p : V → Bool) (m : Table V) → length (retain p m) ≤ length m
  unfolding retain
  length-retain-le p [] = omega arith
  length-retain-le p ((j, v) ∷ m) = ground (arith, length-retain-le p m)

  pub length-store-le : (k : Text) (v : V) (m : Table V) → length (store k v m) ≤ length m + 1
  unfolding store
  length-store-le k v [] = omega arith
  length-store-le k v ((j, w) ∷ m) = ground (arith, length-store-le k v m)

module _ {ℓ κ} {V : Type ℓ} (P : Text × V → Type κ) where
  pub All-lookup : (k : Text) (m : Table V) (v : V) → All P m → lookup k m ≡ some v → P (k, v)
  unfolding lookup
  All-lookup k [] v h e = cc
  All-lookup k ((j, w) ∷ m) v h e = elim (Bool-cases (eqt j k)) [
    | inl same ↦
        let q : j ≡ k = (eqt_iff j k).0 same in let r : w ≡ v = ground arith in rw (q, r) at h.0
    | inr other ↦ All-lookup k m v h.1 (ground arith)
  ]

  pub All-store : (k : Text) (v : V) (m : Table V) → P (k, v) → All P m → All P (store k v m)
  unfolding store
  All-store k v [] p h = (p, tt)
  All-store k v ((j, w) ∷ m) p h = elim (Bool-cases (eqt j k)) [
    | inl same ↦ rw same (p, h.1)
    | inr other ↦ rw other (h.0, All-store k v m p h.1)
  ]

  pub All-delete : (k : Text) (m : Table V) → All P m → All P (delete k m)
  unfolding delete
  All-delete k [] h = tt
  All-delete k ((j, v) ∷ m) h = elim (Bool-cases (eqt j k)) [
    | inl same ↦ rw same (All-delete k m h.1)
    | inr other ↦ rw other (h.0, All-delete k m h.1)
  ]

  pub All-retain : (p : V → Bool) (m : Table V) → All P m → All P (retain p m)
  unfolding retain
  All-retain p [] h = tt
  All-retain p ((j, v) ∷ m) h = elim (Bool-cases (p v)) [
    | inl stays ↦ rw stays (h.0, All-retain p m h.1)
    | inr goes ↦ rw goes (All-retain p m h.1)
  ]
