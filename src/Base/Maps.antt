-- ===== src/Base/Maps.antt =====
-- Go maps with string keys, as functions from keys to values. The program's loops over these maps
-- visit every entry and treat each by itself, so an order of the keys is not needed.
use mathlib.Core.Path.{◌≡◌}
use mathlib.Core.Bool.{Bool}
use mathlib.Core.Option.{Option, none, some}
use linuxgsm_dashboard.Base.Tests.{if◌then◌else◌}
use linuxgsm_dashboard.Base.Texts.{Text, eqt, eqt_refl}

abbrev pub Dict {ℓ} : Type ℓ → Type ℓ
Dict V = Text → Option V

-- The entries of `m` under the condition `p`.
abbrev pub only {ℓ} : {V : Type ℓ} → (V → Bool) → Option V → Option V
only p none = none
only p (some v) = if p v then some v else none

module _ {ℓ} {V : Type ℓ} where
  unfoldable pub no_keys : Dict V
  no_keys k = none

  -- m[k] = v
  unfoldable pub put : Text → V → Dict V → Dict V
  put k v m j = if eqt k j then some v else m j

  -- delete(m, k)
  unfoldable pub remove : Text → Dict V → Dict V
  remove k m j = if eqt k j then none else m j

  -- for k, v := range m { if !p(k, v) { delete(m, k) } }
  unfoldable pub keep_if : (Text → V → Bool) → Dict V → Dict V
  keep_if p m j = only (p j) (m j)

  pub put_self : (k : Text) (v : V) (m : Dict V) → put k v m k ≡ some v
  unfolding put
  put_self k v m = rw (eqt_refl k)

  pub remove_self : (k : Text) (m : Dict V) → remove k m k ≡ none
  unfolding remove
  remove_self k m = rw (eqt_refl k)
