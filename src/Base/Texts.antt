-- ===== src/Base/Texts.antt =====
-- A Go string is the list of its bytes. The functions of package strings that the program calls,
-- over this representation.
use Prim.Native.Nat.{ℕ, suc}
use Prim.Native.Char.{code}
use Prim.Native.String.{String}
use mathlib.Core.Path.{◌≡◌, refl}
use mathlib.Core.Logic.{◌≢◌, ◌↔◌}
use mathlib.Core.Bool.{Bool, true, false, ◌&&◌, ◌||◌}
use mathlib.Core.List.{List, [], ◌∷◌, ◌++◌}
use mathlib.Core.Option.{Option, none, some}
use native.Mathlib.Omega.{arith}
use linuxgsm_dashboard.Base.Tests.{◌==◌, if◌then◌else◌}
use linuxgsm_dashboard.Base.Lists.{All}

abbrev pub Text : Type 0
Text = List ℕ

-- The bytes of an ASCII literal.
abbrev pub codes : String → Text
codes String.[] = []
codes (String.◌∷◌ c s) = code c ∷ codes s

unfoldable pub eqt : Text → Text → Bool
eqt [] [] = true
eqt [] (c ∷ t) = false
eqt (b ∷ s) [] = false
eqt (b ∷ s) (c ∷ t) = b == c && eqt s t

pub eqt_iff : (s t : Text) → (eqt s t ≡ true) ↔ (s ≡ t)
unfolding eqt
eqt_iff [] [] = (λ _. refl, λ _. refl)
eqt_iff [] (c ∷ t) = (λ h. cc, λ h. cc)
eqt_iff (b ∷ s) [] = (λ h. cc, λ h. cc)
eqt_iff (b ∷ s) (c ∷ t) = (λ h. ground (arith, eqt_iff s t), λ h. ground (arith, eqt_iff s t))

pub eqt_refl : (s : Text) → eqt s s ≡ true
eqt_refl s = (eqt_iff s s).1 refl

pub eqt_of_ne : (s t : Text) → s ≢ t → eqt s t ≡ false
eqt_of_ne s t h = ground (arith, eqt_iff s t)

-- strings.Cut at a one-byte separator: the parts before and after its first occurrence.
unfoldable pub cut : ℕ → Text → Option (Text × Text)
cut sep [] = none
cut sep (c ∷ s) =
    if c == sep
    then some ([], s)
    else elim (cut sep s) [ none ↦ none | some (a, b) ↦ some (c ∷ a, b) ]

unfoldable pub has_prefix : Text → Text → Bool
has_prefix s [] = true
has_prefix [] (p ∷ ps) = false
has_prefix (c ∷ s) (p ∷ ps) = c == p && has_prefix s ps

unfoldable pub has_suffix : Text → Text → Bool
unfolding eqt
has_suffix [] p = eqt [] p
has_suffix (c ∷ s) p = eqt (c ∷ s) p || has_suffix s p

-- strings.Contains
unfoldable pub contains : Text → Text → Bool
unfolding has_prefix
contains [] p = has_prefix [] p
contains (c ∷ s) p = has_prefix (c ∷ s) p || contains s p

-- strings.IndexByte
unfoldable pub index_of : ℕ → Text → Option ℕ
index_of b [] = none
index_of b (c ∷ s) =
    if c == b then some 0 else elim (index_of b s) [ none ↦ none | some i ↦ some (suc i) ]

-- What strings.Split does with one more byte in front of the first part.
abbrev pub onto_first : ℕ → List Text → List Text
onto_first c [] = (c ∷ []) ∷ []
onto_first c (p ∷ ps) = (c ∷ p) ∷ ps

-- strings.Split at a one-byte separator
unfoldable pub split_on : ℕ → Text → List Text
split_on sep [] = [] ∷ []
split_on sep (c ∷ s) = if c == sep then [] ∷ split_on sep s else onto_first c (split_on sep s)

-- slices.Contains
unfoldable pub text_mem : Text → List Text → Bool
unfolding eqt
text_mem t [] = false
text_mem t (s ∷ ss) = eqt t s || text_mem t ss

abbrev pub Lacks : ℕ → Text → Type 0
Lacks b = All (λ c. c ≢ b)

-- A text without the separator is not cut.
pub cut-Lacks : (sep : ℕ) (s : Text) → Lacks sep s → cut sep s ≡ none
unfolding cut
cut-Lacks sep [] h = refl
cut-Lacks sep (c ∷ s) h = ground (arith, cut-Lacks sep s h.1)

-- The cut of `s<sep>t` gives `s` and `t` back when `s` lacks the separator.
pub cut-append : (sep : ℕ) (s t : Text) → Lacks sep s → cut sep (s ++ sep ∷ t) ≡ some (s, t)
unfolding cut
cut-append sep [] t h = ground arith
cut-append sep (c ∷ s) t h = ground (arith, cut-append sep s t h.1)

-- Splitting a text that lacks the separator in front of it finds that text as the first part.
pub split_on-append :
    (sep : ℕ) (s t : Text) → Lacks sep s → split_on sep (s ++ sep ∷ t) ≡ s ∷ split_on sep t
unfolding split_on
split_on-append sep [] t h = ground arith
split_on-append sep (c ∷ s) t h = ground (arith, split_on-append sep s t h.1)

pub split_on-Lacks : (sep : ℕ) (s : Text) → Lacks sep s → split_on sep s ≡ s ∷ []
unfolding split_on
split_on-Lacks sep [] h = refl
split_on-Lacks sep (c ∷ s) h = ground (arith, split_on-Lacks sep s h.1)
