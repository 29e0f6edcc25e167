-- ===== src/Prelude/Texts.antt =====
-- Text as a list of byte codes: equality, the standard library's tests on it, and the cache keys,
-- which are texts joined by colons.
use Prim.Native.Nat.{ℕ, ◌+◌}
use Prim.Native.Char.{code}
use Prim.Native.String.{String}
use mathlib.Core.Path.{◌≡◌, refl, ap, sym, ◌∙◌}
use mathlib.Core.Logic.{◌↔◌}
use mathlib.Core.Bool.{Bool, true, false, ◌&&◌, ◌||◌}
use mathlib.Core.List.{List, [], ◌∷◌, map}
use native.Mathlib.Omega.{arith}
use karpenter_provider_azure.Prelude.Tests.{leb, ◌==◌, if◌then◌else◌}

abbrev pub Text : Type 0
Text = List ℕ

-- The codes of a literal. `String` has its own `[]` and `∷`.
abbrev pub codes : String → Text
codes String.[] = []
codes (String.◌∷◌ c s) = code c ∷ codes s

abbrev pub is_empty : Text → Bool
is_empty [] = true
is_empty (c ∷ s) = false

unfoldable pub teq : Text → Text → Bool
teq [] [] = true
teq (c ∷ s) (d ∷ t) = (c == d) && teq s t
teq _ _ = false

pub teq_sound : (s t : Text) → teq s t ≡ true → s ≡ t
unfolding teq
teq_sound [] [] h = refl
teq_sound [] (d ∷ t) h = cc
teq_sound (c ∷ s) [] h = cc
teq_sound (c ∷ s) (d ∷ t) h = ground (arith, teq_sound s t)

pub teq_refl : (s : Text) → teq s s ≡ true
unfolding teq
teq_refl [] = refl
teq_refl (c ∷ s) = ground (arith, teq_refl s)

pub teq_iff : (s t : Text) → (teq s t ≡ true) ↔ (s ≡ t)
teq_iff s t = (teq_sound s t, λ e. ap (teq s) (sym e) ∙ teq_refl s)

-- `strings.ToLower`, on ASCII.
unfoldable pub lower : ℕ → ℕ
lower c = if leb b'A' c && leb c b'Z' then c + 32 else c

unfoldable pub to_lower : Text → Text
to_lower s = map lower s

-- `strings.HasPrefix s p`.
unfoldable pub has_prefix : Text → Text → Bool
has_prefix s [] = true
has_prefix [] (d ∷ p) = false
has_prefix (c ∷ s) (d ∷ p) = (c == d) && has_prefix s p

-- `strings.Contains s p`.
unfoldable pub contains : Text → Text → Bool
unfolding has_prefix
contains [] p = has_prefix [] p
contains (c ∷ s) p = has_prefix (c ∷ s) p || contains s p

-- `strings.EqualFold`, on ASCII.
unfoldable pub equal_fold : Text → Text → Bool
unfolding to_lower teq lower
equal_fold s t = teq (to_lower s) (to_lower t)
