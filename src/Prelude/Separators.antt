-- ===== src/Prelude/Separators.antt =====
-- Splitting a text that was put together from parts without the separator.
use Prim.Native.Nat.{ℕ}
use mathlib.Core.Path.{◌≡◌, refl}
use mathlib.Core.Logic.{◌≢◌}
use mathlib.Core.List.{[], ◌∷◌, ◌++◌}
use native.Mathlib.Omega.{arith}
use mirocraft.Prelude.Lists.{All}
use mirocraft.Prelude.Texts.{Text, split, cut}

-- The text does not hold the character.
abbrev pub Lacks : ℕ → Text → Type 0
Lacks d = All (λ c. c ≢ d)

pub split_of_Lacks : (d : ℕ) (s : Text) → Lacks d s → split d s ≡ s ∷ []
unfolding split
split_of_Lacks d [] h = refl
split_of_Lacks d (c ∷ s) (h, k) = ground (arith, split_of_Lacks d s k)

pub split-append : (d : ℕ) (s rest : Text) → Lacks d s → split d (s ++ d ∷ rest) ≡ s ∷ split d rest
unfolding split
split-append d [] rest h = ground arith
split-append d (c ∷ s) rest (h, k) = ground (arith, split-append d s rest k)

-- A part without the separator stands before whatever is cut off.
pub cut-append :
    (d : ℕ) (s rest : Text) → Lacks d s → cut d (s ++ rest) ≡ (s ++ (cut d rest).0, (cut d rest).1)
unfolding cut
cut-append d [] rest h = refl
cut-append d (c ∷ s) rest (h, k) = ground (arith, cut-append d s rest k)
