-- ===== src/Base/Text/Laws.antt =====
-- Laws of the `str` methods.
use Prim.Native.Char.{Char, code}
use Prim.Native.String.{String, [], ◌∷◌, ◌++◌}
use mathlib.Core.Path.{◌≡◌, ◌∙◌, ap}
use mathlib.Core.Bool.{Bool, true, false, not, ◌&&◌}
use native.Mathlib.Omega.{arith}
use text.Mathlib.TextLemmas.{cons-append, nil-append}
use mathlib.Core.List.{List}
use pacman_ostree.Base.Tests.{◌==◌, nat_eq}
use pacman_ostree.Base.Text.{is_nil, is_space, trim_start, trim_end, trim, lines}

-- A text that `trim` leaves as it is, and that is not empty.
pub record IsTidy (s : String) : Type 0 where
  pub start : trim_start s ≡ s
  pub stop : trim_end s ≡ s
  pub full : is_nil s ≡ false

pub trim_end-cons :
    (c : Char) (s : String) → is_nil s ≡ false → trim_end s ≡ s → trim_end (c ∷ s) ≡ c ∷ s
unfolding trim_end
trim_end-cons c s full stop = ground (arith, full, stop)

pub one_append : (c : Char) (s : String) → (c ∷ []) ++ s ≡ c ∷ s
one_append c s = cons-append c [] s ∙ ap (◌∷◌ c) (nil-append s)

pub two_append : (c d : Char) (s : String) → (c ∷ d ∷ []) ++ s ≡ c ∷ d ∷ s
two_append c d s = cons-append c (d ∷ []) s ∙ ap (◌∷◌ c) (one_append d s)

pub three_append : (c d e : Char) (s : String) → (c ∷ d ∷ e ∷ []) ++ s ≡ c ∷ d ∷ e ∷ s
three_append c d e s = cons-append c (d ∷ e ∷ []) s ∙ ap (◌∷◌ c) (two_append d e s)

pub trim_space : (s : String) → IsTidy s → trim (" " ∷ s) ≡ s
unfolding trim trim_start is_space
trim_space s h = rw h.start h.stop

-- A text of one line.
abbrev pub is_line : String → Bool
is_line [] = true
is_line (c ∷ s) = not (code c == 10) && (not (code c == 13) && is_line s)

pub lines-append :
    (s rest : String) → is_line s ≡ true → lines (s ++ ("\n" ∷ rest)) ≡ List.◌∷◌ s (lines rest)
unfolding lines
lines-append [] rest h = ap lines (nil-append ("\n" ∷ rest))
lines-append (c ∷ s) rest h =
    ground (arith, cons-append c s ("\n" ∷ rest), lines-append s rest (ground arith))
