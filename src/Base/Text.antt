-- ===== src/Base/Text.antt =====
pub mod Laws
-- The `str` methods that the program calls, on the native `String`.
use Prim.Native.Nat.{ℕ}
use Prim.Native.Char.{Char, code}
use Prim.Native.String.{String, [], ◌∷◌, ◌++◌}
use mathlib.Core.Bool.{Bool, true, false, ◌&&◌, ◌||◌}
use mathlib.Core.Option
use mathlib.Core.Option.{Option, none, some}
use mathlib.Core.List.{List}
use pacman_ostree.Base.Tests.{◌==◌, nat_eq, if◌then◌else◌, leb, is_some}

-- Concatenation, as `format!` joins its parts.
infixl 65 ◌<>◌
abbrev pub ◌<>◌ : String → String → String
◌<>◌ = ◌++◌

abbrev pub is_nil : String → Bool
is_nil [] = true
is_nil (c ∷ s) = false

-- `char::is_whitespace`: the code points with the property White_Space.
unfoldable pub is_space : ℕ → Bool
is_space c =
    (leb 9 c && leb c 13)
    || c == 32
    || c == 0x85
    || c == 0xA0
    || c == 0x1680
    || (leb 0x2000 c && leb c 0x200A)
    || c == 0x2028
    || c == 0x2029
    || c == 0x202F
    || c == 0x205F
    || c == 0x3000

unfoldable pub trim_start : String → String
unfolding is_space
trim_start [] = []
trim_start (c ∷ s) = let rest = trim_start s in if is_space (code c) then rest else c ∷ s

unfoldable pub trim_end : String → String
unfolding is_space
trim_end [] = []
trim_end (c ∷ s) =
    let rest = trim_end s in if is_space (code c) && is_nil rest then [] else c ∷ rest

unfoldable pub trim : String → String
unfolding trim_start trim_end
trim s = trim_end (trim_start s)

-- `trim_start_matches` with a character
unfoldable pub trim_start_matches : ℕ → String → String
trim_start_matches k [] = []
trim_start_matches k (c ∷ s) =
    let rest = trim_start_matches k s in if code c == k then rest else c ∷ s

-- `strip_prefix`; `starts_with` asks whether it succeeds.
unfoldable pub strip_prefix : String → String → Option String
strip_prefix [] s = some s
strip_prefix (p ∷ ps) [] = none
strip_prefix (p ∷ ps) (c ∷ s) =
    let later = strip_prefix ps s in if code p == code c then later else none

unfoldable pub starts_with : String → String → Bool
unfolding strip_prefix
starts_with s p = is_some (strip_prefix p s)

-- `ends_with` with a character
unfoldable pub ends_with : String → ℕ → Bool
ends_with [] k = false
ends_with (c ∷ s) k = if is_nil s then code c == k else ends_with s k

-- `split_once`: around the first occurrence.
unfoldable pub split_once : String → String → Option (String × String)
unfolding strip_prefix
split_once p [] = Option.map (λ rest. ([], rest)) (strip_prefix p [])
split_once p (c ∷ s) =
    let later = Option.map (λ ((a, b) : String × String). (c ∷ a, b)) (split_once p s) in
    elim (strip_prefix p (c ∷ s)) [ none ↦ later | some rest ↦ some ([], rest) ]

unfoldable pub str_contains : String → String → Bool
unfolding split_once
str_contains s p = is_some (split_once p s)

-- `rfind(k)`, with the text on both sides of the last occurrence.
unfoldable pub rsplit_once : ℕ → String → Option (String × String)
rsplit_once k [] = none
rsplit_once k (c ∷ s) = elim (rsplit_once k s) [
  | some (a, b) ↦ some (c ∷ a, b)
  | none ↦ if code c == k then some ([], s) else none
]

abbrev extend_first : Char → List String → List String
extend_first c List.[] = List.◌∷◌ (c ∷ []) List.[]
extend_first c (List.◌∷◌ l ls) = List.◌∷◌ (c ∷ l) ls

abbrev at_newline : String → Bool
at_newline [] = false
at_newline (c ∷ s) = code c == 10

-- `lines`: each line ends at "\n" or "\r\n"; no line follows the last line ending.
unfoldable pub lines : String → List String
lines [] = List.[]
lines (c ∷ s) =
    let rest = lines s in
    if code c == 10
    then List.◌∷◌ [] rest
    else if code c == 13 && at_newline s
    then rest
    else extend_first c rest

abbrev without_empty : List String → List String
without_empty List.[] = List.[]
without_empty (List.◌∷◌ w ws) =
    let rest = without_empty ws in if is_nil w then rest else List.◌∷◌ w rest

-- The pieces between white space, which may be empty.
unfoldable pieces : String → List String
unfolding is_space
pieces [] = List.◌∷◌ [] List.[]
pieces (c ∷ s) =
    let rest = pieces s in if is_space (code c) then List.◌∷◌ [] rest else extend_first c rest

unfoldable pub split_whitespace : String → List String
unfolding pieces
split_whitespace s = without_empty (pieces s)

-- `split` with a character
unfoldable pub split_char : ℕ → String → List String
split_char k [] = List.◌∷◌ [] List.[]
split_char k (c ∷ s) =
    let rest = split_char k s in if code c == k then List.◌∷◌ [] rest else extend_first c rest

-- `join`
unfoldable pub join : String → List String → String
join sep List.[] = []
join sep (List.◌∷◌ s List.[]) = s
join sep (List.◌∷◌ s (List.◌∷◌ t ts)) = s <> (sep <> join sep (List.◌∷◌ t ts))
