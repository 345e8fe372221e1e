-- ===== src/FsUtil/Path.antt =====
-- The paths of src/fsutil.rs. A `Utf8Path` is compared by its components, and so they stand for it
-- here.
use pacman_ostree.Base.{
  String, string_eq, ◌==◌, ◌≡◌, ◌↔◌, Bool, true, false, ◌||◌, List, [], ◌∷◌, Eq, arith,
  if◌then◌else◌,
}
use pacman_ostree.Base.Text.{is_nil, starts_with, split_char}

-- "." only stands at the start of a path that is not absolute.
pub data Component : Type 0 where
  normal : String → Component
  parent_dir cur_dir : Component

abbrev component_beq : Component → Component → Bool
component_beq (normal a) (normal b) = a == b
component_beq parent_dir parent_dir = true
component_beq cur_dir cur_dir = true
component_beq _ _ = false

pub component_beq_iff : (a b : Component) → (component_beq a b ≡ true) ↔ (a ≡ b)
component_beq_iff (normal a) (normal b) = ground (arith, string_eq.beq_iff a b)
component_beq_iff (normal a) parent_dir = ground arith
component_beq_iff (normal a) cur_dir = ground arith
component_beq_iff parent_dir b = ground arith
component_beq_iff cur_dir b = ground arith

instance abbrev pub component_eq : Eq Component
component_eq = record { beq = component_beq; beq_iff = component_beq_iff }

-- An absolute path: its components, the last of them first. `parent` is the tail, and there is none
-- of the root.
abbrev pub Utf8Path : Type 0
Utf8Path = List Component

abbrev components_of : List String → List Component
components_of [] = []
components_of (piece ∷ pieces) =
    let rest = components_of pieces in
    if is_nil piece || piece == "."
    then rest
    else if piece == ".."
    then parent_dir ∷ rest
    else normal piece ∷ rest

abbrev leading : List String → List Component
leading [] = []
leading (piece ∷ pieces) =
    let rest = components_of pieces in
    if piece == "." then cur_dir ∷ rest else components_of (piece ∷ pieces)

-- `components`, without the root of an absolute path.
unfoldable pub components : String → List Component
unfolding split_char
components path = leading (split_char b'/' path)

abbrev pub is_absolute : String → Bool
is_absolute path = starts_with path "/"

-- The parts of an absolute path, the last of them first.
abbrev reversed : List Component → Utf8Path → Utf8Path
reversed [] path = path
reversed (c ∷ cs) path = reversed cs (c ∷ path)

unfoldable pub absolute_path : String → Utf8Path
unfolding components
absolute_path path = reversed (components path) []

-- `pop` leaves the root as it is.
abbrev pop : Utf8Path → Utf8Path
pop [] = []
pop (c ∷ path) = path

-- The loop over the components of a link, from the directory that it is in.
unfoldable pub follow : List Component → Utf8Path → Utf8Path
follow [] path = path
follow (parent_dir ∷ items) path = follow items (pop path)
follow (normal name ∷ items) path = follow items (normal name ∷ path)
follow (cur_dir ∷ items) path = follow items path

-- Where a link points, by the directory that it is in.
unfoldable pub target_path : Utf8Path → String → Utf8Path
unfolding follow components absolute_path starts_with
target_path parent link =
    if is_absolute link then absolute_path link else follow (components link) parent
