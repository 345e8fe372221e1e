-- ===== src/Base/Paths.antt =====
-- `Path::parent`, `Path::file_name` and `Path::join`, on the text of a path.
use Prim.Native.Char.{code}
use Prim.Native.String.{String, [], ◌∷◌}
use mathlib.Core.Bool.{Bool, false, ◌&&◌, ◌||◌}
use mathlib.Core.Option.{Option, none, some}
use pacman_ostree.Base.Tests.{◌==◌, nat_eq, string_eq, if◌then◌else◌}
use pacman_ostree.Base.Text.{◌<>◌, is_nil, ends_with, rsplit_once}

-- Without the slashes, and the "/.", at the end.
unfoldable pub trim_tail : String → String
trim_tail [] = []
trim_tail (c ∷ s) =
    let rest = trim_tail s in
    if code c == b'/' && (is_nil rest || rest == ".") then [] else c ∷ rest

abbrev has_root : String → Bool
has_root [] = false
has_root (c ∷ s) = code c == b'/'

unfoldable pub parent : String → Option String
unfolding trim_tail rsplit_once
parent path =
    let t = trim_tail path in
    elim (rsplit_once b'/' t) [
      | some (before, name) ↦
          some (if is_nil (trim_tail before) && has_root path then "/" else trim_tail before)
      | none ↦ if is_nil t then none else some []
    ]

abbrev as_name : String → Option String
as_name name = if is_nil name || (name == "." || name == "..") then none else some name

unfoldable pub file_name : String → Option String
unfolding trim_tail rsplit_once
file_name path = elim (rsplit_once b'/' (trim_tail path)) [
  | some (before, name) ↦ as_name name
  | none ↦ as_name (trim_tail path)
]

-- For a part that is not absolute.
unfoldable pub join_path : String → String → String
unfolding ends_with
join_path path part =
    if is_nil path || ends_with path b'/' then path <> part else path <> "/" <> part
