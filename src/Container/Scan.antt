-- ===== src/Container/Scan.antt =====
-- The scan of the commit in `container_encapsulate` of src/container.rs: `recurse`, with
-- `normalize_component` and `get_user_component_xattr`. What OSTree lists of a tree is a value.
use pacman_ostree.Base.{
  ℕ, String, string_eq, nat_eq, list_eq, ◌==◌, not, Option, none, some, List, [], ◌∷◌, ◌++◌,
  if◌then◌else◌, Result, ◌>>=◌, ok, err, contains, retain, push,
}
use pacman_ostree.Base.Text.{◌<>◌, is_nil, trim}
use pacman_ostree.Base.Paths.{join_path}
use pacman_ostree.System.Actions.{into_bytes}
use pacman_ostree.Container.Sets.{add_path, add_id}
use pacman_ostree.Container.Meta.{MappingBuilder}

-- An attribute: the bytes of its key, with the NUL at the end, and its value, if that is UTF-8.
abbrev pub Xattr : Type 0
Xattr = List ℕ × Option String

-- The attributes of a file, unless they cannot be read.
abbrev pub Xattrs : Type 0
Xattrs = Option (List Xattr)

-- What `enumerate_children` lists: a regular file or a link with its checksum, a directory, or
-- something else; the listing, or one of its entries, may fail.
mutual
  pub data Node : Type 0 where
    file : Xattrs → String → Node
    directory : Xattrs → Children → Node
    unhandled : String → Node

  pub data Children : Type 0 where
    end : Children
    failed : String → Children
    child : String → Node → Children → Children

abbrev pub component_xattr : List ℕ
component_xattr = into_bytes "user.component" ++ 0 ∷ []

abbrev pub value_of : Option String → Result (Option String)
value_of none = err "invalid utf-8 sequence"
value_of (some value) = ok (some value)

unfoldable pub find_component : List Xattr → Result (Option String)
unfolding into_bytes
find_component [] = ok none
find_component ((key, value) ∷ xattrs) =
    let rest = find_component xattrs in if key == component_xattr then value_of value else rest

unfoldable pub get_user_component_xattr : Xattrs → Result (Option String)
unfolding find_component
get_user_component_xattr none = ok none
get_user_component_xattr (some xattrs) = find_component xattrs

unfoldable pub normalize_component : Option String → Option String
unfolding trim
normalize_component none = none
normalize_component (some s) = if is_nil (trim s) then none else some (trim s)

abbrev pub or_else : Option String → Option String → Option String
or_else none o = o
or_else (some x) o = some x

-- The component of a file or directory, by its own attribute and that of the directory above.
unfoldable pub effective_component : Xattrs → Option String → Result (Option String)
unfolding get_user_component_xattr normalize_component
effective_component xattrs parent_component = get_user_component_xattr xattrs >>= λ own.
    ok (or_else (normalize_component own) (normalize_component parent_component))

abbrev pub add_component : Option String → String → MappingBuilder → MappingBuilder
add_component none path state = state
add_component (some name) path state = record state {
  component_ids = push state.component_ids name;
  path_components = add_id path name state.path_components;
}

abbrev pub add_object : String → String → MappingBuilder → MappingBuilder
add_object checksum path state = record state {
  checksum_paths = add_path checksum path state.checksum_paths;
}

unfoldable pub scan_file :
    Xattrs → String → String → Option String → MappingBuilder → Result MappingBuilder
unfolding effective_component add_path add_id
scan_file xattrs checksum path parent_component state =
    if contains state.skip path
    then ok (record state { skip = retain (λ p. not (p == path)) state.skip })
    else (effective_component xattrs parent_component >>= λ component.
        ok (add_object checksum path (add_component component path state)))

unfoldable mutual
  unfolding scan_file join_path

  pub scan_node : Node → String → Option String → MappingBuilder → Result MappingBuilder
  scan_node (file xattrs checksum) path parent_component state =
      scan_file xattrs checksum path parent_component state
  scan_node (directory xattrs children) path parent_component state =
      effective_component xattrs parent_component >>= λ component.
      recurse children path component state
  scan_node (unhandled kind) path parent_component state = err ("Unhandled file type: " <> kind)

  -- The loop over the entries of the directory with that path.
  pub recurse : Children → String → Option String → MappingBuilder → Result MappingBuilder
  recurse end path parent_component state = ok state
  recurse (failed e) path parent_component state = err e
  recurse (child name node children) path parent_component state =
      scan_node node (join_path path name) parent_component state >>= λ state'.
      recurse children path parent_component state'
