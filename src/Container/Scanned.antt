-- ===== src/Container/Scanned.antt =====
-- What `recurse` of src/container.rs records of a tree.
use mathlib.Core.Path.{subst}
use pacman_ostree.Base.{
  String, string_eq, ◌==◌, ◌≡◌, refl, sym, ap, ◌∙◌, Bool, false, ◌&&◌, ◌||◌, Option, none, some, [],
  arith, ok, >>=-eq-ok, contains,
}
use pacman_ostree.Base.Paths.{join_path}
use pacman_ostree.Container.Sets.{holds, holds-add_path, holds-add_id}
use pacman_ostree.Container.Meta.{MappingBuilder}
use pacman_ostree.Base.Text.{trim, is_nil}
use pacman_ostree.Base.{inl, inr, Bool-cases, List, ◌∷◌, ◌++◌, if◌then◌else◌, nat_eq, list_eq}
use pacman_ostree.System.Actions.{into_bytes}
use pacman_ostree.Container.Scan.{
  value_of, component_xattr, Xattr, find_component, get_user_component_xattr, normalize_component,
  or_else, Xattrs, Node, file, directory, unhandled, Children, end, failed, child,
  effective_component, add_component, add_object, scan_file, scan_node, recurse,
}

abbrev is_it : String → Option String → Bool
is_it id none = false
is_it id (some name) = name == id

-- The text without the spaces around it, if there is any.
abbrev cleaned : Option String → Option String
cleaned none = none
cleaned (some text) = if is_nil (trim text) then none else some (trim text)

-- The first "user.component" among the attributes.
abbrev tag_in : List Xattr → Option String
tag_in [] = none
tag_in ((key, value) ∷ xattrs) =
    let rest = tag_in xattrs in
    if key == into_bytes "user.component" ++ 0 ∷ [] then cleaned value else rest

abbrev tag_of : Xattrs → Option String
tag_of none = none
tag_of (some xattrs) = tag_in xattrs

-- A component of its own comes before that of the directories above.
abbrev component_at : Xattrs → Option String → Option String
component_at xattrs above = elim (tag_of xattrs) [ some tag ↦ some tag | none ↦ cleaned above ]

-- The tree has that object at the path `target`.
abbrev mutual
  pub node_has : Node → String → String → String → Bool
  node_has (file xattrs sum) path checksum target = sum == checksum && path == target
  node_has (directory xattrs children) path checksum target =
      has_object children path checksum target
  node_has (unhandled kind) path checksum target = false

  pub has_object : Children → String → String → String → Bool
  has_object end path checksum target = false
  has_object (failed e) path checksum target = false
  has_object (child name node children) path checksum target =
      node_has node (join_path path name) checksum target
      || has_object children path checksum target

-- The tree has a file at `target` whose component, its own or that of the nearest directory with
-- one, is `id`.
abbrev mutual
  pub node_tagged : Node → String → Option String → String → String → Bool
  node_tagged (file xattrs sum) path above id target =
      path == target && is_it id (component_at xattrs above)
  node_tagged (directory xattrs children) path above id target =
      is_tagged children path (component_at xattrs above) id target
  node_tagged (unhandled kind) path above id target = false

  pub is_tagged : Children → String → Option String → String → String → Bool
  is_tagged end path above id target = false
  is_tagged (failed e) path above id target = false
  is_tagged (child name node children) path above id target =
      node_tagged node (join_path path name) above id target
      || is_tagged children path above id target

-- What a scan that succeeds has done: the objects and the tags that are new, and what stays.
pub record IsScanned (s s' : MappingBuilder) (new_object new_tag : String → String → Bool)
    : Type 0 where
  pub objects :
      (checksum target : String)
      → holds checksum target s'.checksum_paths
        ≡ (holds checksum target s.checksum_paths || new_object checksum target)
  pub tags :
      (id target : String)
      → holds target id s'.path_components
        ≡ (holds target id s.path_components || new_tag id target)
  pub skip : s'.skip ≡ s.skip
  pub packages : s'.path_packages ≡ s.path_packages
  pub meta : s'.packagemeta ≡ s.packagemeta
  pub unpackaged : s'.unpackaged_id ≡ s.unpackaged_id

IsScanned-then :
    (s s1 s2 : MappingBuilder) (o o' t t' : String → String → Bool)
    → IsScanned s s1 o t
    → IsScanned s1 s2 o' t'
    → IsScanned s s2 (λ c p. o c p || o' c p) (λ i p. t i p || t' i p)
IsScanned-then s s1 s2 o o' t t' a b = record {
  objects = λ c p. ground (arith, a.objects c p, b.objects c p);
  tags = λ i p. ground (arith, a.tags i p, b.tags i p);
  skip = b.skip ∙ a.skip;
  packages = b.packages ∙ a.packages;
  meta = b.meta ∙ a.meta;
  unpackaged = b.unpackaged ∙ a.unpackaged;
}

nothing_new : (s : MappingBuilder) → IsScanned s s (λ c p. false) (λ i p. false)
nothing_new s = record {
  objects = λ c p. ground arith;
  tags = λ i p. ground arith;
  skip = refl;
  packages = refl;
  meta = refl;
  unpackaged = refl;
}

tags-add_component :
    (o : Option String) (path : String) (s : MappingBuilder) (id target : String)
    → holds target id (add_component o path s).path_components
      ≡ (holds target id s.path_components || (path == target && is_it id o))
tags-add_component none path s id target = ground arith
tags-add_component (some name) path s id target =
    ground (arith, holds-add_id path name s.path_components target id)

recorded :
    (o : Option String) (checksum path : String) (s : MappingBuilder)
    → IsScanned s
        (add_object checksum path (add_component o path s))
        (λ c p. checksum == c && path == p)
        (λ i p. path == p && is_it i o)
recorded none checksum path s = record {
  objects = λ c p. ground (arith, holds-add_path checksum path s.checksum_paths c p);
  tags = λ i p. ground arith;
  skip = refl;
  packages = refl;
  meta = refl;
  unpackaged = refl;
}
recorded (some name) checksum path s = record {
  objects = λ c p. ground (arith, holds-add_path checksum path s.checksum_paths c p);
  tags = λ i p. tags-add_component (some name) path s i p;
  skip = refl;
  packages = refl;
  meta = refl;
  unpackaged = refl;
}

cleaned-eq : (o : Option String) → normalize_component o ≡ cleaned o
unfolding normalize_component
cleaned-eq none = refl
cleaned-eq (some text) = refl

own_inj : {a b : Option String} → ok a ≡ ok b → a ≡ b
own_inj e = ground (arith, e)

value_ok :
    (value : Option String) {own : Option String}
    → value_of value ≡ ok own
    → normalize_component own ≡ cleaned value
value_ok none {own} e = cc
value_ok (some text) {own} e = ap normalize_component (sym (own_inj e)) ∙ cleaned-eq (some text)

tag_in_ok :
    (xattrs : List Xattr) {own : Option String}
    → find_component xattrs ≡ ok own
    → normalize_component own ≡ tag_in xattrs
unfolding find_component
tag_in_ok [] {own} e = ap normalize_component (sym (own_inj e)) ∙ cleaned-eq none
tag_in_ok ((key, value) ∷ xattrs) {own} e = elim (Bool-cases (key == component_xattr)) [
  | inl it ↦ rw it (value_ok value {own = own} (ground (arith, it, e)))
  | inr other ↦ rw other (tag_in_ok xattrs {own = own} (ground (arith, other, e)))
]

tag_of_ok :
    (xattrs : Xattrs) {own : Option String}
    → get_user_component_xattr xattrs ≡ ok own
    → normalize_component own ≡ tag_of xattrs
unfolding get_user_component_xattr
tag_of_ok none {own} e = ap normalize_component (sym (own_inj e)) ∙ cleaned-eq none
tag_of_ok (some xattrs) {own} e = tag_in_ok xattrs {own = own} e

component_at_ok :
    (xattrs : Xattrs) (above : Option String) {component : Option String}
    → effective_component xattrs above ≡ ok component
    → component_at xattrs above ≡ component
unfolding effective_component
component_at_ok xattrs above {component} found =
    let (own, read, e) = >>=-eq-ok (get_user_component_xattr xattrs) _ {y = component} found in
    first_tag (normalize_component own) (normalize_component above)
      (tag_of_ok xattrs {own = own} read) (cleaned-eq above)
    ∙ own_inj e
  where
    first_tag :
        (a b : Option String)
        → a ≡ tag_of xattrs
        → b ≡ cleaned above
        → component_at xattrs above ≡ or_else a b
    first_tag none b e f = ground (arith, e, f)
    first_tag (some t) b e f = ground (arith, e)

scan_file-IsScanned :
    (xattrs : Xattrs) (sum path : String) (above : Option String) (s : MappingBuilder)
    {s' : MappingBuilder}
    → s.skip ≡ []
    → scan_file xattrs sum path above s ≡ ok s'
    → IsScanned s s' (node_has (file xattrs sum) path) (node_tagged (file xattrs sum) path above)
unfolding scan_file
scan_file-IsScanned xattrs sum path above s {s'} none_skipped e =
    let not_skipped : contains s.skip path ≡ false = ap (λ l. contains l path) none_skipped in
    let (component, found, e') =
      >>=-eq-ok (effective_component xattrs above)
        (λ o. ok (add_object sum path (add_component o path s))) {y = s'}
        (ground (arith, not_skipped, e)) in
    let same : add_object sum path (add_component component path s) ≡ s' = ground (arith, e') in
    subst
      (λ x.
        IsScanned s x (node_has (file xattrs sum) path) (node_tagged (file xattrs sum) path above))
      same
      (subst
        (λ o.
          IsScanned s (add_object sum path (add_component component path s))
            (node_has (file xattrs sum) path) (λ i p. path == p && is_it i o))
        (sym (component_at_ok xattrs above found)) (recorded component sum path s))

mutual
  unfolding scan_node

  node-IsScanned :
      (node : Node) (path : String) (above : Option String) (s : MappingBuilder)
      {s' : MappingBuilder}
      → s.skip ≡ []
      → scan_node node path above s ≡ ok s'
      → IsScanned s s' (node_has node path) (node_tagged node path above)
  node-IsScanned (file xattrs sum) path above s {s'} none_skipped e =
      scan_file-IsScanned xattrs sum path above s none_skipped e
  node-IsScanned (directory xattrs children) path above s {s'} none_skipped e =
      let (component, found, e') = >>=-eq-ok (effective_component xattrs above) _ {y = s'} e in
      subst (λ o. IsScanned s s' (has_object children path) (is_tagged children path o))
        (sym (component_at_ok xattrs above found))
        (children-IsScanned children path component s {s' = s'} none_skipped e')
  node-IsScanned (unhandled kind) path above s {s'} none_skipped e = cc

  children-IsScanned :
      (children : Children) (path : String) (above : Option String) (s : MappingBuilder)
      {s' : MappingBuilder}
      → s.skip ≡ []
      → recurse children path above s ≡ ok s'
      → IsScanned s s' (has_object children path) (is_tagged children path above)
  children-IsScanned end path above s {s'} none_skipped e =
      let same : s ≡ s' = ground (arith, e) in
      subst (λ x. IsScanned s x (has_object end path) (is_tagged end path above)) same
        (nothing_new s)
  children-IsScanned (failed t) path above s {s'} none_skipped e = cc
  children-IsScanned (child name node children) path above s {s'} none_skipped e =
      let (s1, e1, e2) = >>=-eq-ok (scan_node node (join_path path name) above s) _ {y = s'} e in
      let first = node-IsScanned node (join_path path name) above s {s' = s1} none_skipped e1 in
      IsScanned-then s s1 s' _ _ _ _ first
        (children-IsScanned children path above s1 {s' = s'} (first.skip ∙ none_skipped) e2)

-- A scan that succeeds, with no paths to skip, has recorded exactly the files of the tree: each
-- path with its checksum, and, for a file that has a component of its own or under a directory
-- with one, the nearest of these. The rest of the state is kept, but for the names of the
-- components.
pub recurse-IsScanned :
    (children : Children) (path : String) (above : Option String) (s : MappingBuilder)
    {s' : MappingBuilder}
    → s.skip ≡ []
    → recurse children path above s ≡ ok s'
    → IsScanned s s' (has_object children path) (is_tagged children path above)
recurse-IsScanned children path above s {s'} none_skipped e =
    children-IsScanned children path above s {s' = s'} none_skipped e
