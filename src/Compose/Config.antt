-- ===== src/Compose/Config.antt =====
-- `ConfigYaml`, `merge` and `yaml_parse` of src/compose.rs. Reading and deserialising one file is a
-- parameter.
use pacman_ostree.Base.{ℕ, zero, suc, String, Option, none, some, List, [], ◌∷◌, ◌++◌, Result, ok}

pub record ConfigYaml : Type 0 where
  pub include : Option (List String)
  pub ref : String
  pub packages : List String
  pub services : Option (List String)
  pub scripts : Option (List String)
  pub pacman_conf : Option String

-- The `match` that `merge` makes of each optional list.
abbrev pub merge_lists : Option (List String) → Option (List String) → Option (List String)
merge_lists (some xs) (some ys) = some (xs ++ ys)
merge_lists none (some ys) = some ys
merge_lists xs none = xs

abbrev pub or : Option String → Option String → Option String
or (some x) y = some x
or none y = y

unfoldable pub merge : ConfigYaml → ConfigYaml → ConfigYaml
merge self other = record {
  include = merge_lists self.include other.include;
  ref = other.ref;
  packages = self.packages ++ other.packages;
  services = merge_lists self.services other.services;
  scripts = merge_lists self.scripts other.scripts;
  pacman_conf = or other.pacman_conf self.pacman_conf;
}

abbrev pub includes : ConfigYaml → List String
includes config = elim config.include [ none ↦ [] | some files ↦ files ]

module _ (read : String → Result ConfigYaml) where
  -- The loop over the include files, for a parser of each.
  unfoldable pub merge_includes :
      (String → Option (Result ConfigYaml)) → List String → ConfigYaml → Option (Result ConfigYaml)
  merge_includes parse [] config = some (ok config)
  merge_includes parse (path ∷ paths) config = elim (parse path) [
    | none ↦ none
    | some (ok included) ↦ merge_includes parse paths (merge config included)
    | some failed ↦ some failed
  ]

  abbrev with_includes :
      (String → Option (Result ConfigYaml)) → Result ConfigYaml → Option (Result ConfigYaml)
  with_includes parse (ok config) = merge_includes parse (includes config) config
  with_includes parse failed = some failed

  -- The fuel is the depth of the calls: without any the recursion of the source is not at its end.
  unfoldable pub yaml_parse : ℕ → String → Option (Result ConfigYaml)
  unfolding merge_includes
  yaml_parse zero path = none
  yaml_parse (suc fuel) path = with_includes (yaml_parse fuel) (read path)
