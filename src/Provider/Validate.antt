-- ===== src/Provider/Validate.antt =====
-- `validate_requirements` of src/package_solver/provider.rs.
use pacman_ostree.Base.{ℕ, String, Option, none, some, List, [], ◌∷◌, if◌then◌else◌}
use pacman_ostree.Base.Text.{◌<>◌}
use pacman_ostree.Pool.Types.{AlpmPool}
use pacman_ostree.Pool.Names.{resolve_name}
use pacman_ostree.Pool.Query.{conflicts}

abbrev pub Conflict : Type 0
Conflict = ℕ × ℕ × String

-- The inner loop, over the names behind `name_a`.
unfoldable pub first_conflict : AlpmPool → ℕ → List ℕ → Option Conflict
unfolding conflicts resolve_name
first_conflict p name_a [] = none
first_conflict p name_a (name_b ∷ names) =
    let later = first_conflict p name_a names in
    if conflicts p name_a name_b
    then some (
      name_a,
      name_b,
      "'" <> resolve_name p name_a <> "' conflicts with '" <> resolve_name p name_b <> "'",
    )
    else later

-- `none` is `Ok(())`.
unfoldable pub validate_requirements : AlpmPool → List ℕ → Option Conflict
unfolding first_conflict
validate_requirements p [] = none
validate_requirements p (name_a ∷ names) =
    let later = validate_requirements p names in
    elim (first_conflict p name_a names) [ some e ↦ some e | none ↦ later ]
