-- ===== src/Pool/Names.antt =====
-- Interning of names, version sets and unions in src/package_solver/pool.rs.
use mathlib.Core.Option
use mathlib.Core.Option.{get_or}
use pacman_ostree.Base.{
  ℕ, String, string_eq, nat_eq, pair_eq, Option, List, Result, ◌>>=◌, ok, unwrap, length, push,
  get_elem?,
}
use pacman_ostree.Base.Dict.{lookup}
use pacman_ostree.Pool.Types.{AlpmPool, as_u32}
use pacman_ostree.Pool.Intern.{intern}

unfoldable pub intern_name : String → AlpmPool → ℕ × AlpmPool
unfolding intern
intern_name name p = let (id, map) = intern name p.name_to_id in (id, record p { name_to_id = map })

unfoldable pub lookup_name : AlpmPool → String → Option ℕ
unfolding lookup
lookup_name p name = lookup name p.name_to_id

unfoldable pub resolve_name : AlpmPool → ℕ → String
resolve_name p id =
    get_or (Option.map (λ ((k, _) : String × ℕ). k) (get_elem? p.name_to_id id)) "<unknown>"

unfoldable pub intern_version_set : ℕ → String → AlpmPool → ℕ × AlpmPool
unfolding intern
intern_version_set name constraint p =
    let (id, map) = intern (name, constraint) p.vs_map in (id, record p { vs_map = map })

-- `expect("invalid VersionSetId")` panics.
unfoldable pub resolve_version_set : AlpmPool → ℕ → Result (ℕ × String)
resolve_version_set p id =
    unwrap (get_elem? p.vs_map id) >>= λ ((key, _) : (ℕ × String) × ℕ). ok key

unfoldable pub intern_union : List ℕ → AlpmPool → ℕ × AlpmPool
intern_union sets p = (as_u32 (length p.unions), record p { unions = push p.unions sets })

unfoldable pub resolve_union : AlpmPool → ℕ → Result (List ℕ)
resolve_union p id = unwrap (get_elem? p.unions id)
