-- ===== src/Pool/Version.antt =====
-- `version_matches` of src/package_solver/pool.rs. `vercmp` of libalpm is a parameter.
use pacman_ostree.Base.{String, Bool, true, false, none, some, Ordering, if◌then◌else◌}
use pacman_ostree.Base.Text.{trim, strip_prefix, is_nil}

-- The operators ">=", "<=", ">", "<" and "=".
pub data Op : Type 0 where
  ge le gt lt eq : Op

-- The chain of `strip_prefix`: the first operator that fits, and the trimmed rest. Without an
-- operator the whole text is the version, and must be met exactly.
unfoldable pub split_op : String → Op × String
split_op c = elim (strip_prefix ">=" c) [
  | some v ↦ (ge, trim v)
  | none ↦ elim (strip_prefix "<=" c) [
    | some v ↦ (le, trim v)
    | none ↦ elim (strip_prefix ">" c) [
      | some v ↦ (gt, trim v)
      | none ↦ elim (strip_prefix "<" c) [
        | some v ↦ (lt, trim v)
        | none ↦ elim (strip_prefix "=" c) [ some v ↦ (eq, trim v) | none ↦ (eq, c) ]
      ]
    ]
  ]
]

-- The last `match`, on the operator and the sign of the comparison.
unfoldable pub holds : Op → Ordering → Bool
holds ge Ordering.lt = false
holds ge Ordering.eq = true
holds ge Ordering.gt = true
holds le Ordering.lt = true
holds le Ordering.eq = true
holds le Ordering.gt = false
holds gt Ordering.lt = false
holds gt Ordering.eq = false
holds gt Ordering.gt = true
holds lt Ordering.lt = true
holds lt Ordering.eq = false
holds lt Ordering.gt = false
holds eq Ordering.lt = false
holds eq Ordering.eq = true
holds eq Ordering.gt = false

module _ (vercmp : String → String → Ordering) where
  unfoldable pub version_matches : String → String → Bool
  unfolding split_op holds
  version_matches pkg_ver constraint =
      let c = trim constraint in
      if is_nil c
      then true
      else (let (op, req) = split_op c in
          if is_nil req then true else holds op (vercmp pkg_ver req))
