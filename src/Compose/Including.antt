-- ===== src/Compose/Including.antt =====
-- Reading a configuration with its includes, by `yaml_parse` of src/compose.rs.
use pacman_ostree.Base.{
  ℕ, zero, suc, ◌<◌, ◌≤◌, String, ◌≡◌, refl, Option, some, List, [], ◌∷◌, arith, Result, ok, err,
  panic, All,
}
use pacman_ostree.Compose.Config.{ConfigYaml, includes, merge, merge_includes, yaml_parse}

module _ (read : String → Result ConfigYaml) where
  -- Every file that is read includes only files of a lower rank.
  abbrev pub IsRanked : (String → ℕ) → Type 0
  IsRanked rank =
      (path : String) (config : ConfigYaml)
      → read path ≡ ok config
      → All (λ f. rank f < rank path) (includes config)

  merge_includes-total :
      (parse : String → Option (Result ConfigYaml)) (paths : List String) (config : ConfigYaml)
      → All (λ f. (r : Result ConfigYaml) × (parse f ≡ some r)) paths
      → (r : Result ConfigYaml) × (merge_includes read parse paths config ≡ some r)
  unfolding merge_includes
  merge_includes-total parse [] config h = (ok config, refl)
  merge_includes-total parse (path ∷ paths) config ((ok included, e), h) =
      let (r, f) = merge_includes-total parse paths (merge config included) h in
      (r, rw (e, merge_includes) f)
  merge_includes-total parse (path ∷ paths) config ((err text, e), h) =
      (err text, rw (e, merge_includes) refl)
  merge_includes-total parse (path ∷ paths) config ((panic, e), h) =
      (panic, rw (e, merge_includes) refl)

  All-parsed :
      (rank : String → ℕ) (fuel : ℕ) (paths : List String)
      → ((f : String) → rank f < fuel → (r : Result ConfigYaml) × (yaml_parse read fuel f ≡ some r))
      → All (λ f. rank f < fuel) paths
      → All (λ f. (r : Result ConfigYaml) × (yaml_parse read fuel f ≡ some r)) paths
  All-parsed rank fuel [] total h = tt
  All-parsed rank fuel (f ∷ fs) total (lt, h) = (total f lt, All-parsed rank fuel fs total h)

  All-below :
      (rank : String → ℕ) (m n : ℕ) (paths : List String)
      → m ≤ n
      → All (λ f. rank f < m) paths
      → All (λ f. rank f < n) paths
  All-below rank m n [] le h = tt
  All-below rank m n (f ∷ fs) le (lt, h) = (omega arith, All-below rank m n fs le h)

  step :
      (fuel : ℕ) (path : String) (read_path : Result ConfigYaml)
      → read path ≡ read_path
      → ((config : ConfigYaml)
          → read path ≡ ok config
          → All
              (λ f. (r : Result ConfigYaml) × (yaml_parse read fuel f ≡ some r))
              (includes config))
      → (r : Result ConfigYaml) × (yaml_parse read (suc fuel) path ≡ some r)
  unfolding yaml_parse
  step fuel path (ok config) e total =
      let (r, f) =
        merge_includes-total (yaml_parse read fuel) (includes config) config (total config e) in
      (r, rw e f)
  step fuel path (err text) e total = (err text, rw e refl)
  step fuel path panic e total = (panic, rw e refl)

  -- Where every file includes only files of a lower rank, reading a file ends, with a configuration
  -- or with an error, at a depth of calls that is at most its rank and one.
  pub yaml_parse-total :
      (rank : String → ℕ) (fuel : ℕ) (path : String)
      → IsRanked rank
      → rank path < fuel
      → (r : Result ConfigYaml) × (yaml_parse read fuel path ≡ some r)
  yaml_parse-total rank zero path ranked lt = elim lt [ ]
  yaml_parse-total rank (suc fuel) path ranked lt = step fuel path (read path) refl (λ config e.
      All-parsed rank fuel (includes config) (λ f below. yaml_parse-total rank fuel f ranked below)
        (All-below rank (rank path) fuel (includes config) (omega arith) (ranked path config e)))
