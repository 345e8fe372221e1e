-- ===== src/Repository/Download.antt =====
-- Which addresses `download_packages_to_cache` of src/package_manager/alpm_integration.rs fetches.
use pacman_ostree.Base.{
  String, Option, none, some, List, [], ◌∷◌, if◌then◌else◌, Result, ◌>>=◌, ok, is_empty, first,
}
use pacman_ostree.Base.Text.{◌<>◌, ends_with}
use pacman_ostree.Repository.Alpm.{Db, Alpm}

unfoldable pub url_at : String → String → String
unfolding ends_with
url_at server filename =
    if ends_with server b'/' then server <> filename else server <> "/" <> filename

-- The first database that has the package with a file name, and a server.
unfoldable pub url_for : List Db → String → Option String
unfolding url_at
url_for [] name = none
url_for (db ∷ dbs) name =
    let later = url_for dbs name in
    elim (db.pkg name) [
      | none ↦ later
      | some pkg ↦ elim pkg.filename [
        | none ↦ later
        | some filename ↦ elim (first db.servers) [
          | none ↦ later
          | some server ↦ some (url_at server filename)
        ]
      ]
    ]

-- A package without an address is skipped.
unfoldable pub urls_for : List Db → List String → List String
unfolding url_for
urls_for dbs [] = []
urls_for dbs (name ∷ names) =
    let later = urls_for dbs names in
    elim (url_for dbs name) [ some url ↦ url ∷ later | none ↦ later ]

-- `create_dir_all`, `set_cachedirs` and `fetch_pkgurl` are the parameters.
module _ (prepare : String → Result (Unit {0})) (fetch : List String → Result (List String)) where
  unfoldable pub download_packages_to_cache : Alpm → List String → String → Result (Unit {0})
  unfolding urls_for
  download_packages_to_cache alpm names cache_dir = prepare cache_dir >>= λ _.
      (let urls = urls_for alpm.syncdbs names in
        if is_empty urls then ok tt else (fetch urls >>= λ _. ok tt))
