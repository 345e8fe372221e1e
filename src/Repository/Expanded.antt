-- ===== src/Repository/Expanded.antt =====
-- What `expand_names` of src/package_manager/alpm_integration.rs returns.
use mathlib.Core.Path.{subst}
use pacman_ostree.Base.{
  String, string_eq, ◌==◌, ◌≡◌, Bool, true, ◌||◌, List, [], ◌∷◌, ◌++◌, map, arith, inl, inr,
  Bool-cases, >>=-eq-ok, ok, retain, is_empty, is_some, any, All, All-append, eq_iff,
}
use pacman_ostree.Repository.Alpm.{AlpmPkg, Db, Alpm}
use pacman_ostree.Repository.Lookup.{
  find_package, in_group, group_packages, group_in, expand_name, expand_names,
}

abbrev pub has_named : List AlpmPkg → String → Bool
has_named pkgs name = any (λ (pkg : AlpmPkg). pkg.name == name) pkgs

abbrev pub lists : List Db → String → Bool
lists dbs name = any (λ (db : Db). has_named db.pkgs name) dbs

-- The name is found in a database, or is that of a package that a database lists.
abbrev pub is_offered : Alpm → String → Bool
is_offered alpm name = is_some (find_package alpm name) || lists alpm.syncdbs name

weaken :
    (P Q : String → Bool) (l : List String)
    → ((n : String) → P n ≡ true → Q n ≡ true)
    → All (λ n. P n ≡ true) l
    → All (λ n. Q n ≡ true) l
weaken P Q [] f h = tt
weaken P Q (n ∷ l) f (p, h) = (f n p, weaken P Q l f h)

names-listed :
    (group : String) (pkgs : List AlpmPkg)
    → All
        (λ n. has_named pkgs n ≡ true)
        (map (λ (pkg : AlpmPkg). pkg.name) (retain (in_group group) pkgs))
names-listed group [] = tt
names-listed group (pkg ∷ pkgs) =
    let rest =
      weaken (has_named pkgs) (has_named (pkg ∷ pkgs))
        (map (λ (q : AlpmPkg). q.name) (retain (in_group group) pkgs)) (λ n p. ground arith)
        (names-listed group pkgs) in
    elim (Bool-cases (in_group group pkg)) [
      | inl member ↦ rw member (ground (arith, eq_iff pkg.name pkg.name), rest)
      | inr other ↦ rw other rest
    ]

group_in-listed :
    (dbs : List Db) (group : String) → All (λ n. lists dbs n ≡ true) (group_in dbs group)
unfolding group_in group_packages
group_in-listed [] group = tt
group_in-listed (db ∷ dbs) group =
    let here = map (λ (q : AlpmPkg). q.name) (retain (in_group group) db.pkgs) in
    elim (Bool-cases (is_empty here)) [
      | inl nothing ↦ rw nothing (
          weaken (lists dbs) (lists (db ∷ dbs)) (group_in dbs group) (λ n p. ground arith)
            (group_in-listed dbs group))
      | inr something ↦ rw something (
          weaken (has_named db.pkgs) (lists (db ∷ dbs)) here (λ n p. ground arith)
            (names-listed group db.pkgs))
    ]

abbrev pub AllOffered : Alpm → List String → Type 0
AllOffered alpm = All (λ n. is_offered alpm n ≡ true)

expand_name-AllOffered :
    (alpm : Alpm) (name : String) {l : List String}
    → expand_name alpm name ≡ ok l
    → AllOffered alpm l
unfolding expand_name
expand_name-AllOffered alpm name {l} e = elim (Bool-cases (is_empty (group_in alpm.syncdbs name))) [
  | inr group ↦
      let same : group_in alpm.syncdbs name ≡ l = ground (arith, group) in
      subst (AllOffered alpm) same (
        weaken (lists alpm.syncdbs) (is_offered alpm) (group_in alpm.syncdbs name)
          (λ n p. ground arith) (group_in-listed alpm.syncdbs name))
  | inl alone ↦ elim (Bool-cases (is_some (find_package alpm name))) [
    | inl found ↦
        let same : name ∷ [] ≡ l = ground (arith, alone, found) in
        subst (AllOffered alpm) same (ground (arith, found), tt)
    | inr absent ↦ absurd (ground (arith, alone, absent))
  ]
]

-- Every name that is returned is found in a database, or is that of a package that one lists.
pub expand_names-AllOffered :
    (alpm : Alpm) (names : List String) {l : List String}
    → expand_names alpm names ≡ ok l
    → AllOffered alpm l
unfolding expand_names
expand_names-AllOffered alpm [] {l} e =
    let same : [] ≡ l = ground arith in subst (AllOffered alpm) same tt
expand_names-AllOffered alpm (name ∷ names) {l} e =
    let (expanded, f, rest) = >>=-eq-ok (expand_name alpm name) _ {y = l} e in
    let (later, g, last) = >>=-eq-ok (expand_names alpm names) _ {y = l} rest in
    let same : expanded ++ later ≡ l = ground arith in
    subst (AllOffered alpm) same (
      All-append (λ n. is_offered alpm n ≡ true) expanded later
        (expand_name-AllOffered alpm name {l = expanded} f)
        (expand_names-AllOffered alpm names {l = later} g))
