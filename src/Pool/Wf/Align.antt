-- ===== src/Pool/Wf/Align.antt =====
-- The parallel tables of solvables, package indices, packages and provides, in
-- src/package_solver/pool.rs.
use pacman_ostree.Base.{
  ℕ, zero, suc, ◌+◌, ◌<◌, String, ◌≡◌, refl, some, List, [], ◌∷◌, ◌++◌, arith, length, get_elem?,
  set,
}
use pacman_ostree.Pool.Types.{AlpmProvide, AlpmPackage, Solvable}
use pacman_ostree.Pool.Add.{provided}

-- Solvable `s` stands for package `q`.
pub record StandsFor (s : Solvable) (q : AlpmPackage) : Type 0 where
  pub name : s.name ≡ q.name
  pub version : s.version ≡ q.version
  pub repo : s.repo ≡ q.repo

-- From position `n` on: the index of each solvable is its position, and the package there is its
-- own.
abbrev pub AlignedFrom :
    ℕ → List Solvable → List ℕ → List AlpmPackage → List (List AlpmProvide) → Type 0
AlignedFrom n [] [] [] [] = Unit
AlignedFrom n (s ∷ ss) (i ∷ is) (q ∷ qs) (ps ∷ pss) =
    (i ≡ n) × StandsFor s q × (ps ≡ q.provides) × AlignedFrom (suc n) ss is qs pss
AlignedFrom n _ _ _ _ = ⊥

abbrev pub Aligned : List Solvable → List ℕ → List AlpmPackage → List (List AlpmProvide) → Type 0
Aligned = AlignedFrom 0

pub AlignedFrom-push :
    (n : ℕ) (ss : List Solvable) (is : List ℕ) (qs : List AlpmPackage)
    (pss : List (List AlpmProvide)) (s : Solvable) (i : ℕ) (q : AlpmPackage)
    → AlignedFrom n ss is qs pss
    → StandsFor s q
    → i ≡ n + length qs
    → AlignedFrom n (ss ++ s ∷ []) (is ++ i ∷ []) (qs ++ q ∷ []) (pss ++ q.provides ∷ [])
AlignedFrom-push n [] [] [] [] s i q h st at = (omega arith, st, refl, tt)
AlignedFrom-push n (_ ∷ ss) (_ ∷ is) (_ ∷ qs) (_ ∷ pss) s i q (e, t, p, h) st at =
    (e, t, p, AlignedFrom-push (suc n) ss is qs pss s i q h st (omega arith))
AlignedFrom-push n _ _ _ _ s i q h st at = elim h [ ]

pub Aligned-lengths :
    (n : ℕ) (ss : List Solvable) (is : List ℕ) (qs : List AlpmPackage)
    (pss : List (List AlpmProvide))
    → AlignedFrom n ss is qs pss
    → (length is ≡ length ss) × (length qs ≡ length ss) × (length pss ≡ length ss)
Aligned-lengths n [] [] [] [] h = (refl, refl, refl)
Aligned-lengths n (_ ∷ ss) (_ ∷ is) (_ ∷ qs) (_ ∷ pss) (e, t, p, h) =
    let (l, m, k) = Aligned-lengths (suc n) ss is qs pss h in
    (omega arith, omega arith, omega arith)
Aligned-lengths n _ _ _ _ h = elim h [ ]

-- Every position below the length has its solvable, its index, its package and its provides.
pub AlignedFrom-at :
    (n : ℕ) (ss : List Solvable) (is : List ℕ) (qs : List AlpmPackage)
    (pss : List (List AlpmProvide)) (j : ℕ)
    → AlignedFrom n ss is qs pss
    → j < length ss
    → (s : Solvable) × (q : AlpmPackage) × (get_elem? ss j ≡ some s)
      × (get_elem? is j ≡ some (n + j))
      × (get_elem? qs j ≡ some q)
      × (get_elem? pss j ≡ some q.provides)
      × StandsFor s q
AlignedFrom-at n [] [] [] [] j h lt = elim lt [ ]
AlignedFrom-at n (s ∷ ss) (i ∷ is) (q ∷ qs) (ps ∷ pss) zero (e, t, p, h) lt =
    (s, q, refl, ground arith, refl, ground arith, t)
AlignedFrom-at n (_ ∷ ss) (_ ∷ is) (_ ∷ qs) (_ ∷ pss) (suc j) (e, t, p, h) lt =
    let (s, q, at_s, at_i, at_q, at_p, st) =
      AlignedFrom-at (suc n) ss is qs pss j h (omega arith) in
    (s, q, at_s, ground arith, at_q, at_p, st)
AlignedFrom-at n _ _ _ _ j h lt = elim h [ ]

-- A version that is filled in leaves the tables aligned.
pub AlignedFrom-set :
    (n : ℕ) (ss : List Solvable) (is : List ℕ) (qs : List AlpmPackage)
    (pss : List (List AlpmProvide)) (j : ℕ) (s : Solvable) (v : String)
    → get_elem? ss j ≡ some s
    → AlignedFrom n ss is qs pss
    → AlignedFrom n (set ss j (provided s v)) is qs pss
AlignedFrom-set n [] is qs pss j s v at h = cc
AlignedFrom-set n (t ∷ ss) (i ∷ is) (q ∷ qs) (ps ∷ pss) zero s v at (e, st, p, h) =
    (e, ground arith, p, h)
AlignedFrom-set n (t ∷ ss) (i ∷ is) (q ∷ qs) (ps ∷ pss) (suc j) s v at (e, st, p, h) =
    (e, st, p, AlignedFrom-set (suc n) ss is qs pss j s v at h)
AlignedFrom-set n (t ∷ ss) _ _ _ j s v at h = elim h [ ]
