-- ===== src/Pool/Wf/Provide.antt =====
-- The map `virtuals` against what each package provides, in src/package_solver/pool.rs.
use mathlib.Core.Option.{get_or}
use pacman_ostree.Base.{
  ℕ, zero, suc, String, string_eq, nat_eq, ◌==◌, ◌≡◌, ◌∙◌, Bool, false, ◌&&◌, ◌||◌, List, [], ◌∷◌,
  ◌++◌, arith, if◌then◌else◌, length, push, any, contains, contains-append, eq_iff, nat_beq_iff,
}
use pacman_ostree.Base.Dict.{Dict, lookup, entry_push, lookup-entry_push}
use pacman_ostree.Pool.Types.{AlpmProvide, Provider}
use pacman_ostree.Pool.Add.{add_provides}
use pacman_ostree.Pool.Candidates.{add_providers}

abbrev pub providers : Dict String (List Provider) → String → List Provider
providers virtuals name = get_or (lookup name virtuals) []

abbrev pub has_sid : ℕ → List Provider → Bool
has_sid i [] = false
has_sid i ((_, _, sid) ∷ prs) = sid == i || has_sid i prs

abbrev pub provides : String → List AlpmProvide → Bool
provides name = any (λ (q : AlpmProvide). q.virtual_name == name)

-- Whether package `i` provides the name.
abbrev pub provides_at : List (List AlpmProvide) → String → ℕ → Bool
provides_at [] name i = false
provides_at (qs ∷ pkg_provides) name zero = provides name qs
provides_at (qs ∷ pkg_provides) name (suc i) = provides_at pkg_provides name i

abbrev pub VirtualsOk : Dict String (List Provider) → List (List AlpmProvide) → Type 0
VirtualsOk virtuals pkg_provides =
    (name : String) (i : ℕ) → has_sid i (providers virtuals name) ≡ provides_at pkg_provides name i

has_sid-push :
    (i : ℕ) (prs : List Provider) (n v : String) (sid : ℕ)
    → has_sid i (prs ++ (n, v, sid) ∷ []) ≡ (has_sid i prs || sid == i)
has_sid-push i [] n v sid = ground arith
has_sid-push i (_ ∷ prs) n v sid = ground (arith, has_sid-push i prs n v sid)

providers-entry_push :
    (k j : String) (pr : Provider) (virtuals : Dict String (List Provider))
    → providers (entry_push k pr virtuals) j
      ≡ (if k == j then providers virtuals k ++ pr ∷ [] else providers virtuals j)
providers-entry_push k j pr virtuals = ground (arith, lookup-entry_push k j pr virtuals)

-- The loop over the provides of one package.
has_sid-add_provides :
    (n : String) (sid : ℕ) (qs : List AlpmProvide) (virtuals : Dict String (List Provider))
    (name : String) (i : ℕ)
    → has_sid i (providers (add_provides n sid qs virtuals) name)
      ≡ (has_sid i (providers virtuals name) || (sid == i && provides name qs))
unfolding add_provides
has_sid-add_provides n sid [] virtuals name i = ground arith
has_sid-add_provides n sid (q ∷ qs) virtuals name i =
    has_sid-add_provides n sid qs (entry_push q.virtual_name (n, q.virtual_version, sid) virtuals)
      name i
    ∙ ground (
      arith,
      eq_iff q.virtual_name name,
      providers-entry_push q.virtual_name name (n, q.virtual_version, sid) virtuals,
      has_sid-push i (providers virtuals name) n q.virtual_version sid,
    )

provides_at-push :
    (pkg_provides : List (List AlpmProvide)) (qs : List AlpmProvide) (name : String) (i : ℕ)
    → provides_at (pkg_provides ++ qs ∷ []) name i
      ≡ (provides_at pkg_provides name i || (length pkg_provides == i && provides name qs))
provides_at-push [] qs name zero = ground arith
provides_at-push [] qs name (suc i) = ground arith
provides_at-push (_ ∷ ps) qs name zero = ground arith
provides_at-push (_ ∷ ps) qs name (suc i) = ground (arith, provides_at-push ps qs name i)

pub VirtualsOk-add_provides :
    (n : String) (sid : ℕ) (qs : List AlpmProvide) (virtuals : Dict String (List Provider))
    (pkg_provides : List (List AlpmProvide))
    → sid ≡ length pkg_provides
    → VirtualsOk virtuals pkg_provides
    → VirtualsOk (add_provides n sid qs virtuals) (pkg_provides ++ qs ∷ [])
VirtualsOk-add_provides n sid qs virtuals pkg_provides at h name i = ground (
  arith,
  has_sid-add_provides n sid qs virtuals name i,
  provides_at-push pkg_provides qs name i,
  h name i,
)

-- The providers of a name join its own solvables.
pub contains-add_providers :
    (prs : List Provider) (all : List ℕ) (i : ℕ)
    → contains (add_providers prs all) i ≡ (contains all i || has_sid i prs)
unfolding add_providers
contains-add_providers [] all i = ground arith
contains-add_providers ((n, v, sid) ∷ prs) all i =
    contains-add_providers prs (if contains all sid then all else push all sid) i
    ∙ ground (arith, nat_beq_iff sid i, contains-append all (sid ∷ []) i)
