-- ===== src/Provider/Conflicting.antt =====
-- When `validate_requirements` of src/package_solver/provider.rs reports a conflict.
use pacman_ostree.Base.{
  ℕ, String, ◌≡◌, refl, Bool, true, false, ◌||◌, some, List, [], ◌∷◌, arith, inl, inr, Bool-cases,
  Option-cases, is_some, any, contains, nat_eq, nat_beq_iff,
}
use pacman_ostree.Pool.Types.{AlpmPool}
use pacman_ostree.Pool.Query.{conflicts}
use pacman_ostree.Provider.Validate.{Conflict, first_conflict, validate_requirements}

-- Whether an element of the list is in the relation to a later one.
abbrev pub any_pair : (ℕ → ℕ → Bool) → List ℕ → Bool
any_pair r [] = false
any_pair r (x ∷ xs) = any (r x) xs || any_pair r xs

first_conflict-any :
    (p : AlpmPool) (a : ℕ) (names : List ℕ)
    → is_some (first_conflict p a names) ≡ any (conflicts p a) names
unfolding first_conflict
first_conflict-any p a [] = refl
first_conflict-any p a (b ∷ names) = ground (arith, first_conflict-any p a names)

-- A conflict is reported exactly when one of the names conflicts with a later one.
pub validate_requirements-any_pair :
    (p : AlpmPool) (names : List ℕ)
    → is_some (validate_requirements p names) ≡ any_pair (conflicts p) names
unfolding validate_requirements
validate_requirements-any_pair p [] = refl
validate_requirements-any_pair p (a ∷ names) =
    ground (arith, first_conflict-any p a names, validate_requirements-any_pair p names)

first_conflict_sound :
    (p : AlpmPool) (a : ℕ) (names : List ℕ) {e : Conflict}
    → first_conflict p a names ≡ some e
    → (e.0 ≡ a) × (contains names e.1 ≡ true) × (conflicts p a e.1 ≡ true)
unfolding first_conflict
first_conflict_sound p a [] h = cc
first_conflict_sound p a (b ∷ names) {e} h = elim (Bool-cases (conflicts p a b)) [
  | inl hit ↦ (ground arith, ground (arith, nat_beq_iff b b), ground arith)
  | inr miss ↦
      let (l, m, r) = first_conflict_sound p a names {e = e} (ground arith) in (l, ground arith, r)
]

-- The two ids that are reported are among the names, and they conflict.
pub validate_requirements_sound :
    (p : AlpmPool) (names : List ℕ) {a b : ℕ} {text : String}
    → validate_requirements p names ≡ some (a, b, text)
    → (contains names a ≡ true) × (contains names b ≡ true) × (conflicts p a b ≡ true)
unfolding validate_requirements
validate_requirements_sound p [] h = cc
validate_requirements_sound p (x ∷ names) {a} {b} {text} h =
    elim (Option-cases (first_conflict p x names)) [
      | inr (e, found) ↦
          let (l, m, r) = first_conflict_sound p x names {e = e} found in
          (ground (arith, nat_beq_iff x x), ground arith, ground arith)
      | inl absent ↦
          let (l, m, r) =
            validate_requirements_sound p names {a = a} {b = b} {text = text} (ground arith) in
          (ground arith, ground arith, r)
    ]
