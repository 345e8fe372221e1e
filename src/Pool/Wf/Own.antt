-- ===== src/Pool/Wf/Own.antt =====
-- The names, the solvables and the candidates of each name, in src/package_solver/pool.rs.
use mathlib.Core.Option.{get_or}
use pacman_ostree.Base.{
  ℕ, zero, suc, ◌<◌, ◌≤◌, String, string_eq, nat_eq, ◌==◌, ◌≡◌, refl, Bool, true, false, ◌&&◌, ◌||◌,
  none, some, List, [], ◌∷◌, ◌++◌, arith, inl, inr, if◌then◌else◌, Bool-cases, Option-cases,
  is_some, length, contains, contains-append, All, All-append, eq_iff, nat_beq_iff, lt_of_get_elem?,
}
use pacman_ostree.Base.Dict.{Dict, lookup, entry_push, lookup-entry_push}
use pacman_ostree.Pool.Types.{Solvable, u32_mod}
use pacman_ostree.Pool.Intern.{
  intern, Numbered, intern-Numbered, lookup-intern, lookup_inj, get_elem?_of_lookup, intern_fresh,
  intern_old, length-le-intern,
}

abbrev pub own : Dict ℕ (List ℕ) → ℕ → List ℕ
own candidates nid = get_or (lookup nid candidates) []

-- Whether solvable `i` has the name.
abbrev pub is_named : List Solvable → String → ℕ → Bool
is_named [] name i = false
is_named (s ∷ ss) name zero = s.name == name
is_named (s ∷ ss) name (suc i) = is_named ss name i

abbrev pub Interned : Dict String ℕ → List Solvable → Type 0
Interned names = All (λ s. is_some (lookup s.name names) ≡ true)

pub record NamesOk (names : Dict String ℕ) (ss : List Solvable) (candidates : Dict ℕ (List ℕ))
    : Type 0 where
  pub numbered : Numbered names
  pub interned : Interned names ss
  pub owned :
      (name : String) (nid i : ℕ)
      → lookup name names ≡ some nid
      → contains (own candidates nid) i ≡ is_named ss name i
  pub fresh : (nid : ℕ) → length names ≤ nid → lookup nid candidates ≡ none

is_named-Interned :
    (names : Dict String ℕ) (ss : List Solvable) (name : String) (i : ℕ)
    → Interned names ss
    → lookup name names ≡ none
    → is_named ss name i ≡ false
is_named-Interned names [] name i h fresh = refl
is_named-Interned names (s ∷ ss) name zero (h, hs) fresh = ground (arith, eq_iff s.name name)
is_named-Interned names (s ∷ ss) name (suc i) (h, hs) fresh =
    is_named-Interned names ss name i hs fresh

Interned-intern :
    (k : String) (names : Dict String ℕ) (ss : List Solvable)
    → Interned names ss
    → Interned (intern k names).1 ss
Interned-intern k names [] h = tt
Interned-intern k names (s ∷ ss) (h, hs) =
    (ground (arith, lookup-intern k s.name names), Interned-intern k names ss hs)

is_named-push :
    (ss : List Solvable) (s : Solvable) (name : String) (i : ℕ)
    → is_named (ss ++ s ∷ []) name i ≡ (is_named ss name i || (length ss == i && s.name == name))
is_named-push [] s name zero = ground arith
is_named-push [] s name (suc i) = ground arith
is_named-push (q ∷ ss) s name zero = ground arith
is_named-push (q ∷ ss) s name (suc i) = ground (arith, is_named-push ss s name i)

-- A fresh name has no candidates and no solvable.
NamesOk-fresh :
    (k : String) (names : Dict String ℕ) (ss : List Solvable) (candidates : Dict ℕ (List ℕ))
    → length names < u32_mod
    → lookup k names ≡ none
    → NamesOk names ss candidates
    → (name : String) (nid i : ℕ) → lookup name (intern k names).1 ≡ some nid
    → contains (own candidates nid) i ≡ is_named ss name i
NamesOk-fresh k names ss candidates room fresh h name nid i found = elim (Bool-cases (k == name)) [
  | inl same ↦ ground (
    arith,
    eq_iff k name,
    lookup-intern k name names,
    intern_fresh k names fresh,
    is_named-Interned names ss k i h.interned fresh,
    h.fresh nid,
  )
  | inr differ ↦ h.owned name nid i (ground (arith, lookup-intern k name names))
]

pub NamesOk-intern :
    (k : String) (names : Dict String ℕ) (ss : List Solvable) (candidates : Dict ℕ (List ℕ))
    → length names < u32_mod
    → NamesOk names ss candidates
    → NamesOk (intern k names).1 ss candidates
NamesOk-intern k names ss candidates room h = record {
  numbered = intern-Numbered k names room h.numbered;
  interned = Interned-intern k names ss h.interned;
  owned = λ name nid i found. elim (Option-cases (lookup k names)) [
    | inl fresh ↦ NamesOk-fresh k names ss candidates room fresh h name nid i found
    | inr (id, old) ↦ h.owned name nid i (rw (intern_old k names old) at found)
  ];
  fresh = λ nid le. h.fresh nid (omega (arith, length-le-intern k names));
}

own-entry_push :
    (nid id v : ℕ) (candidates : Dict ℕ (List ℕ))
    → own (entry_push nid v candidates) id
      ≡ (if nid == id then own candidates nid ++ v ∷ [] else own candidates id)
own-entry_push nid id v candidates = ground (arith, lookup-entry_push nid id v candidates)

-- The solvable `s` joins the candidates of its name.
pub NamesOk-push :
    (names : Dict String ℕ) (ss : List Solvable) (candidates : Dict ℕ (List ℕ)) (s : Solvable)
    (nid : ℕ)
    → lookup s.name names ≡ some nid
    → NamesOk names ss candidates
    → NamesOk names (ss ++ s ∷ []) (entry_push nid (length ss) candidates)
NamesOk-push names ss candidates s nid own_id h = record {
  numbered = h.numbered;
  interned = All-append _ ss (s ∷ []) h.interned (ground arith, tt);
  owned = λ name id i found. elim (Bool-cases (nid == id)) [
    | inl same ↦ ground (
      arith,
      nat_beq_iff nid id,
      eq_iff s.name name,
      own-entry_push nid id (length ss) candidates,
      contains-append (own candidates nid) (length ss ∷ []) i,
      h.owned name id i found,
      is_named-push ss s name i,
      lookup_inj name s.name names {i = nid} h.numbered,
    )
    | inr differ ↦ ground (
      arith,
      eq_iff s.name name,
      own-entry_push nid id (length ss) candidates,
      h.owned name id i found,
      is_named-push ss s name i,
      nat_beq_iff nid id,
    )
  ];
  fresh = λ id le. ground (
    arith,
    h.fresh id,
    lookup-entry_push nid id (length ss) candidates,
    lt_of_get_elem? names nid (get_elem?_of_lookup s.name names h.numbered own_id),
  );
}
