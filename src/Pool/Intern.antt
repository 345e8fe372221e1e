-- ===== src/Pool/Intern.antt =====
-- The interning scheme that names and version sets share in src/package_solver/pool.rs: an
-- `IndexMap` whose value at a key is the number of entries that there were when it was inserted.
use pacman_ostree.Base.{
  ℕ, zero, suc, ◌+◌, ◌<◌, ◌≤◌, ◌≡◌, refl, none, some, [], ◌∷◌, ◌++◌, arith, inl, inr, Eq, ◌==◌,
  Bool-cases, Option-cases, if◌then◌else◌, length, get_elem?, get_elem?-push, get_elem?-append_left,
  length-append,
}
use pacman_ostree.Base.Dict.{Dict, lookup, insert, lookup-append, lookup-insert}
use pacman_ostree.Pool.Types.{as_u32, u32_mod}

module _ {ℓ} {K : Type ℓ} ⦃e : Eq K⦄ where
  unfoldable pub intern : K → Dict K ℕ → ℕ × Dict K ℕ
  intern k m = elim (lookup k m) [
    | some id ↦ (id, m)
    | none ↦ let id = as_u32 (length m) in (id, insert k id m)
  ]

  -- Entry `i` from the start has the value `i`, and no key is there twice.
  abbrev pub NumberedFrom : ℕ → Dict K ℕ → Type ℓ
  NumberedFrom n [] = Unit
  NumberedFrom n ((k, v) ∷ m) = (v ≡ n) × (lookup k m ≡ none) × NumberedFrom (suc n) m

  abbrev pub Numbered : Dict K ℕ → Type ℓ
  Numbered = NumberedFrom 0

  pub insert_absent :
      (k : K) (v : ℕ) (m : Dict K ℕ) → lookup k m ≡ none → insert k v m ≡ m ++ (k, v) ∷ []
  unfolding lookup insert
  insert_absent k v [] h = refl
  insert_absent k v ((j, w) ∷ m) h = ground (arith, insert_absent k v m)

  NumberedFrom-push :
      (k : K) (v n : ℕ) (m : Dict K ℕ)
      → lookup k m ≡ none
      → v ≡ n + length m
      → NumberedFrom n m
      → NumberedFrom n (m ++ (k, v) ∷ [])
  unfolding lookup
  NumberedFrom-push k v n [] h last num = (omega arith, refl, tt)
  NumberedFrom-push k v n ((j, w) ∷ m) h last (num, fresh, rest) = (
    num,
    ground (arith, lookup-append j m ((k, v) ∷ []), e.beq_iff k j, e.beq_iff j k),
    NumberedFrom-push k v (suc n) m (ground arith) (omega arith) rest,
  )

  position_of_lookup :
      (k : K) (n : ℕ) (m : Dict K ℕ) {i : ℕ}
      → NumberedFrom n m
      → lookup k m ≡ some i
      → (j : ℕ) × (i ≡ n + j) × (get_elem? m j ≡ some (k, i))
  unfolding lookup
  position_of_lookup k n [] num h = cc
  position_of_lookup k n ((j, w) ∷ m) {i} (num, fresh, rest) h = elim (Bool-cases (j == k)) [
    | inl same ↦ (0, ground arith, ground (arith, e.beq_iff j k))
    | inr differ ↦
        let (p, at, found) = position_of_lookup k (suc n) m {i = i} rest (ground arith) in
        (suc p, omega arith, found)
  ]

  lookup_of_position :
      (k : K) (n j : ℕ) (m : Dict K ℕ) {v : ℕ}
      → NumberedFrom n m
      → get_elem? m j ≡ some (k, v)
      → (v ≡ n + j) × (lookup k m ≡ some v)
  unfolding lookup
  lookup_of_position k n j [] num h = cc
  lookup_of_position k n zero ((i, w) ∷ m) (num, fresh, rest) h =
      (ground arith, ground (arith, e.beq_iff i k))
  lookup_of_position k n (suc j) ((i, w) ∷ m) (num, fresh, rest) h =
      let (at, found) = lookup_of_position k (suc n) j m rest h in
      (omega arith, ground (arith, e.beq_iff i k))

  pub intern_fresh :
      (k : K) (m : Dict K ℕ)
      → lookup k m ≡ none
      → intern k m ≡ (as_u32 (length m), m ++ (k, as_u32 (length m)) ∷ [])
  unfolding intern
  intern_fresh k m fresh = rw (fresh, intern) (rw (insert_absent k (as_u32 (length m)) m fresh))

  pub intern_old : (k : K) (m : Dict K ℕ) {id : ℕ} → lookup k m ≡ some id → intern k m ≡ (id, m)
  unfolding intern
  intern_old k m old = rw (old, intern)

  -- Where the `u32` has room, interning keeps the numbering.
  pub intern-Numbered :
      (k : K) (m : Dict K ℕ) → length m < u32_mod → Numbered m → Numbered (intern k m).1
  intern-Numbered k m room num = elim (Option-cases (lookup k m)) [
    | inl fresh ↦
        rw (intern_fresh k m fresh)
          (NumberedFrom-push k (as_u32 (length m)) 0 m fresh (omega arith) num)
    | inr (id, old) ↦ rw (intern_old k m old) num
  ]

  -- What is interned is found at its id.
  pub get_elem?-intern :
      (k : K) (m : Dict K ℕ)
      → length m < u32_mod
      → Numbered m
      → get_elem? (intern k m).1 (intern k m).0 ≡ some (k, (intern k m).0)
  get_elem?-intern k m room num = elim (Option-cases (lookup k m)) [
    | inl fresh ↦ rw (intern_fresh k m fresh) (ground (arith, get_elem?-push m (k, length m)))
    | inr (id, old) ↦
        let (p, at, found) = position_of_lookup k 0 m num old in
        rw (intern_old k m old) (ground arith)
  ]

  -- What was interned before keeps its position.
  pub get_elem?-intern_old :
      (k : K) (m : Dict K ℕ) (i : ℕ) → i < length m → get_elem? (intern k m).1 i ≡ get_elem? m i
  get_elem?-intern_old k m i h = elim (Option-cases (lookup k m)) [
    | inl fresh ↦
        rw (intern_fresh k m fresh) (get_elem?-append_left m ((k, as_u32 (length m)) ∷ []) i h)
    | inr (id, old) ↦ rw (intern_old k m old)
  ]

  -- Interning adds its key, with its id, to what can be looked up, and nothing else.
  pub lookup-intern :
      (k j : K) (m : Dict K ℕ)
      → lookup j (intern k m).1 ≡ (if k == j then some (intern k m).0 else lookup j m)
  lookup-intern k j m = elim (Option-cases (lookup k m)) [
    | inl fresh ↦
        rw (intern_fresh k m fresh)
          (rw (← insert_absent k (as_u32 (length m)) m fresh) (lookup-insert k j _ m))
    | inr (id, old) ↦ rw (intern_old k m old) (ground (arith, e.beq_iff k j))
  ]

  pub length-intern-le : (k : K) (m : Dict K ℕ) → length (intern k m).1 ≤ length m + 1
  length-intern-le k m = elim (Option-cases (lookup k m)) [
    | inl fresh ↦
        rw (intern_fresh k m fresh) (omega (arith, length-append m ((k, as_u32 (length m)) ∷ [])))
    | inr (id, old) ↦ rw (intern_old k m old) (omega arith)
  ]

  pub length-le-intern : (k : K) (m : Dict K ℕ) → length m ≤ length (intern k m).1
  length-le-intern k m = elim (Option-cases (lookup k m)) [
    | inl fresh ↦
        rw (intern_fresh k m fresh) (omega (arith, length-append m ((k, as_u32 (length m)) ∷ [])))
    | inr (id, old) ↦ rw (intern_old k m old) (omega arith)
  ]

  -- A number is looked up exactly at its own key.
  pub lookup_inj :
      (k j : K) (m : Dict K ℕ) {i : ℕ}
      → Numbered m
      → lookup k m ≡ some i
      → lookup j m ≡ some i
      → k ≡ j
  lookup_inj k j m num hk hj =
      let (p, at, found) = position_of_lookup k 0 m num hk in
      let (q, at', found') = position_of_lookup j 0 m num hj in
      let same : p ≡ q = omega arith in ground (arith, same)

  pub get_elem?_of_lookup :
      (k : K) (m : Dict K ℕ) {i : ℕ}
      → Numbered m
      → lookup k m ≡ some i
      → get_elem? m i ≡ some (k, i)
  get_elem?_of_lookup k m num h =
      let (p, at, found) = position_of_lookup k 0 m num h in ground arith

  pub lookup_of_get_elem? :
      (k : K) (j : ℕ) (m : Dict K ℕ) {v : ℕ}
      → Numbered m
      → get_elem? m j ≡ some (k, v)
      → (v ≡ j) × (lookup k m ≡ some v)
  lookup_of_get_elem? k j m num h =
      let (at, found) = lookup_of_position k 0 j m num h in (omega arith, found)
