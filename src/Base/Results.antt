-- ===== src/Base/Results.antt =====
-- Fallible code: `anyhow::Result`, with a case of its own for a Rust panic (an index out of range,
-- `unwrap`, `expect`, `panic!`).
use Prim.Native.String.{String}
use mathlib.Core.Path.{◌≡◌, refl}
use mathlib.Core.Bool.{Bool, true, false}
use mathlib.Core.Option.{Option, none, some}
use mathlib.Core.List.{List, [], ◌∷◌}

pub data Result {ℓ} (A : Type ℓ) : Type ℓ where
  ok : A → Result A
  err : String → Result A
  panic : Result A

-- `?`: what follows runs on a value, and an error or a panic is passed on.
infixl 5 ◌>>=◌
abbrev pub ◌>>=◌ {ℓ κ} : {A : Type ℓ} {B : Type κ} → Result A → (A → Result B) → Result B
panic >>= next = panic
err text >>= next = err text
ok x >>= next = next x

infixl 5 ◌>>◌
abbrev pub ◌>>◌ {ℓ κ} : {A : Type ℓ} {B : Type κ} → Result A → Result B → Result B
m >> k = m >>= λ _. k

-- `unwrap`, `expect` and indexing
abbrev pub unwrap {ℓ} : {A : Type ℓ} → Option A → Result A
unwrap none = panic
unwrap (some a) = ok a

-- `ok_or_else`
abbrev pub ok_or {ℓ} : {A : Type ℓ} → Option A → String → Result A
ok_or none e = err e
ok_or (some a) e = ok a

pub >>=-eq-ok {ℓ κ} :
    {A : Type ℓ} {B : Type κ} (r : Result A) (next : A → Result B) {y : B}
    → (r >>= next) ≡ ok y
    → (x : A) × (r ≡ ok x) × (next x ≡ ok y)
>>=-eq-ok panic next h = cc
>>=-eq-ok (err text) next h = cc
>>=-eq-ok (ok x) next h = (x, refl, h)

module _ {ℓ κ} {A : Type ℓ} {B : Type κ} where
  -- A loop whose body may fail, over a vector.
  abbrev pub try_map : (A → Result B) → List A → Result (List B)
  try_map f [] = ok []
  try_map f (x ∷ xs) = let rest = try_map f xs in f x >>= λ y. rest >>= λ ys. ok (y ∷ ys)

module _ {ℓ} {A : Type ℓ} where
  abbrev keep_if : Bool → A → List A → List A
  keep_if true x xs = x ∷ xs
  keep_if false x xs = xs

  -- A filter whose test may panic.
  abbrev pub try_filter : (A → Result Bool) → List A → Result (List A)
  try_filter p [] = ok []
  try_filter p (x ∷ xs) =
      let rest = try_filter p xs in p x >>= λ b. rest >>= λ ys. ok (keep_if b x ys)
