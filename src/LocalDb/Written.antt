-- ===== src/LocalDb/Written.antt =====
-- A package that `write_package_to_database` of src/package_installer.rs has written, read again by
-- `load_local_db_from_files`.
use Prim.Native.Char.{code}
use mathlib.Core.Option.{get_or}
use text.Mathlib.TextLemmas.{cons-append, nil-append}
use pacman_ostree.Base.{
  ℕ, zero, suc, ◌/◌, ◌%◌, String, string_eq, nat_eq, ◌==◌, ◌≡◌, refl, ap, ◌∙◌, Bool, true, false,
  ◌&&◌, some, List, [], ◌∷◌, ◌++◌, arith, inl, inr, if◌then◌else◌, leb, Bool-cases, eq_iff,
}
use pacman_ostree.Base.Text.{◌<>◌, is_nil, lines, rsplit_once}
use pacman_ostree.Base.Text.Laws.{is_line}
use pacman_ostree.Pool.Types.{AlpmPackage}
use pacman_ostree.LocalDb.PkgInfo.{PkgInfo}
use pacman_ostree.LocalDb.Write.{desc_text, show_u64, show_digits, digit}
use pacman_ostree.LocalDb.Load.{Reading, start, desc_lines, split_version, load_desc}
use pacman_ostree.LocalDb.Reread.{
  IsField, AllFields, AllLines, AllLines-of_AllFields, sections, run, desc_lines-sections, late_run,
  early_run,
}

abbrev pub is_number : String → Bool
is_number String.[] = true
is_number (String.◌∷◌ c s) = leb 48 (code c) && (leb (code c) 57 && is_number s)

is_number-append : (s t : String) → is_number (s <> t) ≡ (is_number s && is_number t)
is_number-append String.[] t = ap is_number (nil-append t)
is_number-append (String.◌∷◌ c s) t = ground (arith, cons-append c s t, is_number-append s t)

is_number-if :
    (b : Bool) (s t : String)
    → is_number s ≡ true
    → is_number t ≡ true
    → is_number (if b then s else t) ≡ true
is_number-if true s t h k = h
is_number-if false s t h k = k

is_number-digit : (d : ℕ) → is_number (digit d) ≡ true
is_number-digit d = is_number-if (d == 0) "0" _ refl (
    is_number-if (d == 1) "1" _ refl (
      is_number-if (d == 2) "2" _ refl (
        is_number-if (d == 3) "3" _ refl (
          is_number-if (d == 4) "4" _ refl (
            is_number-if (d == 5) "5" _ refl (
              is_number-if (d == 6) "6" _ refl
                (is_number-if (d == 7) "7" _ refl (is_number-if (d == 8) "8" "9" refl refl))))))))

pub is_number-show_digits : (fuel n : ℕ) → is_number (show_digits fuel n) ≡ true
unfolding show_digits
is_number-show_digits zero n = refl
is_number-show_digits (suc fuel) n = ground (
  arith,
  is_number-show_digits fuel (n / 10),
  is_number-digit n,
  is_number-digit (n % 10),
  is_number-append (show_digits fuel (n / 10)) (digit (n % 10)),
)

is_line_of_number : (s : String) → is_number s ≡ true → is_line s ≡ true
is_line_of_number String.[] h = refl
is_line_of_number (String.◌∷◌ c s) h = ground (arith, is_line_of_number s (ground arith))

differs : (s t : String) → is_number s ≡ true → is_number t ≡ false → (s == t) ≡ false
differs s t h k = elim (Bool-cases (s == t)) [
  | inl same ↦ absurd (ground (arith, ap is_number ((eq_iff s t).0 same)))
  | inr other ↦ other
]

-- A printed number is a field.
show_u64-IsField : (n : ℕ) → IsField (show_u64 n)
unfolding show_u64
show_u64-IsField n =
    let number = is_number-show_digits 20 n in
    record {
      line = is_line_of_number (show_digits 20 n) number;
      not_name = differs (show_digits 20 n) "%NAME%" number refl;
      not_version = differs (show_digits 20 n) "%VERSION%" number refl;
    }

-- That the texts of a package are lines, and none is one of the two headers.
pub record HasFields (info : PkgInfo) : Type 0 where
  pub pkgname : IsField info.pkgname
  pub pkgbase : IsField (get_or info.pkgbase info.pkgname)
  pub pkgver : IsField info.pkgver
  pub pkgdesc : IsField (get_or info.pkgdesc "")
  pub url : IsField (get_or info.url "")
  pub arch : IsField (get_or info.arch "x86_64")
  pub packager : IsField (get_or info.packager "unknown")
  pub named : is_nil (get_or info.pkgbase info.pkgname) ≡ false

abbrev late : PkgInfo → String → List (String × String)
late info date =
    ("%DESC%", get_or info.pkgdesc "")
    ∷ ("%URL%", get_or info.url "")
    ∷ ("%ARCH%", get_or info.arch "x86_64")
    ∷ ("%BUILDDATE%", show_u64 (get_or info.builddate 0))
    ∷ ("%INSTALLDATE%", date)
    ∷ ("%PACKAGER%", get_or info.packager "unknown")
    ∷ ("%SIZE%", show_u64 (get_or info.size 0))
    ∷ []

abbrev early : PkgInfo → List (String × String)
early info =
    ("%NAME%", info.pkgname)
    ∷ ("%BASE%", get_or info.pkgbase info.pkgname)
    ∷ ("%VERSION%", info.pkgver)
    ∷ []

abbrev last : String × String
last = ("%VALIDATION%", "sha256")

desc_text-sections :
    (info : PkgInfo) (date : String)
    → desc_text info date ≡ sections (early info ++ late info date ++ last ∷ [])
unfolding desc_text
desc_text-sections info date = refl

literal :
    (s : String)
    → is_line s ≡ true
    → (s == "%NAME%") ≡ false
    → (s == "%VERSION%") ≡ false
    → IsField s
literal s l n v = record { line = l; not_name = n; not_version = v }

late-AllFields :
    (info : PkgInfo) (date : String)
    → HasFields info
    → IsField date
    → AllFields (late info date ++ last ∷ [])
late-AllFields info date h d = (
  literal "%DESC%" refl refl refl,
  refl,
  h.pkgdesc,
  (
    literal "%URL%" refl refl refl,
    refl,
    h.url,
    (
      literal "%ARCH%" refl refl refl,
      refl,
      h.arch,
      (
        literal "%BUILDDATE%" refl refl refl,
        refl,
        show_u64-IsField (get_or info.builddate 0),
        (
          literal "%INSTALLDATE%" refl refl refl,
          refl,
          d,
          (
            literal "%PACKAGER%" refl refl refl,
            refl,
            h.packager,
            (
              literal "%SIZE%" refl refl refl,
              refl,
              show_u64-IsField (get_or info.size 0),
              (literal "%VALIDATION%" refl refl refl, refl, literal "sha256" refl refl refl, tt),
            ),
          ),
        ),
      ),
    ),
  ),
)

all-AllLines :
    (info : PkgInfo) (l : List (String × String))
    → HasFields info
    → AllLines l
    → AllLines (early info ++ l)
all-AllLines info l h f = (refl, h.pkgname.line, (refl, h.pkgbase.line, (refl, h.pkgver.line, f)))

-- What is read when the name is `base` and the version is "sha256".
abbrev pub misread : String → AlpmPackage
misread base = record {
  name = base;
  version = "sha256";
  pkgrel = "1";
  repo = "local";
  size = 0;
  deps = [];
  provides = [];
  conflicts = [];
}

load_desc-misread :
    (content base : String)
    → (desc_lines (lines content) start).name ≡ base
    → (desc_lines (lines content) start).version ≡ "sha256"
    → is_nil base ≡ false
    → load_desc content ≡ some (misread base)
unfolding load_desc split_version rsplit_once
load_desc-misread content base n v full = rw (n, v) (rw full refl)

-- A package whose texts and date are single lines, none of them a header that the reader looks for,
-- is not read as it was written: its version becomes "sha256" and its release "1", whatever they
-- were, and its name becomes its base.
pub load_desc-desc_text :
    (info : PkgInfo) (date : String)
    → HasFields info
    → IsField date
    → load_desc (desc_text info date) ≡ some (misread (get_or info.pkgbase info.pkgname))
load_desc-desc_text info date h d =
    let rest = late info date ++ last ∷ [] in
    let fields = late-AllFields info date h d in
    let all =
      desc_lines-sections (early info ++ rest) start
        (all-AllLines info rest h (AllLines-of_AllFields rest fields)) in
    let whole = ap (λ t. desc_lines (lines t) start) (desc_text-sections info date) ∙ all in
    let (cur, name) =
      early_run info.pkgname (get_or info.pkgbase info.pkgname) info.pkgver h.pkgname h.pkgbase
        h.pkgver h.named in
    let (kept, version) =
      late_run (late info date) "%VALIDATION%" "sha256" (run (early info) start) fields refl cur in
    load_desc-misread (desc_text info date) (get_or info.pkgbase info.pkgname)
      (ap (λ (r : Reading). r.name) whole ∙ (kept ∙ name))
      (ap (λ (r : Reading). r.version) whole ∙ version) h.named
