-- ===== src/LocalDb/Reread.antt =====
-- What `load_local_db_from_files` of src/package_installer.rs reads from a `desc` that
-- `write_package_to_database` has written.
use Prim.Native.String
use text.Mathlib.TextLemmas.{append_assoc}
use pacman_ostree.Base.{
  String, string_eq, nat_eq, ◌==◌, ◌≡◌, refl, ap, ◌∙◌, true, false, List, [], ◌∷◌, ◌++◌, arith, inl,
  inr, if◌then◌else◌, Bool-cases,
}
use pacman_ostree.Base.Text.{◌<>◌, is_nil, lines}
use pacman_ostree.Base.Text.Laws.{is_line, lines-append, one_append, two_append}
use pacman_ostree.LocalDb.Write.{section}
use pacman_ostree.LocalDb.Load.{in_version, Reading, start, desc_line, desc_lines}

section-spelled :
    (header value rest : String)
    → section header value rest
      ≡ String.◌++◌ header
          (String.◌∷◌ "\n" (String.◌++◌ value (String.◌∷◌ "\n" (String.◌∷◌ "\n" rest))))
section-spelled header value rest =
    append_assoc (header <> "\n" <> value) "\n\n" rest
    ∙ (append_assoc (header <> "\n") value ("\n\n" <> rest)
        ∙ (append_assoc header "\n" (value <> ("\n\n" <> rest))
            ∙ ap (String.◌++◌ header) (
                one_append "\n" (value <> ("\n\n" <> rest))
                ∙ ap (λ t. String.◌∷◌ "\n" (String.◌++◌ value t)) (two_append "\n" "\n" rest))))

lines-section :
    (header value rest : String)
    → is_line header ≡ true
    → is_line value ≡ true
    → lines (section header value rest) ≡ header ∷ value ∷ "" ∷ lines rest
unfolding lines
lines-section header value rest h v =
    ap lines (section-spelled header value rest)
    ∙ (lines-append header _ h ∙ ap (◌∷◌ header) (lines-append value _ v))

-- A header or a value that is one line, and not one of the two headers that the reader looks for.
pub record IsField (v : String) : Type 0 where
  pub line : is_line v ≡ true
  pub not_name : (v == "%NAME%") ≡ false
  pub not_version : (v == "%VERSION%") ≡ false

abbrev pub read_section : String → String → Reading → Reading
read_section header value s = desc_line "" (desc_line value (desc_line header s))

desc_lines-section :
    (header value rest : String) (s : Reading)
    → is_line header ≡ true
    → is_line value ≡ true
    → desc_lines (lines (section header value rest)) s
      ≡ desc_lines (lines rest) (read_section header value s)
unfolding desc_lines
desc_lines-section header value rest s h v =
    ap (λ ls. desc_lines ls s) (lines-section header value rest h v)

-- The sections as one text.
abbrev pub sections : List (String × String) → String
sections [] = ""
sections ((h, v) ∷ l) = section h v (sections l)

abbrev pub AllFields : List (String × String) → Type 0
AllFields [] = Unit
AllFields ((h, v) ∷ l) = IsField h × (is_nil h ≡ false) × IsField v × AllFields l

-- Once the version has been read, `current` stays: every later section is taken for the version,
-- and the name is kept.
late_section :
    (header value : String) (s : Reading)
    → IsField header
    → is_nil header ≡ false
    → IsField value
    → s.current ≡ in_version
    → ((read_section header value s).current ≡ in_version)
      × ((read_section header value s).name ≡ s.name)
      × ((read_section header value s).version ≡ (if is_nil value then header else value))
unfolding desc_line
late_section header value s h full v cur = elim (Bool-cases (is_nil value)) [
  | inl nil ↦ (
    ground (arith, h.not_name, h.not_version, v.not_name, v.not_version, full, nil, cur),
    ground (arith, h.not_name, h.not_version, v.not_name, v.not_version, full, nil, cur),
    ground (arith, h.not_name, h.not_version, v.not_name, v.not_version, full, nil, cur),
  )
  | inr some_value ↦ (
    ground (arith, h.not_name, h.not_version, v.not_name, v.not_version, full, some_value, cur),
    ground (arith, h.not_name, h.not_version, v.not_name, v.not_version, full, some_value, cur),
    ground (arith, h.not_name, h.not_version, v.not_name, v.not_version, full, some_value, cur),
  )
]

abbrev pub run : List (String × String) → Reading → Reading
run [] s = s
run ((h, v) ∷ l) s = run l (read_section h v s)

abbrev pub AllLines : List (String × String) → Type 0
AllLines [] = Unit
AllLines ((h, v) ∷ l) = (is_line h ≡ true) × (is_line v ≡ true) × AllLines l

pub AllLines-of_AllFields : (l : List (String × String)) → AllFields l → AllLines l
AllLines-of_AllFields [] f = tt
AllLines-of_AllFields ((h, v) ∷ l) (fh, full, fv, f) = (fh.line, fv.line, AllLines-of_AllFields l f)

pub desc_lines-sections :
    (l : List (String × String)) (s : Reading)
    → AllLines l
    → desc_lines (lines (sections l)) s ≡ run l s
unfolding desc_lines lines
desc_lines-sections [] s f = refl
desc_lines-sections ((h, v) ∷ l) s (lh, lv, f) =
    desc_lines-section h v (sections l) s lh lv ∙ desc_lines-sections l (read_section h v s) f

pub late_run :
    (l : List (String × String)) (h v : String) (s : Reading)
    → AllFields (l ++ (h, v) ∷ [])
    → is_nil v ≡ false
    → s.current ≡ in_version
    → ((run (l ++ (h, v) ∷ []) s).name ≡ s.name) × ((run (l ++ (h, v) ∷ []) s).version ≡ v)
late_run [] h v s (fh, full, fv, f) some_value cur =
    let (c, n, w) = late_section h v s fh full fv cur in (n, w ∙ rw some_value refl)
late_run ((g, u) ∷ l) h v s (fh, full, fv, f) some_value cur =
    let (c, n, w) = late_section g u s fh full fv cur in
    let (n', w') = late_run l h v (read_section g u s) f some_value c in (n' ∙ n, w')

-- The first three sections, from the start.
pub early_run :
    (pkgname base version : String)
    → IsField pkgname
    → IsField base
    → IsField version
    → is_nil base ≡ false
    → let s = run (("%NAME%", pkgname) ∷ ("%BASE%", base) ∷ ("%VERSION%", version) ∷ []) start in
      (s.current ≡ in_version) × (s.name ≡ base)
unfolding desc_line
early_run pkgname base version p b v full = elim (Bool-cases (is_nil pkgname)) [
  | inl nil ↦ elim (Bool-cases (is_nil version)) [
    | inl none_given ↦ (
      ground (
        arith, p.not_name, p.not_version, b.not_name, b.not_version, v.not_name, v.not_version,
        full, nil, none_given,
      ),
      ground (
        arith, p.not_name, p.not_version, b.not_name, b.not_version, v.not_name, v.not_version,
        full, nil, none_given,
      ),
    )
    | inr given ↦ (
      ground (
        arith, p.not_name, p.not_version, b.not_name, b.not_version, v.not_name, v.not_version,
        full, nil, given,
      ),
      ground (
        arith, p.not_name, p.not_version, b.not_name, b.not_version, v.not_name, v.not_version,
        full, nil, given,
      ),
    )
  ]
  | inr named ↦ elim (Bool-cases (is_nil version)) [
    | inl none_given ↦ (
      ground (
        arith, p.not_name, p.not_version, b.not_name, b.not_version, v.not_name, v.not_version,
        full, named, none_given,
      ),
      ground (
        arith, p.not_name, p.not_version, b.not_name, b.not_version, v.not_name, v.not_version,
        full, named, none_given,
      ),
    )
    | inr given ↦ (
      ground (
        arith, p.not_name, p.not_version, b.not_name, b.not_version, v.not_name, v.not_version,
        full, named, given,
      ),
      ground (
        arith, p.not_name, p.not_version, b.not_name, b.not_version, v.not_name, v.not_version,
        full, named, given,
      ),
    )
  ]
]
