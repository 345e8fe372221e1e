-- ===== src/LocalDb/Write.antt =====
-- The texts that `write_package_to_database` of src/package_installer.rs writes. The time of the
-- installation is the printed timestamp.
use Prim.Native.String.{compare}
use mathlib.Core.Option.{get_or}
use pacman_ostree.Base.{
  ℕ, zero, suc, ◌/◌, ◌%◌, String, string_eq, nat_eq, ◌==◌, not, List, map, if◌then◌else◌, ltb,
  retain, dedup,
}
use pacman_ostree.Base.Text.{◌<>◌, is_nil, trim_start_matches, join}
use pacman_ostree.Base.Sort.{sort_by}
use pacman_ostree.LocalDb.PkgInfo.{PkgInfo}

-- `Display` of an unsigned number: the fuel is at least the number of digits.
abbrev pub digit : ℕ → String
digit d =
    if d == 0
    then "0"
    else if d == 1
    then "1"
    else if d == 2
    then "2"
    else if d == 3
    then "3"
    else if d == 4
    then "4"
    else if d == 5
    then "5"
    else if d == 6
    then "6"
    else if d == 7
    then "7"
    else if d == 8
    then "8"
    else "9"

unfoldable pub show_digits : ℕ → ℕ → String
show_digits zero n = ""
show_digits (suc fuel) n =
    let high = show_digits fuel (n / 10) in if ltb n 10 then digit n else high <> digit (n % 10)

-- A `u64` has at most 20 digits.
unfoldable pub show_u64 : ℕ → String
unfolding show_digits
show_u64 n = show_digits 20 n

-- The lines of a section: its header, its value, and an empty line.
abbrev pub section : String → String → String → String
section header value rest = header <> "\n" <> value <> "\n\n" <> rest

unfoldable pub desc_text : PkgInfo → String → String
unfolding show_u64
desc_text info installdate = section "%NAME%" info.pkgname (
    section "%BASE%" (get_or info.pkgbase info.pkgname) (
      section "%VERSION%" info.pkgver (
        section "%DESC%" (get_or info.pkgdesc "") (
          section "%URL%" (get_or info.url "") (
            section "%ARCH%" (get_or info.arch "x86_64") (
              section "%BUILDDATE%" (show_u64 (get_or info.builddate 0)) (
                section "%INSTALLDATE%" installdate (
                  section "%PACKAGER%" (get_or info.packager "unknown") (
                    section "%SIZE%" (show_u64 (get_or info.size 0))
                      (section "%VALIDATION%" "sha256" ""))))))))))

-- The name of the package's directory in the database.
unfoldable pub entry_name : PkgInfo → String
entry_name info = info.pkgname <> "-" <> info.pkgver

unfoldable pub clean_file : String → String
unfolding trim_start_matches
clean_file f = trim_start_matches b'/' (trim_start_matches b'.' f)

unfoldable pub files_clean : List String → List String
unfolding clean_file sort_by
files_clean files = dedup (sort_by compare (retain (λ f. not (is_nil f)) (map clean_file files)))

unfoldable pub files_text : List String → String
unfolding files_clean join
files_text files = "%FILES%\n" <> join "\n" (files_clean files) <> "\n"
