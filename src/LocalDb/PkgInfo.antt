-- ===== src/LocalDb/PkgInfo.antt =====
-- `parse_pkginfo` of src/package_installer.rs.
use Prim.Native.Char.{code}
use pacman_ostree.Base.{
  ℕ, ◌+◌, ◌-◌, ◌*◌, ◌^◌, String, string_eq, nat_eq, ◌==◌, ◌&&◌, ◌||◌, Option, none, some, List,
  if◌then◌else◌, ltb, leb, Result, ok, err,
}
use pacman_ostree.Base.Text.{is_nil, split_once, lines}

pub record PkgInfo : Type 0 where
  pub pkgname : String
  pub pkgbase : Option String
  pub pkgver : String
  pub pkgdesc : Option String
  pub arch : Option String
  pub size : Option ℕ
  pub url : Option String
  pub builddate : Option ℕ
  pub packager : Option String

-- `PkgInfo::default`
abbrev pub default : PkgInfo
default = record {
  pkgname = "";
  pkgbase = none;
  pkgver = "";
  pkgdesc = none;
  arch = none;
  size = none;
  url = none;
  builddate = none;
  packager = none;
}

-- `str::parse::<u64>`: digits, after a "+" perhaps; neither empty nor over the range.
unfoldable pub parse_digits : ℕ → String → Option ℕ
parse_digits n String.[] = some n
parse_digits n (String.◌∷◌ c s) =
    let next = n * 10 + (code c - 48) in
    let rest = parse_digits next s in
    if leb 48 (code c) && leb (code c) 57 && ltb next (2 ^ 64) then rest else none

abbrev pub unsigned : String → String
unsigned String.[] = String.[]
unsigned (String.◌∷◌ c s) = if code c == b'+' then s else String.◌∷◌ c s

unfoldable pub parse_u64 : String → Option ℕ
unfolding parse_digits
parse_u64 s = let digits = unsigned s in if is_nil digits then none else parse_digits 0 digits

-- The `match` on the key.
unfoldable pub set_field : String → String → PkgInfo → PkgInfo
unfolding parse_u64
set_field key value info =
    if key == "pkgname"
    then record info { pkgname = value }
    else if key == "pkgbase"
    then record info { pkgbase = some value }
    else if key == "pkgver"
    then record info { pkgver = value }
    else if key == "pkgdesc"
    then record info { pkgdesc = some value }
    else if key == "arch"
    then record info { arch = some value }
    else if key == "size"
    then record info { size = parse_u64 value }
    else if key == "url"
    then record info { url = some value }
    else if key == "builddate"
    then record info { builddate = parse_u64 value }
    else if key == "packager"
    then record info { packager = some value }
    else info

unfoldable pub info_line : String → PkgInfo → PkgInfo
unfolding split_once set_field
info_line line info = elim (split_once " = " line) [
  | some (key, value) ↦ set_field key value info
  | none ↦ info
]

unfoldable pub info_lines : List String → PkgInfo → PkgInfo
unfolding info_line
info_lines List.[] info = info
info_lines (List.◌∷◌ line ls) info = info_lines ls (info_line line info)

unfoldable pub parse_pkginfo : String → Result PkgInfo
unfolding lines info_lines
parse_pkginfo content =
    let info = info_lines (lines content) default in
    if is_nil info.pkgname || is_nil info.pkgver
    then err "Invalid PKGINFO: missing required fields"
    else ok info
