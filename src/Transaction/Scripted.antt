-- ===== src/Transaction/Scripted.antt =====
-- The install scripts and the hooks of `unpack_packages` of src/package_installer.rs, in a run that
-- succeeds.
use pacman_ostree.Base.{
  String, string_eq, ◌≡◌, refl, Bool, true, false, not, ◌&&◌, Option, none, some, List, [], ◌∷◌,
  map, Result, ok, err, panic, push, arith, inl, inr, Bool-cases,
}
use mathlib.Core.Path.{subst}
use pacman_ostree.Base.Text.{◌<>◌, str_contains, is_nil}
use pacman_ostree.Bubblewrap.Argv.{
  Environment, Bubblewrap, build_bwrap_base, bind_read, append_child_argv,
}
use pacman_ostree.Hooks.Types.{when_eq}
use pacman_ostree.Installer.Package.{PackageInfo}
use pacman_ostree.System.Calls.{write, remove_file, output, sandbox, History, Output}
use pacman_ostree.System.Actions.{when, for_each, collect}
use pacman_ostree.System.Ending.{
  Does, after, weaken, Does-pure, Does-lift, Does-try_asks, Does-bind, Does-then, Does-fs,
  Does-when, Does-run, Does-command_output, Does-dropped-fs,
}
use pacman_ostree.Transaction.Archive.{find_archive, extract_install_script, script_of}
use pacman_ostree.Transaction.Unpack.{
  PackageScripts, Site, lift_bind, run_install_script_sandboxed, script_sandbox, run_pre_install,
  pre_install_found, pre_install, post_install, no_scripts,
}

-- The archive's member on the standard output.
abbrev member_argv : String → String → List String
member_argv pkg_file member =
    "tar" ∷ "--extract" ∷ "--zstd" ∷ "--to-stdout" ∷ "--file" ∷ pkg_file ∷ member ∷ []

abbrev pub pattern_of : String → PackageInfo → String
pattern_of dest info = dest <> "/var/cache/pacman/pkg" <> "/" <> info.pkg.name <> "-*.pkg.tar.zst"

pub base_of :
    (k : Bubblewrap → Result Bubblewrap) (r : Result Bubblewrap) {b : Bubblewrap}
    → lift_bind r k ≡ ok b
    → (base : Bubblewrap) × (r ≡ ok base) × (k base ≡ ok b)
base_of k (ok base) e = (base, refl, e)
base_of k (err t) e = cc
base_of k panic e = cc

module _ (site : Site) (dest : String) where
  abbrev env : Environment
  env = site.host.environment

  abbrev path_of : String → String → String
  path_of name function_name = "/tmp/.install-" <> name <> "-" <> function_name <> ".sh"

  -- The script is written, run in its sandbox, and its file removed, which may fail.
  pub data RunsScript (content name function_name : String) (h : History) : History → Type 0 where
    ran :
        (base b : Bubblewrap) (gone : Bool)
        → build_bwrap_base env dest ≡ ok base
        → append_child_argv
            ("/bin/bash" ∷ "/run/script.sh" ∷ [])
            (bind_read (path_of name function_name) "/run/script.sh" base)
          ≡ ok b
        → RunsScript content name function_name h (
            push
              (after h (
                write
                  (path_of name function_name)
                  ("#!/bin/bash\nset -e\n\n" <> content <> "\n\n" <> function_name <> "\n")
                ∷ sandbox b
                ∷ []))
              (record { call = remove_file (path_of name function_name); succeeded = gone }))

  script_does :
      (content name function_name : String) (h : History)
      → Does
          (run_install_script_sandboxed site content dest name function_name)
          h
          (λ _ h'. RunsScript content name function_name h h')
  unfolding run_install_script_sandboxed script_sandbox
  script_does content name function_name h = Does-then _ _ _ _ (
      Does-fs site.host _ _ _ (
        Does-bind _ _ _ _ (
          Does-lift _ _ _ λ b made_of.
            let (base, based, appended) = base_of _ _ {b = b} made_of in
            Does-then _ _ _ _ (
              Does-run site.host _ _ _
                (Does-dropped-fs site.host _ _ _ λ gone. ran base b gone based appended)))))

  -- Whether the function of the script is run: where the script has it.
  pub data RunsIf (content name function_name : String) (h : History) : History → Type 0 where
    has_none :
        str_contains content (function_name <> "()") ≡ false → RunsIf content name function_name h h
    has_it :
        {h' : History}
        → str_contains content (function_name <> "()") ≡ true
        → RunsScript content name function_name h h'
        → RunsIf content name function_name h h'

  -- The packages with their scripts, none where there is no archive or no script in it.
  abbrev pub Scripts : Type 0
  Scripts = List (String × Option String)

  -- The script of a package is read from its archive, and its `pre_install` run.
  pub data PreparesOne (info : PackageInfo) (h : History) : Option String → History → Type 0 where
    no_archive : site.host.glob h (pattern_of dest info) ≡ ok none → PreparesOne info h none h
    no_script :
        {pkg_file : String} {out : Output}
        → site.host.glob h (pattern_of dest info) ≡ ok (some pkg_file)
        → site.host.command_output h (member_argv pkg_file ".INSTALL") ≡ ok out
        → (out.success && not (is_nil out.lossy)) ≡ false
        → PreparesOne info h none (after h (output (member_argv pkg_file ".INSTALL") ∷ []))
    scripted :
        {h' : History} {pkg_file content : String} {out : Output}
        → site.host.glob h (pattern_of dest info) ≡ ok (some pkg_file)
        → site.host.command_output h (member_argv pkg_file ".INSTALL") ≡ ok out
        → (out.success && not (is_nil out.lossy)) ≡ true
        → out.stdout ≡ some content
        → RunsIf content info.pkg.name "pre_install"
            (after h (output (member_argv pkg_file ".INSTALL") ∷ []))
            h'
        → PreparesOne info h (some content) h'

  -- One package after another.
  pub data Prepares : History → List PackageInfo → Scripts → History → Type 0 where
    all_prepared : {h : History} → Prepares h [] [] h
    prepared :
        {h h1 h' : History} {info : PackageInfo} {infos : List PackageInfo} {script : Option String}
        {scripts : Scripts}
        → PreparesOne info h script h1
        → Prepares h1 infos scripts h'
        → Prepares h (info ∷ infos) ((info.pkg.name, script) ∷ scripts) h'

  pub data RunsPost : History → Scripts → History → Type 0 where
    all_run : {h : History} → RunsPost h [] h
    without :
        {h h' : History} {name : String} {scripts : Scripts}
        → RunsPost h scripts h'
        → RunsPost h ((name, none) ∷ scripts) h'
    with_script :
        {h h1 h' : History} {name content : String} {scripts : Scripts}
        → RunsIf content name "post_install" h h1
        → RunsPost h1 scripts h'
        → RunsPost h ((name, some content) ∷ scripts) h'

  -- What the program keeps of a script.
  abbrev pub kept : String × Option String → PackageScripts
  kept (name, none) = no_scripts name
  kept (name, some content) = record {
    pkg_name = name;
    script_content = content;
    has_pre = str_contains content "pre_install()";
    has_post = str_contains content "post_install()";
  }

  if_does :
      (content name function_name : String) (h : History)
      → Does
          (when
            (str_contains content (function_name <> "()"))
            (run_install_script_sandboxed site content dest name function_name))
          h
          (λ _ h'. RunsIf content name function_name h h')
  if_does content name function_name h =
      Does-when _ _ _ _
        (λ has. weaken (script_does content name function_name h) λ u h' ran. has_it has ran)
        (λ lacks. has_none lacks)

  pub post_does :
      (scripts : Scripts) (h : History)
      → Does
          (for_each (post_install site dest) (map kept scripts))
          h
          (λ _ h'. RunsPost h scripts h')
  unfolding for_each post_install
  post_does [] h = Does-pure tt h _ all_run
  post_does ((name, none) ∷ scripts) h = Does-then _ _ _ _ (
      Does-when _ _ _ _ (λ e. absurd (ground (arith, e)))
        (λ e. weaken (post_does scripts h) λ u h' rest. without rest))
  post_does ((name, some content) ∷ scripts) h = Does-then _ _ _ _ (
      weaken (if_does content name "post_install" h)
        λ u h1 ran. weaken (post_does scripts h1) λ u h' rest. with_script ran rest)

  data IsScriptOf (out : Output) : Option String → Type 0 where
    none_in : (out.success && not (is_nil out.lossy)) ≡ false → IsScriptOf out none
    text_in :
        {content : String}
        → (out.success && not (is_nil out.lossy)) ≡ true
        → out.stdout ≡ some content
        → IsScriptOf out (some content)

  text_of :
      (out : Output) (text : Option String) {o : Option String}
      → out.stdout ≡ text
      → (out.success && not (is_nil out.lossy)) ≡ true
      → elim text [ some t ↦ ok (some t) | none ↦ err "invalid utf-8 sequence" ] ≡ ok o
      → IsScriptOf out o
  text_of out none at full e = cc
  text_of out (some t) {o} at full e =
      let same : some t ≡ o = ground (arith, e) in subst (IsScriptOf out) same (text_in full at)

  script_found : (out : Output) {o : Option String} → script_of out ≡ ok o → IsScriptOf out o
  unfolding script_of
  script_found out {o} e = elim (Bool-cases (out.success && not (is_nil out.lossy))) [
    | inl full ↦ text_of out out.stdout {o = o} refl full (ground (arith, full, e))
    | inr empty ↦
        let same : none ≡ o = ground (arith, empty, e) in
        subst (IsScriptOf out) same (none_in empty)
  ]

  abbrev Prepared : PackageInfo → History → PackageScripts → History → Type 0
  Prepared info h s h' =
      (script : Option String) × (s ≡ kept (info.pkg.name, script)) × PreparesOne info h script h'

  script_run :
      (info : PackageInfo) (h : History) (pkg_file : String) (out : Output) (o : Option String)
      → site.host.glob h (pattern_of dest info) ≡ ok (some pkg_file)
      → site.host.command_output h (member_argv pkg_file ".INSTALL") ≡ ok out
      → IsScriptOf out o
      → Does
          (run_pre_install site dest info.pkg.name o)
          (after h (output (member_argv pkg_file ".INSTALL") ∷ []))
          (Prepared info h)
  script_run info h pkg_file out none at read (none_in empty) =
      Does-pure _ _ _ (none, refl, no_script at read empty)
  script_run info h pkg_file out (some content) at read (text_in full text) = Does-then _ _ _ _ (
      weaken (if_does content info.pkg.name "pre_install" _)
        λ u h' ran. Does-pure _ _ _ (some content, refl, scripted at read full text ran))

  found_run :
      (info : PackageInfo) (h : History) (found : Option String)
      → site.host.glob h (pattern_of dest info) ≡ ok found
      → Does (pre_install_found site dest info found) h (Prepared info h)
  unfolding extract_install_script
  found_run info h none at = Does-pure _ _ _ (none, refl, no_archive at)
  found_run info h (some pkg_file) at = Does-bind _ _ _ _ (
      Does-bind _ _ _ _ (
        Does-command_output site.host _ _ _ λ out read.
          Does-lift _ _ _
            λ o e. script_run info h pkg_file out o at read (script_found out {o = o} e)))

  pub prepare_does :
      (infos : List PackageInfo) (h : History)
      → Does
          (collect (pre_install site dest) infos)
          h
          (λ ss h'. (scripts : Scripts) × (ss ≡ map kept scripts) × Prepares h infos scripts h')
  unfolding collect pre_install find_archive
  prepare_does [] h = Does-pure _ _ _ ([], refl, all_prepared)
  prepare_does (info ∷ infos) h = Does-bind _ _ _ _ (
      Does-bind _ _ _ _ (
        Does-try_asks _ _ _ λ found at.
          weaken (found_run info h found at) λ s h1 (script, is_kept, one). Does-bind _ _ _ _ (
            weaken (prepare_does infos h1) λ ss h' (scripts, are_kept, rest).
              Does-pure _ _ _ (
                (info.pkg.name, script) ∷ scripts,
                rw (is_kept, are_kept) refl,
                prepared one rest,
              ))))
