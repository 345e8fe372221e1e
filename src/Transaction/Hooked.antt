-- ===== src/Transaction/Hooked.antt =====
-- The hooks of `unpack_packages` of src/package_installer.rs, in a run that succeeds.
use pacman_ostree.Base.{
  String, string_eq, ◌==◌, ◌≡◌, refl, Bool, true, false, not, ◌&&◌, List, [], ◌∷◌, map, ok, push,
  is_empty, retain, arith, inl, inr, Bool-cases, if◌then◌else◌,
}
use mathlib.Core.Path.{subst}
use pacman_ostree.Base.{sym}
use pacman_ostree.Base.Text.{◌<>◌, split_whitespace, join}
use pacman_ostree.Bubblewrap.Argv.{Bubblewrap, build_bwrap_base, append_child_argv}
use pacman_ostree.Hooks.Types.{HookWhen, when_eq, install, PacmanHook}
use pacman_ostree.Hooks.Match.{hook_matches}
use pacman_ostree.Installer.Package.{PackageInfo, InstallResult}
use pacman_ostree.System.Calls.{Call, sandbox, sandbox_with, History}
use pacman_ostree.System.Actions.{for_each, dropped, into_bytes, run, run_with_stdin}
use pacman_ostree.System.Ending.{
  Does, weaken, Does-pure, Does-lift, Does-bind, Does-then, Does-when, Does-dropped-run,
  Does-dropped-run_with_stdin,
}
use pacman_ostree.Transaction.Unpack.{
  Site, run_hook, run_hook_sandboxed, run_matched, run_hooks, hook_sandbox,
}
use pacman_ostree.Transaction.Scripted.{base_of}

module _ (site : Site) (dest : String) (at : HookWhen) (r : InstallResult)
    (files : List String) where
  -- What the hook matches of the installed packages and files.
  abbrev matched : PacmanHook → List String
  matched hook =
      hook_matches site.pattern_new hook (install ∷ [])
        (map (λ (info : PackageInfo). info.pkg.name) r.packages) files

  abbrev is_due : PacmanHook → Bool
  is_due hook = hook.action.when == at && not (is_empty (matched hook))

  -- With the targets as its input where the hook asks for them.
  abbrev hook_call : PacmanHook → Bubblewrap → Call
  hook_call hook b =
      if hook.action.needs_targets
      then sandbox_with b (into_bytes (join "\n" (matched hook) <> "\n"))
      else sandbox b

  -- The hooks of that time that match something are run, in their order, each in a sandbox of its
  -- own; each may fail.
  pub data RunsHooks : History → List PacmanHook → History → Type 0 where
    all_hooks : {h : History} → RunsHooks h [] h
    passed_over :
        {h h' : History} {hook : PacmanHook} {hooks : List PacmanHook}
        → is_due hook ≡ false
        → RunsHooks h hooks h'
        → RunsHooks h (hook ∷ hooks) h'
    ran :
        {h h' : History} {hook : PacmanHook} {hooks : List PacmanHook} {base b : Bubblewrap}
        → (fine : Bool) → is_due hook ≡ true
        → build_bwrap_base site.host.environment dest ≡ ok base
        → append_child_argv (split_whitespace hook.action.exec) base ≡ ok b
        → RunsHooks (push h (record { call = hook_call hook b; succeeded = fine })) hooks h'
        → RunsHooks h (hook ∷ hooks) h'

  with_targets :
      (hook : PacmanHook) (b : Bubblewrap)
      → is_empty (matched hook) ≡ false
      → hook.action.needs_targets ≡ true
      → (run_hook site hook (matched hook) b
          ≡ run_with_stdin site.host (into_bytes (join "\n" (matched hook) <> "\n")) b)
        × (sandbox_with b (into_bytes (join "\n" (matched hook) <> "\n")) ≡ hook_call hook b)
  unfolding run_hook hook_matches run_with_stdin
  with_targets hook b some_matched asks_them =
      (rw (asks_them, some_matched) refl, rw asks_them refl)

  without_targets :
      (hook : PacmanHook) (b : Bubblewrap)
      → hook.action.needs_targets ≡ false
      → (run_hook site hook (matched hook) b ≡ run site.host b) × (sandbox b ≡ hook_call hook b)
  unfolding run_hook
  without_targets hook b bare = (rw bare refl, rw bare refl)

  run_hook_does :
      (hook : PacmanHook) (b : Bubblewrap) (h : History) (P : Unit {0} → History → Type 0)
      → is_empty (matched hook) ≡ false
      → ((fine : Bool) → P tt (push h (record { call = hook_call hook b; succeeded = fine })))
      → Does (dropped (run_hook site hook (matched hook) b)) h P
  run_hook_does hook b h P some_matched p =
      let noted : Call → Type 0 =
        λ c. (fine : Bool) → P tt (push h (record { call = c; succeeded = fine })) in
      elim (Bool-cases hook.action.needs_targets) [
        | inl asks_them ↦
            let (same, call) = with_targets hook b some_matched asks_them in
            subst (λ m. Does (dropped m) h P) (sym same)
              (Does-dropped-run_with_stdin site.host _ b h P (subst noted (sym call) p))
        | inr bare ↦
            let (same, call) = without_targets hook b bare in
            subst (λ m. Does (dropped m) h P) (sym same)
              (Does-dropped-run site.host b h P (subst noted (sym call) p))
      ]

  sandboxed_does :
      (hook : PacmanHook) (h : History) (P : Unit {0} → History → Type 0)
      → is_empty (matched hook) ≡ false
      → ((base b : Bubblewrap) (fine : Bool)
          → build_bwrap_base site.host.environment dest ≡ ok base
          → append_child_argv (split_whitespace hook.action.exec) base ≡ ok b
          → P tt (push h (record { call = hook_call hook b; succeeded = fine })))
      → Does (run_hook_sandboxed site hook dest (matched hook)) h P
  unfolding run_hook_sandboxed hook_sandbox
  sandboxed_does hook h P some_matched p =
      elim (Bool-cases (is_empty (split_whitespace hook.action.exec))) [
        | inl nothing ↦ rw nothing (Does-lift _ h P λ a e. cc)
        | inr something ↦ rw something (
            Does-bind _ _ h P (
              Does-lift _ _ _ λ b made_of.
                let (base, based, appended) = base_of _ _ {b = b} made_of in
                run_hook_does hook b h P some_matched λ fine. p base b fine based appended))
      ]

  hooks_does :
      (hooks : List PacmanHook) (h : History)
      → Does
          (for_each
            (run_matched site
              (install ∷ [])
              (map (λ (info : PackageInfo). info.pkg.name) r.packages)
              dest
              files)
            (retain (λ (hook : PacmanHook). hook.action.when == at) hooks))
          h
          (λ _ h'. RunsHooks h hooks h')
  unfolding for_each run_matched
  hooks_does [] h = Does-pure tt h _ all_hooks
  hooks_does (hook ∷ hooks) h = elim (Bool-cases (hook.action.when == at)) [
    | inr other ↦
        rw other (weaken (hooks_does hooks h) λ u h' rest. passed_over (ground (arith, other)) rest)
    | inl timely ↦ rw timely (
        Does-then _ _ _ _ (
          Does-when _ _ _ _
            (λ matches.
              sandboxed_does hook h _ (ground (arith, matches)) λ base b fine based appended.
                weaken (hooks_does hooks _) λ u h' rest.
                  ran {base = base} {b = b} fine (ground (arith, timely, matches)) based appended
                    rest)
            (λ nothing.
              weaken (hooks_does hooks h)
                λ u h' rest. passed_over (ground (arith, timely, nothing)) rest)))
  ]

  pub run_hooks_does :
      (hooks : List PacmanHook) (h : History)
      → Does (run_hooks site hooks at (install ∷ []) r dest files) h (λ _ h'. RunsHooks h hooks h')
  unfolding run_hooks
  run_hooks_does hooks h = hooks_does hooks h
