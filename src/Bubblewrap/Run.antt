-- ===== src/Bubblewrap/Run.antt =====
-- Running the sandbox, in src/bubblewrap.rs. The process library is a parameter: what `spawn`,
-- `communicate` and `wait_check` answer for a launcher and its arguments.
use mathlib.Core.Option.{get_or}
use pacman_ostree.Base.{
  ℕ, String, true, Option, none, some, List, if◌then◌else◌, Result, ◌>>=◌, ◌>>◌, ok, err, panic,
  unwrap, get_elem?,
}
use pacman_ostree.Base.Text.{◌<>◌}
use pacman_ostree.Bubblewrap.Argv.{
  BubblewrapMutability, mutate_freely, Environment, Pipes, stdout_pipe, stdin_pipe, Launcher,
  Bubblewrap, new_with_mutability, bind_read, bind_readwrite, append_child_argv,
}

pub record Processes : Type 1 where
  pub Child : Type 0
  pub spawn : Launcher → List String → Result Child
  -- with no input, or with that for a pipe: what was written to the piped output, if any
  pub communicate : Child → Option (List ℕ) → Result (Option (List ℕ))
  pub wait_check : Child → Result (Unit {0})

abbrev pub set_flags : Pipes → Bubblewrap → Bubblewrap
set_flags flags b = record b { launcher = record (b.launcher) { flags = flags } }

-- `.context(name)` puts the name before the message.
abbrev pub context {ℓ} : {A : Type ℓ} → String → Result A → Result A
context name (ok a) = ok a
context name (err e) = err (name <> ": " <> e)
context name panic = panic

module _ (os : Processes) where
  -- The error leaves the state that `executed = true` has made, or not made.
  unfoldable pub spawn : Bubblewrap → Result (os.Child × String) × Bubblewrap
  spawn b =
      if b.executed
      then (err "Already executed", b)
      else (let b' = record b { executed = true } in
          let argv0 = "bwrap(" <> get_or (get_elem? b.argv (get_or b.child_argv0 0)) "?" <> ")" in
          (os.spawn b.launcher b.argv >>= λ child. ok (child, argv0), b'))

  unfoldable pub run : Bubblewrap → Result (Unit {0}) × Bubblewrap
  unfolding spawn
  run b =
      let (r, b') = spawn b in (r >>= λ ((child, _) : os.Child × String). os.wait_check child, b')

  unfoldable pub run_captured : Bubblewrap → Result (List ℕ) × Bubblewrap
  unfolding spawn
  run_captured b =
      let (r, b') = spawn (set_flags stdout_pipe b) in
      (
        r >>= λ ((child, name) : os.Child × String). os.communicate child none >>= λ stdout.
            context name (os.wait_check child) >> unwrap stdout,
        b',
      )

  unfoldable pub run_with_stdin : List ℕ → Bubblewrap → Result (Unit {0}) × Bubblewrap
  unfolding spawn
  run_with_stdin input b =
      let (r, b') = spawn (set_flags stdin_pipe b) in
      (
        r >>= λ ((child, name) : os.Child × String).
            os.communicate child (some input) >> context name (os.wait_check child),
        b',
      )

  abbrev bind_var : BubblewrapMutability → Bubblewrap → Bubblewrap
  bind_var mutate_freely b = bind_readwrite "var" "/var" b
  bind_var _ b = bind_read "var" "/var" b

  unfoldable pub bubblewrap_run :
      Environment → String → List String → BubblewrapMutability → Result (List ℕ)
  unfolding new_with_mutability bind_read bind_readwrite append_child_argv run_captured
  bubblewrap_run env rootfs args mutability = do
    b ← append_child_argv args (bind_var mutability (new_with_mutability env rootfs mutability))
    (run_captured b).0
