-- ===== src/System/Actions.antt =====
-- Functions of src/package_installer.rs, src/composepost.rs and src/initramfs.rs that make calls:
-- from the calls made so far to a result, and to the calls made then.
use pacman_ostree.Base.{
  ℕ, ◌+◌, ◌/◌, ◌%◌, String, nat_eq, ◌==◌, Bool, true, false, Option, none, some, List, [], ◌∷◌,
  ◌++◌, if◌then◌else◌, ltb, Result, ok, err, panic, push,
}
use Prim.Native.Char.{code}
use pacman_ostree.Bubblewrap.Argv.{Bubblewrap}
use pacman_ostree.Bubblewrap.Run
use pacman_ostree.Bubblewrap.Run.{context}
use pacman_ostree.System.Calls.{
  Call, sandbox, captured, sandbox_with, status, output, History, Output, Host,
}

abbrev pub Action : Type 0 → Type 0
Action A = History → Result A × History

module _ {A : Type 0} where
  unfoldable pub pure : A → Action A
  pure a h = (ok a, h)

  -- What fails or succeeds without a call.
  unfoldable pub lift : Result A → Action A
  lift r h = (r, h)

  -- What is read from the system.
  unfoldable pub asks : (History → A) → Action A
  asks f h = (ok (f h), h)

  unfoldable pub try_asks : (History → Result A) → Action A
  try_asks f h = (f h, h)

  abbrev pub is_good : (A → Bool) → Result A → Bool
  is_good good (ok a) = good a
  is_good good (err e) = false
  is_good good panic = false

  -- A call is made, and its result is noted.
  unfoldable pub perform : Call → (A → Bool) → (History → Result A) → Action A
  perform c good answer h =
      (answer h, push h (record { call = c; succeeded = is_good good (answer h) }))

  abbrev pub drop : Result A × History → Result (Unit {0}) × History
  drop (panic, h) = (panic, h)
  drop (err e, h) = (ok tt, h)
  drop (ok a, h) = (ok tt, h)

  -- `let _ = m` and `m.ok()`: an error is dropped; a panic is not.
  unfoldable pub dropped : Action A → Action (Unit {0})
  dropped m h = drop (m h)

module _ {A : Type 0} where
  abbrev pub named : String → Result A × History → Result A × History
  named name (r, h) = (context name r, h)

  -- `with_context(name)`, which puts the name before the message of an error.
  unfoldable pub with_context : String → Action A → Action A
  with_context name m h = named name (m h)

-- `?`
abbrev pub next : {A B : Type 0} → Result A × History → (A → Action B) → Result B × History
next (panic, h) k = (panic, h)
next (err e, h) k = (err e, h)
next (ok a, h) k = k a h

infixl 5 ◌>>=◌ ◌>>◌
unfoldable pub ◌>>=◌ : {A B : Type 0} → Action A → (A → Action B) → Action B
◌>>=◌ m k h = next (m h) k

unfoldable pub ◌>>◌ : {A B : Type 0} → Action A → Action B → Action B
unfolding ◌>>=◌
m >> k = m >>= λ _. k

unfoldable pub when : Bool → Action (Unit {0}) → Action (Unit {0})
unfolding pure
when true m = m
when false m = pure tt

-- A loop over a vector whose body ends the function where it fails.
unfoldable pub for_each : {A : Type 0} → (A → Action (Unit {0})) → List A → Action (Unit {0})
unfolding pure
for_each f [] = pure tt
for_each f (x ∷ xs) = f x >> for_each f xs

-- A loop that pushes a value for each element.
unfoldable pub collect : {A B : Type 0} → (A → Action B) → List A → Action (List B)
unfolding pure
collect f [] = pure []
collect f (x ∷ xs) = f x >>= λ y. collect f xs >>= λ ys. pure (y ∷ ys)

abbrev pub always : Unit {0} → Bool
always _ = true

-- `ExitStatus::success`
abbrev pub is_success : Option ℕ → Bool
is_success none = false
is_success (some code) = code == 0

module _ (host : Host) where
  -- A call of the file system.
  unfoldable pub fs : Call → Action (Unit {0})
  unfolding perform
  fs c = perform c always (λ h. host.effect h c)

  unfoldable pub command_status : List String → Action (Option ℕ)
  unfolding perform
  command_status argv = perform (status argv) is_success (λ h. host.exit_code h argv)

  unfoldable pub command_output : List String → Action Output
  unfolding perform
  command_output argv = perform (output argv) (λ _. true) (λ h. host.command_output h argv)

  unfoldable pub run : Bubblewrap → Action (Unit {0})
  unfolding perform Run.run
  run b = perform (sandbox b) always (λ h. (Run.run (host.processes h) b).0)

  unfoldable pub run_captured : Bubblewrap → Action (List ℕ)
  unfolding perform Run.run_captured
  run_captured b = perform (captured b) (λ _. true) (λ h. (Run.run_captured (host.processes h) b).0)

  unfoldable pub run_with_stdin : List ℕ → Bubblewrap → Action (Unit {0})
  unfolding perform Run.run_with_stdin
  run_with_stdin input b =
      perform (sandbox_with b input) always (λ h. (Run.run_with_stdin (host.processes h) input b).0)

-- `if !status.success()` and `bail!`
unfoldable pub bail_unless : Bool → String → Action (Unit {0})
unfolding pure lift
bail_unless true text = pure tt
bail_unless false text = lift (err text)

module _ (host : Host) where
  -- A command whose status must be a success, and the text of the error where it is not.
  unfoldable pub checked_status : List String → (Option ℕ → String) → Action (Unit {0})
  unfolding command_status bail_unless
  checked_status argv text =
      command_status host argv >>= λ code. bail_unless (is_success code) (text code)

-- `String::into_bytes`: UTF-8.
unfoldable utf8_char : ℕ → List ℕ
utf8_char c =
    if ltb c 0x80
    then c ∷ []
    else if ltb c 0x800
    then (0xC0 + c / 64) ∷ (0x80 + c % 64) ∷ []
    else if ltb c 0x10000
    then (0xE0 + c / 4096) ∷ (0x80 + c / 64 % 64) ∷ (0x80 + c % 64) ∷ []
    else (0xF0 + c / 262144) ∷ (0x80 + c / 4096 % 64) ∷ (0x80 + c / 64 % 64) ∷ (0x80 + c % 64) ∷ []

unfoldable pub into_bytes : String → List ℕ
unfolding utf8_char
into_bytes String.[] = []
into_bytes (String.◌∷◌ c s) = utf8_char (code c) ++ into_bytes s
