-- ===== src/System/Ending.antt =====
-- What is true at the end of a function of src/compose.rs or src/composepost.rs that succeeds.
use pacman_ostree.Base.{
  String, ◌≡◌, refl, ap, sym, Bool, true, false, List, [], ◌∷◌, Result, ok, err, panic, push, arith,
}
use mathlib.Core.Path.{subst}
use pacman_ostree.Base.{ℕ, Option}
use pacman_ostree.Bubblewrap.Argv.{Bubblewrap}
use pacman_ostree.System.Calls.{
  Call, Entry, History, Host, Output, sandbox, sandbox_with, captured, status, output,
}
use pacman_ostree.System.Actions.{
  Action, pure, lift, asks, try_asks, perform, is_good, with_context, named, next, ◌>>=◌, ◌>>◌,
  when, always, fs, run, run_with_stdin, run_captured, command_output, command_status,
  checked_status, bail_unless, is_success, dropped, drop,
}

-- From the history `h`: if the function succeeds, that is true of its value and of the history
-- then.
pub record Does {A : Type 0} (m : Action A) (h : History) (P : A → History → Type 0) : Type 0 where
  pub holds : (a : A) → (m h).0 ≡ ok a → P a (m h).1

pub weaken :
    {A : Type 0} {m : Action A} {h : History} {P Q : A → History → Type 0}
    → Does m h P
    → ((a : A) (h' : History) → P a h' → Q a h')
    → Does m h Q
weaken {m = m} {h} d f = record { holds = λ a e. f a (m h).1 (d.holds a e) }

abbrev pub done : Call → Entry
done c = record { call = c; succeeded = true }

-- A history with more calls, all of which succeeded.
abbrev pub after : History → List Call → History
after h [] = h
after h (c ∷ cs) = after (push h (done c)) cs

module _ {A : Type 0} where
  ok_eq : {a b : A} → ok a ≡ ok b → a ≡ b
  ok_eq e = ground (arith, e)

  pub Does-pure : (a : A) (h : History) (P : A → History → Type 0) → P a h → Does (pure a) h P
  unfolding pure
  Does-pure a h P p = record { holds = λ b e. subst (λ x. P x h) (ok_eq e) p }

  pub Does-lift :
      (r : Result A) (h : History) (P : A → History → Type 0)
      → ((a : A) → r ≡ ok a → P a h)
      → Does (lift r) h P
  unfolding lift
  Does-lift r h P p = record { holds = p }

  pub Does-asks :
      (f : History → A) (h : History) (P : A → History → Type 0) → P (f h) h → Does (asks f) h P
  unfolding asks
  Does-asks f h P p = record { holds = λ b e. subst (λ x. P x h) (ok_eq e) p }

  pub Does-try_asks :
      (f : History → Result A) (h : History) (P : A → History → Type 0)
      → ((a : A) → f h ≡ ok a → P a h)
      → Does (try_asks f) h P
  unfolding try_asks
  Does-try_asks f h P p = record { holds = p }

  named_holds :
      (name : String) (x : Result A × History) (P : A → History → Type 0)
      → ((a : A) → x.0 ≡ ok a → P a x.1)
      → (a : A) → (named name x).0 ≡ ok a
      → P a (named name x).1
  named_holds name (panic, h) P p a e = cc
  named_holds name (err t, h) P p a e = cc
  named_holds name (ok b, h) P p a e = p a e

  pub Does-with_context :
      (name : String) (m : Action A) (h : History) (P : A → History → Type 0)
      → Does m h P
      → Does (with_context name m) h P
  unfolding with_context
  Does-with_context name m h P d = record { holds = named_holds name (m h) P d.holds }

  module _ {B : Type 0} where
    next_holds :
        (x : Result A × History) (k : A → Action B) (P : B → History → Type 0)
        → ((a : A) → x.0 ≡ ok a → Does (k a) x.1 P)
        → (b : B) → (next x k).0 ≡ ok b
        → P b (next x k).1
    next_holds (panic, h) k P p b e = cc
    next_holds (err t, h) k P p b e = cc
    next_holds (ok a, h) k P p b e = let d = p a refl in d.holds b e

    pub Does-bind :
        (m : Action A) (k : A → Action B) (h : History) (P : B → History → Type 0)
        → Does m h (λ a h'. Does (k a) h' P)
        → Does (m >>= k) h P
    unfolding ◌>>=◌
    Does-bind m k h P d = record { holds = next_holds (m h) k P d.holds }

    pub Does-then :
        (m : Action A) (k : Action B) (h : History) (P : B → History → Type 0)
        → Does m h (λ _ h'. Does k h' P)
        → Does (m >> k) h P
    unfolding ◌>>◌
    Does-then m k h P d = Does-bind m (λ _. k) h P d

performed :
    (c : Call) (h : History) (r : Result (Unit {0})) (P : Unit {0} → History → Type 0)
    → P tt (push h (done c))
    → (a : Unit {0}) → r ≡ ok a
    → P a (push h (record { call = c; succeeded = is_good always r }))
performed c h panic P p a e = cc
performed c h (err t) P p a e = cc
performed c h (ok u) P p a e = p

module _ (host : Host) where
  -- A call that succeeds is noted as such.
  pub Does-fs :
      (c : Call) (h : History) (P : Unit {0} → History → Type 0)
      → P tt (push h (done c))
      → Does (fs host c) h P
  unfolding fs perform
  Does-fs c h P p = record { holds = performed c h (host.effect h c) P p }

pub Does-when :
    (b : Bool) (m : Action (Unit {0})) (h : History) (P : Unit {0} → History → Type 0)
    → (b ≡ true → Does m h P)
    → (b ≡ false → P tt h)
    → Does (when b m) h P
unfolding when
Does-when true m h P on off = on refl
Does-when false m h P on off = Does-pure tt h P (off refl)

-- A call in general, whose note says whether its answer is good.
pub Does-perform :
    {A : Type 0} (c : Call) (good : A → Bool) (answer : History → Result A) (h : History)
    (P : A → History → Type 0)
    → ((a : A) → answer h ≡ ok a → P a (push h (record { call = c; succeeded = good a })))
    → Does (perform c good answer) h P
unfolding perform
Does-perform {A} c good answer h P p = record { holds = λ a e. noted (answer h) p a e }
  where
    noted :
        (r : Result A)
        → ((a : A) → r ≡ ok a → P a (push h (record { call = c; succeeded = good a })))
        → (a : A) → r ≡ ok a
        → P a (push h (record { call = c; succeeded = is_good good r }))
    noted panic q a e = cc
    noted (err t) q a e = cc
    noted (ok b) q a e =
        subst (λ x. P a (push h (record { call = c; succeeded = good x }))) (sym (ok_eq e)) (q a e)

module _ (host : Host) where
  pub Does-run_captured :
      (b : Bubblewrap) (h : History) (P : List ℕ → History → Type 0)
      → ((out : List ℕ) → P out (push h (done (captured b))))
      → Does (run_captured host b) h P
  unfolding run_captured
  Does-run_captured b h P p = Does-perform _ _ _ h P λ out e. p out

  pub Does-run :
      (b : Bubblewrap) (h : History) (P : Unit {0} → History → Type 0)
      → P tt (push h (done (sandbox b)))
      → Does (run host b) h P
  unfolding run
  Does-run b h P p = Does-perform _ _ _ h P λ u e. p

  pub Does-command_output :
      (argv : List String) (h : History) (P : Output → History → Type 0)
      → ((out : Output) → host.command_output h argv ≡ ok out → P out (push h (done (output argv))))
      → Does (command_output host argv) h P
  unfolding command_output
  Does-command_output argv h P p = Does-perform _ _ _ h P p

  bailed :
      (good : Bool) (argv : List String) (text : String) (h : History)
      (P : Unit {0} → History → Type 0)
      → P tt (push h (done (status argv)))
      → Does (bail_unless good text) (push h (record { call = status argv; succeeded = good })) P
  unfolding bail_unless
  bailed true argv text h P p = Does-pure tt _ P p
  bailed false argv text h P p = Does-lift _ _ P λ a e. cc

  -- A command that must succeed.
  pub Does-checked_status :
      (argv : List String) (text : Option ℕ → String) (h : History)
      (P : Unit {0} → History → Type 0)
      → P tt (push h (done (status argv)))
      → Does (checked_status host argv text) h P
  unfolding checked_status command_status
  Does-checked_status argv text h P p =
      Does-bind _ _ _ _
        (Does-perform _ _ _ _ _ λ code e. bailed (is_success code) argv (text code) h P p)

-- A call that may fail.
pub Does-dropped :
    (c : Call) (answer : History → Result (Unit {0})) (h : History)
    (P : Unit {0} → History → Type 0)
    → ((b : Bool) → P tt (push h (record { call = c; succeeded = b })))
    → Does (dropped (perform c always answer)) h P
unfolding dropped perform
Does-dropped c answer h P p = record { holds = dropped_holds (answer h) }
  where
    dropped_holds :
        (r : Result (Unit {0})) (a : Unit {0})
        → (drop (r, push h (record { call = c; succeeded = is_good always r }))).0 ≡ ok a
        → P a (drop (r, push h (record { call = c; succeeded = is_good always r }))).1
    dropped_holds panic a e = cc
    dropped_holds (err t) a e = p false
    dropped_holds (ok u) a e = p true

pub Does-dropped-fs :
    (host : Host) (c : Call) (h : History) (P : Unit {0} → History → Type 0)
    → ((b : Bool) → P tt (push h (record { call = c; succeeded = b })))
    → Does (dropped (fs host c)) h P
unfolding fs
Does-dropped-fs host c h P p = Does-dropped c _ h P p

pub Does-dropped-run :
    (host : Host) (b : Bubblewrap) (h : History) (P : Unit {0} → History → Type 0)
    → ((fine : Bool) → P tt (push h (record { call = sandbox b; succeeded = fine })))
    → Does (dropped (run host b)) h P
unfolding run
Does-dropped-run host b h P p = Does-dropped (sandbox b) _ h P p

pub Does-dropped-run_with_stdin :
    (host : Host) (input : List ℕ) (b : Bubblewrap) (h : History) (P : Unit {0} → History → Type 0)
    → ((fine : Bool) → P tt (push h (record { call = sandbox_with b input; succeeded = fine })))
    → Does (dropped (run_with_stdin host input b)) h P
unfolding run_with_stdin
Does-dropped-run_with_stdin host input b h P p = Does-dropped (sandbox_with b input) _ h P p

-- What the function itself returns.
pub Does-itself : {A : Type 0} (m : Action A) (h : History) → Does m h (λ a h'. m h ≡ (ok a, h'))
Does-itself m h = record { holds = λ a e. ap (λ r. (r, (m h).1)) e }

-- Whatever comes of it, short of a panic, its calls have been made.
pub Does-dropped-itself :
    {A : Type 0} (m : Action A) (h : History) (P : Unit {0} → History → Type 0)
    → P tt (m h).1
    → Does (dropped m) h P
unfolding dropped
Does-dropped-itself {A} m h P p = record { holds = dropped_holds (m h) p }
  where
    dropped_holds :
        (x : Result A × History) → P tt x.1 → (a : Unit {0}) → (drop x).0 ≡ ok a → P a (drop x).1
    dropped_holds (panic, g) q a e = cc
    dropped_holds (err t, g) q a e = q
    dropped_holds (ok b, g) q a e = q

pub Does-pure_lift :
    {A : Type 0} (a : A) (h : History) (P : A → History → Type 0) → P a h → Does (lift (ok a)) h P
Does-pure_lift a h P p = Does-lift (ok a) h P λ b e. subst (λ x. P x h) (ok_eq e) p
