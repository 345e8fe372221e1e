-- ===== src/System/Making.antt =====
-- Which calls a function of src/composepost.rs adds, whatever was called before.
use pacman_ostree.Base.{String, ◌≡◌, refl, ap, sym, List, [], ◌∷◌, push}
use mathlib.Core.List.{append_assoc, append-nil}
use pacman_ostree.Base.{◌++◌, ◌∙◌, map}
use pacman_ostree.System.Calls.{Call, Entry, History, Host}
use pacman_ostree.System.Actions.{Action, with_context, ◌>>◌, fs, for_each, dropped}
use pacman_ostree.System.Ending.{
  Does, Does-then, weaken, Does-pure, Does-with_context, Does-fs, Does-dropped-fs,
}

-- The calls of a history.
abbrev pub made : History → List Call
made h = map (λ (e : Entry). e.call) h

made-push : (h : History) (e : Entry) → made (push h e) ≡ made h ++ e.call ∷ []
made-push [] e = refl
made-push (d ∷ h) e = ap (λ l. d.call ∷ l) (made-push h e)

-- Whatever is called before: if it succeeds, these calls have been made.
abbrev pub Makes : Action (Unit {0}) → List Call → Type 0
Makes m cs = (h : History) → Does m h (λ _ h'. made h' ≡ made h ++ cs)

pub Makes-then :
    (m k : Action (Unit {0})) (cs ds : List Call)
    → Makes m cs
    → Makes k ds
    → Makes (m >> k) (cs ++ ds)
Makes-then m k cs ds f g h = Does-then m k h _ (
    weaken (f h)
      λ u h' e. weaken (g h') λ v h'' e'. e' ∙ (ap (λ l. l ++ ds) e ∙ append_assoc (made h) cs ds))

pub Makes-with_context :
    (name : String) (m : Action (Unit {0})) (cs : List Call)
    → Makes m cs
    → Makes (with_context name m) cs
Makes-with_context name m cs f h = Does-with_context name m h _ (f h)

module _ (host : Host) where
  pub Makes-fs : (c : Call) → Makes (fs host c) (c ∷ [])
  Makes-fs c h = Does-fs host c h _ (made-push h _)

  pub Makes-dropped-fs : (c : Call) → Makes (dropped (fs host c)) (c ∷ [])
  Makes-dropped-fs c h = Does-dropped-fs host c h _ λ b. made-push h _

abbrev pub each : {A : Type 0} → (A → List Call) → List A → List Call
each g [] = []
each g (x ∷ xs) = g x ++ each g xs

pub Makes-for_each :
    {A : Type 0} (f : A → Action (Unit {0})) (g : A → List Call) (xs : List A)
    → ((x : A) → Makes (f x) (g x))
    → Makes (for_each f xs) (each g xs)
unfolding for_each
Makes-for_each f g [] w h = Does-pure tt h _ (sym (append-nil (made h)))
Makes-for_each f g (x ∷ xs) w h =
    Makes-then (f x) (for_each f xs) (g x) (each g xs) (w x) (Makes-for_each f g xs w) h
