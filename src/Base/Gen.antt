-- ===== src/Base/Gen.antt =====
-- Python's generators: what a run returns or raises and the state it leaves, with the events that it
-- yields. What a consumer sends back is part of the state.
use mathlib.Core.Path.{◌≡◌, refl}
use mathlib.Core.List.{List, [], ◌∷◌, ◌++◌}
use local_agent_cli.Base.Result.{Result, err, ok}
use local_agent_cli.Base.Exec.{Exec, continue}

abbrev pub Gen : Type 0 → Type 0 → Type 0 → Type 0
Gen S E A = S → (Result A × S) × List E

module _ {S E A : Type 0} where
  abbrev pub return : A → Gen S E A
  return a s = ((ok a, s), [])

  -- A call of a function that only returns or raises.
  abbrev pub returned : Result A → Gen S E A
  returned r s = ((r, s), [])

  -- A call of a method that yields nothing.
  abbrev pub performed : Exec S A → Gen S E A
  performed method s = (method s, [])

  -- What is left when the events are not looked at.
  abbrev pub quiet : Gen S E A → Exec S A
  quiet run s = (run s).0

module _ {S E : Type 0} where
  -- `yield event`
  abbrev pub emit : E → Gen S E (Unit {0})
  emit event s = ((ok tt, s), event ∷ [])

module _ {S E A B : Type 0} where
  abbrev pub resume : Result A → (A → Gen S E B) → S → List E → (Result B × S) × List E
  resume (ok a) next s events = ((next a s).0, events ++ (next a s).1)
  resume (err raised) next s events = ((err raised, s), events)

  infixl 10 ◌>>=◌ ◌>>◌
  abbrev pub ◌>>=◌ : Gen S E A → (A → Gen S E B) → Gen S E B
  ◌>>=◌ run next s = resume (run s).0.0 next (run s).0.1 (run s).1

  abbrev pub ◌>>◌ : Gen S E A → Gen S E B → Gen S E B
  run >> next = run >>= λ _. next

  pub quiet-resume :
      (r : Result A) (next : A → Gen S E B) (s : S) (events : List E)
      → (resume r next s events).0 ≡ continue r (λ a. quiet (next a)) s
  quiet-resume (ok a) next s events = refl
  quiet-resume (err raised) next s events = refl
