-- ===== src/Engine/Wait.antt =====
-- `WaitUntilRunning` of docker.go in pkg/envd: a loop that asks the daemon at each interval until the
-- container runs or the time is over. What the `select` receives is a list.
use envd.Base.{
  ℕ, zero, suc, All, ◌⊎◌, String, Bool, true, false, Option, none, some, List, [], ◌∷◌, ◌++◌, ◌≡◌,
  ap, if◌then◌else◌, inl, inr,
}
use envd.Engine.{
  ApiError, Reply, E, failed, replied, Container, Client, timed_out, Result, ok, err, pure, wrap,
  api,
}
use envd.Engine.Docker.{is_running}

pub data Tick : Type 0 where
  interval expired : Tick

abbrev pub intervals : ℕ → List Tick
intervals zero = []
intervals (suc n) = interval ∷ intervals n

-- An answer behind which the loop goes on: there is no such container, or it does not run.
abbrev pub IsPending : Reply Container → Type 0
IsPending (replied ctr) = ctr.running ≡ false
IsPending (failed a) = a.not_found ≡ true

-- An answer behind which the loop returns `r`.
abbrev pub Settles : Reply Container → Option (Result (Unit {0})) → Type 0
Settles (replied ctr) r = (ctr.running ≡ true) × (r ≡ some (ok tt))
Settles (failed a) r = (a.not_found ≡ false) × (r ≡ some (err (api a)))

abbrev running_answer : {S : Type 0} → Container → E S Bool
running_answer ctr = pure ctr.running

abbrev running_error : {S : Type 0} → ApiError → E S Bool
running_error a = if a.not_found then pure false else wrap a

module _ (c : Client) where
  open c use {State, container_inspect}

  abbrev pub go_on :
      (State → Option (Result (Unit {0})) × State)
      → Result Bool × State
      → Option (Result (Unit {0})) × State
  go_on rest (err e, s) = (some (err e), s)
  go_on rest (ok true, s) = (some (ok tt), s)
  go_on rest (ok false, s) = rest s

  -- `none` where the loop still waits at the end of the list.
  unfoldable pub wait_until_running :
      String → List Tick → State → Option (Result (Unit {0})) × State
  wait_until_running name [] s = (none, s)
  wait_until_running name (expired ∷ ts) s = (some (err timed_out), (container_inspect name s).1)
  wait_until_running name (interval ∷ ts) s =
      go_on (wait_until_running name ts) (is_running c name s)

  -- The first answers of the daemon, when it is asked again and again.
  abbrev pub answers : ℕ → String → State → List (Reply Container)
  answers zero name s = []
  answers (suc n) name s =
      (container_inspect name s).0 ∷ answers n name (container_inspect name s).1

  -- What the loop should return by these answers: that of the first that settles it, or a timeout.
  abbrev pub Verdict : List (Reply Container) → Option (Result (Unit {0})) → Type 0
  Verdict xs r =
      ((before : List (Reply Container)) × (x : Reply Container) × (after : List (Reply Container))
        × (xs ≡ before ++ (x ∷ after))
        × All IsPending before
        × Settles x r)
      ⊎ (All IsPending xs × (r ≡ some (err timed_out)))

  later :
      (x : Reply Container) (xs : List (Reply Container)) (r : Option (Result (Unit {0})))
      → IsPending x
      → Verdict xs r
      → Verdict (x ∷ xs) r
  later x xs r p (inl (before, y, after, e, q, z)) =
      inl (x ∷ before, y, after, ap (λ l. x ∷ l) e, (p, q), z)
  later x xs r p (inr (q, z)) = inr ((p, q), z)
