-- ===== src/V0/Compile/Refine.antt =====
-- The methods of pkg/lang/ir/v0 with the states of buildkit forgotten: which error a method reports and
-- what it does to the graph. The children have the steps of `CompileLLB`.
pub mod Steps
pub mod Languages
pub mod Whole
use envd.Base.{Bool, true, false, ◌≡◌, refl, ◌∙◌, ap}
use envd.V0.{Graph}
use envd.V0.Compile.{Error, Result, ok, err, M, ◌>>=◌, reads, kept, on_copy}
use envd.V0.Compile.Effect.{Effect, then_do, demand}

abbrev pub graph_of {ℓ} : {A : Type ℓ} → Result (A × Graph) → Result Graph
graph_of (ok (a, g)) = ok g
graph_of (err e) = err e

abbrev pub Does {ℓ} : {A : Type ℓ} → M A → Effect → Type 0
Does m e = (g : Graph) → graph_of (m g) ≡ e g

pub ok_inj {ℓ} : {A : Type ℓ} (a b : A) → ok a ≡ ok b → a ≡ b
ok_inj a b p = cc

module _ {ℓ κ} {A : Type ℓ} {B : Type κ} where
  bind_at :
      (k : A → M B) (e' : Effect) (h : (a : A) → Does (k a) e') (r : Result (A × Graph))
      (x : Result Graph)
      → graph_of r ≡ x
      → graph_of (elim r [ err e ↦ err e | ok (a, g') ↦ k a g' ]) ≡ then_do x e'
  bind_at k e' h (err e) (ok g) p = cc
  bind_at k e' h (err e) (err e₁) p = p
  bind_at k e' h (ok (a, g')) (err e₁) p = cc
  bind_at k e' h (ok (a, g')) (ok g) p = rw (ok_inj g' g p) (h a g)

  pub Does-bind :
      (m : M A) (k : A → M B) (e e' : Effect)
      → Does m e
      → ((a : A) → Does (k a) e')
      → Does (m >>= k) (λ g. then_do (e g) e')
  Does-bind m k e e' p h g = bind_at k e' h (m g) (e g) (p g)

  pub Does-reads :
      (f : Graph → A) (k : A → M B) (e : Effect) → ((a : A) → Does (k a) e) → Does (reads f >>= k) e
  Does-reads f k e h g = h (f g) g

-- A method that may fail, and leaves the graph.
abbrev pub then_keep {ℓ} : {A : Type ℓ} → Result A → Effect
then_keep (ok a) g = ok g
then_keep (err e) g = err e

kept_at {ℓ} :
    {A : Type ℓ} (r : Result A) (g : Graph)
    → graph_of (elim r [ err e ↦ err e | ok a ↦ ok (a, g) ]) ≡ then_keep r g
kept_at (ok a) g = refl
kept_at (err e) g = refl

pub Does-kept {ℓ} :
    {A : Type ℓ} (f : Graph → Result A) (e : Effect)
    → ((g : Graph) → then_keep (f g) g ≡ e g)
    → Does (kept f) e
Does-kept f e h g = kept_at (f g) g ∙ h g

-- What a copy of the graph gives back.
abbrev pub give_back : Graph → Result Graph → Result Graph
give_back g (err e) = err e
give_back g (ok g') =
    ok (record g { runtime = record g.runtime { runtime_environ = g'.runtime.runtime_environ } })

copy_at {ℓ} :
    {A : Type ℓ} (r : Result (A × Graph)) (g : Graph)
    → graph_of (elim r [
      | err e ↦ err e
      | ok (a, g') ↦ ok (
        a,
        record g { runtime = record g.runtime { runtime_environ = g'.runtime.runtime_environ } },
      )
    ])
      ≡ give_back g (graph_of r)
copy_at (err e) g = refl
copy_at (ok (a, g')) g = refl

pub Does-on_copy {ℓ} :
    {A : Type ℓ} (m : M A) (e : Effect) → Does m e → Does (on_copy m) (λ g. give_back g (e g))
Does-on_copy m e p g = copy_at (m g) g ∙ ap (give_back g) (p g)

-- A test of the copy `j` of `g`.
pub give_back-demand :
    (t : Bool) (e : Error) (j g : Graph) (f f' : Effect)
    → give_back g (f j) ≡ f' g
    → give_back g (then_do (demand t e j) f) ≡ then_do (demand t e g) f'
give_back-demand true e j g f f' p = p
give_back-demand false e j g f f' p = refl

pub demand_cong :
    (t : Bool) (e : Error) (j g : Graph) (f f' : Effect)
    → f j ≡ f' g
    → then_do (demand t e j) f ≡ then_do (demand t e g) f'
demand_cong true e j g f f' p = p
demand_cong false e j g f f' p = refl
