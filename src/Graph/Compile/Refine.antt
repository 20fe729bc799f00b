-- ===== src/Graph/Compile/Refine.antt =====
-- The methods of pkg/lang/ir/v1 with the states of buildkit forgotten: which error a method reports and
-- what it does to the graph, and how that composes. The children have the steps of `CompileLLB`.
pub mod Language
pub mod Dev
pub mod Whole
use envd.Base.{Option, none, some, ◌≡◌, refl, ◌∙◌}
use envd.Graph.{Graph}
use envd.Graph.Compile.{Error, Result, ok, err, M, ◌>>=◌, reads}
use envd.Graph.Compile.Effect.{first, gate}

abbrev pub forget {ℓ} : {A : Type ℓ} → Result (A × Graph) → Result Graph
forget (ok (a, g)) = ok g
forget (err e) = err e

-- A method that reports `c`'s error, or leaves `u`'s graph.
abbrev pub Runs {ℓ} : {A : Type ℓ} → M A → (Graph → Option Error) → (Graph → Graph) → Type 0
Runs m c u = (g : Graph) → forget (m g) ≡ gate (c g) (u g)

pub ok_inj {ℓ} : {A : Type ℓ} (a b : A) → ok a ≡ ok b → a ≡ b
ok_inj a b p = cc

module _ {ℓ κ} {A : Type ℓ} {B : Type κ} where
  bind_at :
      (k : A → M B) (c' : Graph → Option Error) (u' : Graph → Graph)
      (h : (a : A) → Runs (k a) c' u') (r : Result (A × Graph)) (c : Option Error) (g : Graph)
      → forget r ≡ gate c g
      → forget (elim r [ err e ↦ err e | ok (a, g') ↦ k a g' ]) ≡ gate (first c (c' g)) (u' g)
  bind_at k c' u' h (err e) none g p = cc
  bind_at k c' u' h (err e) (some x) g p = cc
  bind_at k c' u' h (ok (a, g')) (some x) g p = cc
  bind_at k c' u' h (ok (a, g')) none g p = rw (ok_inj g' g p) (h a g)

  pub Runs-bind :
      (m : M A) (k : A → M B) (c c' : Graph → Option Error) (u u' : Graph → Graph)
      → Runs m c u
      → ((a : A) → Runs (k a) c' u')
      → Runs (m >>= k) (λ g. first (c g) (c' (u g))) (λ g. u' (u g))
  Runs-bind m k c c' u u' p h g = bind_at k c' u' h (m g) (c g) (u g) (p g)

last_at {ℓ κ} :
    {A : Type ℓ} {B : Type κ} (k : A → M B)
    → ((a : A) (g : Graph) → forget (k a g) ≡ ok g)
    → (r : Result (A × Graph)) → forget (elim r [ err e ↦ err e | ok (a, g') ↦ k a g' ]) ≡ forget r
last_at k h (err e) = refl
last_at k h (ok (a, g)) = h a g

-- The last steps read the graph.
pub Runs-last {ℓ κ} :
    {A : Type ℓ} {B : Type κ} (m : M A) (k : A → M B) (c : Graph → Option Error) (u : Graph → Graph)
    → Runs m c u
    → ((a : A) (g : Graph) → forget (k a g) ≡ ok g)
    → Runs (m >>= k) c u
Runs-last m k c u p h g = last_at k h (m g) ∙ p g

pub Runs-reads {ℓ κ} :
    {A : Type ℓ} {B : Type κ} (f : Graph → A) (k : A → M B) (c : Graph → Option Error)
    (u : Graph → Graph)
    → ((a : A) → Runs (k a) c u)
    → Runs (reads f >>= k) c u
Runs-reads f k c u h g = h (f g) g

abbrev pub never : Graph → Option Error
never g = none

abbrev pub same : Graph → Graph
same g = g
