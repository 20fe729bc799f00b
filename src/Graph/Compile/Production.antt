-- ===== src/Graph/Compile/Production.antt =====
-- pkg/lang/ir/v1: what a production image is built from.
pub mod Languages
pub mod Blind
pub mod Whole
use envd.Base.{
  String, Bool, true, false, Option, none, some, List, [], ◌∷◌, ◌≡◌, refl, ap, ◌∙◌, sym,
}
use envd.Graph.{Graph, RuntimeGraph}
use envd.Graph.Compile.{Error, Result, ok, err, M, ◌>>=◌, reads}

-- The graph without what serves development: the shell, git's configuration, the plugins, the public
-- key, the servers, the entrypoint, the commands, daemons, initial scripts and ports, and the
-- description.
abbrev pub erase : Graph → Graph
erase g = record g {
  envd_syntax_version = "";
  shell = "";
  git_config = none;
  vscode_plugins = [];
  public_key_path = "";
  jupyter_config = none;
  rstudio_server_config = false;
  entrypoint = [];
  repo = record { url = ""; description = "" };
  runtime = record g.runtime {
    runtime_commands = [];
    runtime_daemon = [];
    runtime_init_script = [];
    runtime_expose = [];
  };
}

abbrev pub production : Graph → Graph
production g = record g { dev = false }

abbrev pub over {ℓ} : {A : Type ℓ} → (Graph → Graph) → Result (A × Graph) → Result (A × Graph)
over f (err e) = err e
over f (ok (a, g)) = ok (a, f g)

-- Of a production graph, `m` does not see what `erase` drops, and it leaves a production graph.
abbrev pub IsBlind {ℓ} : {A : Type ℓ} → M A → Type ℓ
IsBlind {A = A} m =
    (g : Graph)
    → (r : Result (A × Graph)) × (m (production g) ≡ over production r)
      × (m (erase (production g)) ≡ over (λ h. erase (production h)) r)

module _ {ℓ κ} {A : Type ℓ} {B : Type κ} where
  abbrev carry : (A → M B) → Result (A × Graph) → Result (B × Graph)
  carry k r = elim r [ err e ↦ err e | ok (a, g) ↦ k a g ]

  blind_at :
      (k : A → M B) (h : (a : A) → IsBlind (k a)) (m : M A) (g : Graph) (r : Result (A × Graph))
      → m (production g) ≡ over production r
      → m (erase (production g)) ≡ over (λ h. erase (production h)) r
      → (r' : Result (B × Graph)) × ((m >>= k) (production g) ≡ over production r')
        × ((m >>= k) (erase (production g)) ≡ over (λ h. erase (production h)) r')
  blind_at k h m g (err e) p q = (err e, ap (carry k) p, ap (carry k) q)
  blind_at k h m g (ok (a, g')) p q =
      let (r', p', q') = h a g' in (r', ap (carry k) p ∙ p', ap (carry k) q ∙ q')

  pub bind-IsBlind :
      (m : M A) (k : A → M B) → IsBlind m → ((a : A) → IsBlind (k a)) → IsBlind (m >>= k)
  bind-IsBlind m k p h g = let (r, p', q') = p g in blind_at k h m g r p' q'

  pub reads-IsBlind :
      (f : Graph → A) (k : A → M B)
      → ((g : Graph) → f (erase (production g)) ≡ f (production g))
      → ((a : A) → IsBlind (k a))
      → IsBlind (reads f >>= k)
  reads-IsBlind f k p h =
      bind-IsBlind (reads f) k
        (λ g. (ok (f (production g), g), refl, ap (λ a. ok (a, erase (production g))) (p g))) h
