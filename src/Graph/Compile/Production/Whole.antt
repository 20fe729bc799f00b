-- ===== src/Graph/Compile/Production/Whole.antt =====
-- `Compile` of pkg/lang/ir/v1/compile.go on a production graph.
use mathlib.Core.Path.{subst}
use envd.Base.{String, false, Option, [], ◌∷◌, ◌≡◌, refl, ap, ◌∙◌, sym}
use envd.Base.Text.{Text}
use envd.Graph.{Graph}
use envd.Graph.Owner.{System, get_uid_gid}
use envd.Graph.Compile.{Buildkit, World, Result, ok, err, M, ◌>>=◌, kept}
use envd.Graph.Compile.Pipeline.{compile_llb}
use envd.Graph.Compile.Entry.{compile, name_env, owner_or_fail, marshal_or_fail}
use envd.Graph.Compile.Production.{erase, production, over, IsBlind, bind-IsBlind}
use envd.Graph.Compile.Production.Blind.{compile_llb-IsBlind}

abbrev pub result_of {ℓ} : {A : Type ℓ} → Result (A × Graph) → Result A
result_of (ok (a, g)) = ok a
result_of (err e) = err e

result_of-over {ℓ} :
    {A : Type ℓ} (f : Graph → Graph) (r : Result (A × Graph)) → result_of (over f r) ≡ result_of r
result_of-over f (ok (a, g)) = refl
result_of-over f (err e) = refl

production_id : (g : Graph) → g.dev ≡ false → production g ≡ g
production_id g h = subst (λ x. record g { dev = x } ≡ g) h refl

result_of-erase {ℓ} :
    {A : Type ℓ} (m : M A) (g : Graph)
    → IsBlind m
    → g.dev ≡ false
    → result_of (m (erase g)) ≡ result_of (m g)
result_of-erase m g p h =
    let (r, q, q') = p g in
    subst (λ x. result_of (m (erase x)) ≡ result_of (m x)) (production_id g h)
      (ap result_of q' ∙ result_of-over _ r ∙ sym (ap result_of q ∙ result_of-over _ r))

abbrev result_at {ℓ} : {A : Type ℓ} → Result A → Graph → Result (A × Graph)
result_at r g = elim r [ err e ↦ err e | ok a ↦ ok (a, g) ]

kept_at {ℓ} :
    {A : Type ℓ} (f : Graph → Graph) (r : Result A) (g : Graph)
    → result_at r (f g) ≡ over f (result_at r g)
kept_at f (err e) g = refl
kept_at f (ok a) g = refl

kept-IsBlind {ℓ} :
    {A : Type ℓ} (f : Graph → Result A)
    → ((g : Graph) → f (erase (production g)) ≡ f (production g))
    → IsBlind (kept f)
kept-IsBlind f p g = (
  result_at (f (production g)) g,
  kept_at production (f (production g)) g,
  ap (λ r. elim r [ err e ↦ err e | ok a ↦ ok (a, erase (production g)) ]) (p g)
      ∙ kept_at (λ h. erase (production h)) (f (production g)) g,
)

module _ {ℓ} (b : Buildkit) (w : World) {D : Type ℓ} (marshal : b.State → Option D) where
  owner_blind :
      (flag : Text) (s : System) (g : Graph)
      → get_uid_gid flag s (erase (production g)) ≡ get_uid_gid flag s (production g)
  unfolding get_uid_gid
  owner_blind [] s g = refl
  owner_blind (c ∷ flag) s g = refl

  abbrev compile_named : Text → System → M D
  compile_named flag s = do
    ids ← kept (λ g. owner_or_fail (get_uid_gid flag s g))
    state ← compile_llb b w ids.0 ids.1
    kept (λ g. marshal_or_fail (marshal state))

  compile_named-IsBlind : (flag : Text) (s : System) → IsBlind (compile_named flag s)
  compile_named-IsBlind flag s =
      bind-IsBlind (kept (λ g. owner_or_fail (get_uid_gid flag s g)))
        (λ ids.
          compile_llb b w ids.0 ids.1 >>= λ state. kept (λ g. marshal_or_fail (marshal state)))
        (kept-IsBlind (λ g. owner_or_fail (get_uid_gid flag s g))
          (λ g. ap owner_or_fail (owner_blind flag s g)))
        λ ids.
          bind-IsBlind (compile_llb b w ids.0 ids.1)
            (λ state. kept (λ g. marshal_or_fail (marshal state)))
            (compile_llb-IsBlind b w ids.0 ids.1)
            λ state. kept-IsBlind (λ g. marshal_or_fail (marshal state)) (λ g. refl)

  -- What `Compile` makes of a graph that is not for development, or its error, does not depend on what
  -- serves development: a second graph that differs only in the fields that `erase` clears, such as
  -- the shell, git's configuration, the plugins, the servers, the daemons and the entrypoint, gives
  -- the same, with any other public key.
  pub compile-production :
      (env_name key key' : String) (flag : Text) (s : System) (g g' : Graph)
      → g.dev ≡ false
      → erase g ≡ erase g'
      → result_of (compile b w marshal env_name key flag s g)
        ≡ result_of (compile b w marshal env_name key' flag s g')
  unfolding compile
  compile-production env_name key key' flag s g g' h e =
      sym (
        result_of-erase (compile_named flag s) (name_env env_name key g)
          (compile_named-IsBlind flag s) h)
      ∙ ap (λ x. result_of (compile_named flag s (record x { environment_name = env_name }))) e
      ∙ result_of-erase (compile_named flag s) (name_env env_name key' g')
          (compile_named-IsBlind flag s) (sym (ap (λ (x : Graph). x.dev) e) ∙ h)
