-- ===== src/Graph/Compile/Refine/Language.antt =====
-- The base image, the language and its packages (system.go, python.go and julia.go of
-- pkg/lang/ir/v1) against their part of the specification.
use envd.Base.{
  String, true, false, Option, none, some, List, [], ◌∷◌, ◌≡◌, refl, arith, str_eq, inl, inr,
  Bool-cases, Option-cases,
}
use envd.Base.Dict.{Dict, put}
use envd.Base.Native.{cut_string}
use envd.Graph.{Graph, CondaConfig}
use envd.Graph.Compile.{Buildkit, World, ok, err, index_out_of_range}
use envd.Graph.Compile.System.{add_path, conda_path, compile_base_image, keep_envs, update_env_path}
use envd.Graph.Compile.Conda.{
  python_version, compile_conda_environment, install_conda, install_micro_mamba, mamba_environ,
}
use envd.Graph.Compile.Python.{install_python, python_of}
use envd.Graph.Compile.Languages.{install_julia, install_julia_packages, own_julia_packages}
use envd.Graph.Compile.Pipeline.{compile_language, compile_language_packages}
use envd.Graph.Compile.Effect.{
  python, kind, base_image, all_pairs, overlay, version_error, env_error, after_base, language_dirs,
  language_environ, after_language, after_packages, gate,
}
use envd.Graph.Compile.Refine.{forget, Runs, never}

module _ (b : Buildkit) (w : World) where
  keep_envs_pairs :
      (es : List String) (d : Dict String)
      → all_pairs es ≡ true
      → keep_envs b w es d ≡ ok (overlay es d)
  unfolding keep_envs
  keep_envs_pairs [] d h = refl
  keep_envs_pairs (e ∷ es) d h = elim (Option-cases (cut_string b'=' e)) [
    | inl p ↦ absurd (ground (arith, p))
    | inr ((k, v), p) ↦
        rw (p, keep_envs, overlay) (keep_envs_pairs es (put d k v) (ground (arith, p)))
  ]

  keep_envs_no_pairs :
      (es : List String) (d : Dict String)
      → all_pairs es ≡ false
      → keep_envs b w es d ≡ err index_out_of_range
  unfolding keep_envs
  keep_envs_no_pairs [] d h = ground arith
  keep_envs_no_pairs (e ∷ es) d h = elim (Option-cases (cut_string b'=' e)) [
    | inl p ↦ rw (p, keep_envs)
    | inr ((k, v), p) ↦ rw (p, keep_envs) (keep_envs_no_pairs es (put d k v) (ground (arith, p)))
  ]

  pub compile_base_image_lem :
      Runs (compile_base_image b w) (λ g. env_error (b.image_env (base_image g))) (after_base b)
  unfolding compile_base_image
  compile_base_image_lem g = elim (Option-cases (b.image_env (base_image g))) [
    | inl p ↦ rw p
    | inr (es, p) ↦ elim (Bool-cases (all_pairs es)) [
      | inl q ↦ rw p (ground (arith, keep_envs_pairs es g.runtime.runtime_environ q, q))
      | inr q ↦ rw p (ground (arith, keep_envs_no_pairs es g.runtime.runtime_environ q, q))
    ]
  ]

  python_of_lem :
      (c : Option CondaConfig) (root : b.State) (g : Graph)
      → forget (python_of b w c root g)
        ≡ gate (version_error python (python_version g)) (record g {
          user_directories = language_dirs python c g.dev g.user_directories;
          runtime = record g.runtime {
            runtime_environ = language_environ python c g.runtime.runtime_environ;
          };
        })
  unfolding install_conda install_micro_mamba mamba_environ compile_conda_environment
  python_of_lem none root g = ground arith
  python_of_lem (some c) root g = elim (Bool-cases c.use_micro_mamba) [
    | inl p ↦ elim (Bool-cases g.dev) [
      | inl q ↦ rw (p, q) (ground arith)
      | inr q ↦ rw (p, q) (ground arith)
    ]
    | inr p ↦ elim (Bool-cases g.dev) [
      | inl q ↦ rw (p, q) (ground arith)
      | inr q ↦ rw (p, q) (ground arith)
    ]
  ]

  pub compile_language_lem :
      (root : b.State)
      → Runs
          (compile_language b w root)
          (λ g. version_error (kind g) (python_version g))
          after_language
  unfolding compile_language install_python install_julia update_env_path
  compile_language_lem root g = elim (Bool-cases (str_eq g.language.name "python")) [
    | inl p ↦ rw p (python_of_lem g.conda_config _ (add_path conda_path g))
    | inr p ↦ elim (Bool-cases (str_eq g.language.name "r")) [
      | inl q ↦ rw (p, q)
      | inr q ↦ elim (Bool-cases (str_eq g.language.name "julia")) [
        | inl o ↦ rw (p, q, o)
        | inr o ↦ rw (p, q, o)
      ]
    ]
  ]

  pub compile_language_packages_lem :
      (root : b.State) → Runs (compile_language_packages b w root) never after_packages
  unfolding compile_language_packages install_julia_packages update_env_path own_julia_packages
  compile_language_packages_lem root g = elim (Bool-cases (str_eq g.language.name "python")) [
    | inl p ↦ ground arith
    | inr p ↦ elim (Bool-cases (str_eq g.language.name "r")) [
      | inl q ↦ ground arith
      | inr q ↦ elim (Bool-cases (str_eq g.language.name "julia")) [
        | inl o ↦ ground arith
        | inr o ↦ ground arith
      ]
    ]
  ]
