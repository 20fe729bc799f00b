-- ===== src/Graph/Compile/Production/Languages.antt =====
-- The languages and their packages (python.go, conda.go, julia.go and r.go of pkg/lang/ir/v1) in a
-- production image: what they do not read.
use envd.Base.{
  String, Option, none, some, List, [], ◌∷◌, ◌≡◌, refl, ap, ◌∙◌, arith, str_eq, inl, inr,
  Bool-cases, snoc,
}
use envd.Graph.{Graph, CondaConfig}
use envd.Graph.Compile.{Buildkit, World, ok}
use envd.Graph.Compile.System.{
  add_path, conda_path, update_env_path, cache_id, working_dir, compile_cache_dir,
  add_user_directory, compile_r_lang,
}
use envd.Graph.Compile.Conda.{
  compile_conda_environment, install_conda, install_micro_mamba, mamba_environ,
  compile_conda_packages, compile_conda_channel,
}
use envd.Graph.Compile.Python.{
  install_python, python_of, trusted_hosts, pip_all, pip_wheels_dir, pip_install, pip_requirements,
  pip_wheels, compile_pypi_packages, compile_pypi_index,
}
use envd.Graph.Compile.Languages.{
  install_julia, install_julia_packages, own_julia_packages, install_r_lang, install_r_packages,
}
use envd.Graph.Compile.Pipeline.{
  compile_language, compile_language_packages, with_conda, python_packages,
}
use envd.Base.Native.{join_with}
use envd.Graph.Compile.Production.{erase, production, IsBlind}

module _ (b : Buildkit) (w : World) where
  pip_install_blind :
      (ps : List (List String)) (g : Graph) (root : b.State)
      → pip_install b w (erase g) ps root ≡ pip_install b w g ps root
  unfolding pip_install cache_id
  pip_install_blind [] g root = refl
  pip_install_blind (p ∷ ps) g root = pip_install_blind ps g _

  pip_wheels_blind :
      (fs : List String) (g : Graph) (root : b.State)
      → pip_wheels b w (erase g) fs root ≡ pip_wheels b w g fs root
  unfolding pip_wheels cache_id
  pip_wheels_blind [] g root = refl
  pip_wheels_blind (f ∷ fs) g root = pip_wheels_blind fs g _

  python_of-IsBlind : (c : Option CondaConfig) (root : b.State) → IsBlind (python_of b w c root)
  unfolding install_conda install_micro_mamba mamba_environ compile_conda_environment
  python_of-IsBlind none root g =
      (python_of b w none root (production g), ground arith, ground arith)
  python_of-IsBlind (some c) root g = elim (Bool-cases c.use_micro_mamba) [
    | inl p ↦ (python_of b w (some c) root (production g), rw p (ground arith), rw p (ground arith))
    | inr p ↦ (python_of b w (some c) root (production g), rw p (ground arith), rw p (ground arith))
  ]

  pub language-IsBlind : (root : b.State) → IsBlind (compile_language b w root)
  unfolding compile_language install_python install_julia update_env_path
  language-IsBlind root g = elim (Bool-cases (str_eq g.language.name "python")) [
    | inl p ↦
        let (r, q, q') =
          python_of-IsBlind g.conda_config
            (b.add_env "PATH" (join_with ":" (snoc g.runtime.runtime_env_paths conda_path)) root)
            (add_path conda_path g) in
        (r, rw p q, rw p q')
    | inr p ↦ elim (Bool-cases (str_eq g.language.name "r")) [
      | inl q ↦ (ok (install_r_lang b w (compile_r_lang b w root), g), rw (p, q), rw (p, q))
      | inr q ↦ elim (Bool-cases (str_eq g.language.name "julia")) [
        | inl o ↦ (install_julia b w root g, rw (p, q, o), rw (p, q, o))
        | inr o ↦ (ok (root, g), rw (p, q, o), rw (p, q, o))
      ]
    ]
  ]

  index_blind :
      (root : b.State) (g : Graph)
      → compile_pypi_index b w root (erase g) ≡ compile_pypi_index b w root g
  unfolding compile_pypi_index trusted_hosts
  index_blind root g = refl

  pip_wheels_dir_blind :
      (root : b.State) (g : Graph) → pip_wheels_dir b w (erase g) root ≡ pip_wheels_dir b w g root
  pip_wheels_dir_blind root g = rw (pip_wheels_blind g.python_wheels g (b.dir (working_dir g) root))

  pip_all_blind : (root : b.State) (g : Graph) → pip_all b w (erase g) root ≡ pip_all b w g root
  unfolding pip_requirements cache_id
  pip_all_blind root g =
      pip_wheels_dir_blind _ g
      ∙ ap (λ r. pip_wheels_dir b w g (pip_requirements b w g r))
          (pip_install_blind g.pypi_packages g root)

  pypi_blind :
      (root : b.State) (g : Graph)
      → compile_pypi_packages b w root (erase g) ≡ compile_pypi_packages b w root g
  unfolding compile_pypi_packages compile_cache_dir
  pypi_blind root g = rw (
      pip_all_blind (b.run "mkdir -p /root/.cache/pip" "[internal] create cache dir" [] root)
        (add_user_directory "/root/.cache/pip" g))

  conda_blind :
      (c : CondaConfig) (root : b.State) (g : Graph)
      → compile_conda_packages b w c (compile_conda_channel b w c root (erase g)) (erase g)
        ≡ compile_conda_packages b w c (compile_conda_channel b w c root g) g
  unfolding compile_conda_packages compile_conda_channel cache_id
  conda_blind c root g = refl

  pypi_of_blind :
      (root : b.State) (g : Graph)
      → compile_pypi_packages b w (compile_pypi_index b w root (erase g)) (erase g)
        ≡ compile_pypi_packages b w (compile_pypi_index b w root g) g
  pypi_of_blind root g =
      ap (λ r. compile_pypi_packages b w r (erase g)) (index_blind root g) ∙ pypi_blind _ g

  with_conda_blind :
      (c : Option CondaConfig) (root pypi : b.State) (g : Graph)
      → with_conda b w c root pypi (erase g) ≡ with_conda b w c root pypi g
  with_conda_blind none root pypi g = refl
  with_conda_blind (some c) root pypi g = rw (conda_blind c root g, with_conda)

  python_packages_blind :
      (root : b.State) (g : Graph) → python_packages b w root (erase g) ≡ python_packages b w root g
  python_packages_blind root g =
      ap (λ p. with_conda b w g.conda_config root p (erase g)) (pypi_of_blind root g)
      ∙ with_conda_blind g.conda_config root _ g

  pub packages-IsBlind : (root : b.State) → IsBlind (compile_language_packages b w root)
  unfolding compile_language_packages install_julia_packages update_env_path own_julia_packages
      install_r_packages
  packages-IsBlind root g = elim (Bool-cases (str_eq g.language.name "python")) [
    | inl p ↦ (
      ok (python_packages b w root (production g), g),
      rw p,
      rw (p, python_packages_blind root (production g)),
    )
    | inr p ↦ elim (Bool-cases (str_eq g.language.name "r")) [
      | inl q ↦ (ok (install_r_packages b w root g, g), rw (p, q), rw (p, q))
      | inr q ↦ elim (Bool-cases (str_eq g.language.name "julia")) [
        | inl o ↦ (
          install_julia_packages b w root g,
          rw (p, q, o) (ground arith),
          rw (p, q, o) (ground arith),
        )
        | inr o ↦ (ok (root, g), rw (p, q, o), rw (p, q, o))
      ]
    ]
  ]
