-- ===== src/V0/Compile/Refine/Languages.antt =====
-- The languages of pkg/lang/ir/v0 against their specification on graphs.
use envd.Base.{
  String, Bool, true, false, not, ◌||◌, Option, none, some, List, str_eq, ◌≡◌, refl, ◌∙◌,
}
use envd.Graph.{JupyterConfig}
use envd.Graph.Ports.{is_set}
use envd.Graph.Compile.{Buildkit}
use envd.V0.{Graph}
use envd.V0.Compile.{
  World, jupyter_not_supported, python_not_supported, zsh_failed, plugin_failed, key_failed, ok,
  ◌>>=◌, pure, reads, kept, add_path, update_env_path,
}
use envd.V0.Compile.Conda.{compile_conda_environment}
use envd.V0.Compile.System.{compile_ubuntu_apt, compile_system_packages, copy_ssh_key}
use envd.V0.Compile.Editor.{add_jupyter, compile_jupyter, compile_vscode}
use envd.V0.Compile.Shell.{own_shell, compile_shell}
use envd.V0.Compile.Python.{
  pre_python, conda_stage, pypi_stage, finish_python, python_on_copy, compile_python,
}
use envd.V0.Compile.Languages.{
  install_r_packages, install_julia_packages, packages_image, compile_packages, compile_r_lang,
  compile_julia,
}
use envd.V0.Compile.Effect.{
  Effect, then_do, demand, is_supported, all_downloaded, key_readable, shell_available,
  python_effect, packages_effect,
}
use envd.V0.Compile.Refine.{
  graph_of, Does, Does-bind, Does-reads, Does-on_copy, give_back, give_back-demand, demand_cong,
}
use envd.V0.Compile.Refine.Steps.{
  jupyter_effect, compile_jupyter-Does, compile_conda_environment-Does, compile_shell-Does,
  compile_vscode-Does, copy_ssh_key-Does,
}

abbrev jupyter : Effect
jupyter g = jupyter_effect g.jupyter_config (str_eq g.language.name "python") g

module _ (b : Buildkit) (w : World b.State) where
  open b use {State}

  abbrev supported : Effect
  supported g = demand (is_supported g.language.version) python_not_supported g

  abbrev shell_found : Effect
  shell_found g = demand (shell_available w.shared g) zsh_failed (own_shell g)

  abbrev plugins_found : Effect
  plugins_found g = demand (all_downloaded w.shared g.vscode_plugins) plugin_failed g

  abbrev key_found : Effect
  key_found g = demand (key_readable w.shared g) key_failed g

  abbrev in_turn : Effect → Effect → Effect
  in_turn e e' g = then_do (e g) e'

  abbrev python_steps : Effect
  python_steps =
      in_turn jupyter
        (in_turn supported (in_turn shell_found (in_turn plugins_found (in_turn key_found ok))))

  -- The steps behind the shell.
  python_layers :
      (base system conda shell : State)
      → Does
          (do
            pre ← reads (λ g. pre_python b w base system conda shell g.shell)
            packages ← reads (conda_stage b w pre)
            pypi ← reads (pypi_stage b w pre)
            vscode ← kept (compile_vscode b w)
            key ← kept (copy_ssh_key b w pre)
            reads (finish_python b w pre packages pypi key vscode))
          (in_turn plugins_found (in_turn key_found ok))
  python_layers base system conda shell =
      Does-reads (λ g. pre_python b w base system conda shell g.shell) _ _
        λ pre. Does-reads (conda_stage b w pre) _ _ λ packages.
          Does-reads (pypi_stage b w pre) _ _ λ pypi.
            Does-bind (kept (compile_vscode b w)) _ plugins_found _ (compile_vscode-Does b w)
              λ vscode.
                Does-bind (kept (copy_ssh_key b w pre))
                  (λ key. reads (finish_python b w pre packages pypi key vscode)) key_found ok
                  (copy_ssh_key-Does b w pre) (λ key g. refl)

  python_on_copy-Does : (base : State) → Does (python_on_copy b w base) python_steps
  unfolding python_on_copy
  python_on_copy-Does base = Does-bind compile_jupyter _ jupyter _ compile_jupyter-Does λ _.
      Does-reads (λ g. compile_system_packages b w (compile_ubuntu_apt b w base g) g) _ _
        λ system.
          Does-bind (kept (compile_conda_environment b w base)) _ supported _
            (compile_conda_environment-Does b w base)
            λ conda.
              Does-bind (compile_shell b w base) _ shell_found _ (compile_shell-Does b w base)
                (python_layers base system conda)

  abbrev packages_steps : Effect
  packages_steps =
      in_turn jupyter (in_turn key_found (in_turn shell_found (in_turn plugins_found ok)))

  compile_packages-Does :
      (packages : State → Graph → State) (name : String) (base : State)
      → Does (compile_packages b w packages name base) packages_steps
  compile_packages-Does packages name base =
      Does-bind compile_jupyter _ jupyter _ compile_jupyter-Does λ _.
        Does-reads (compile_ubuntu_apt b w base) _ _ λ system.
          Does-bind (kept (copy_ssh_key b w system)) _ key_found _ (copy_ssh_key-Does b w system)
            λ key.
              Does-bind (compile_shell b w system) _ shell_found _ (compile_shell-Does b w system)
                λ shell. Does-reads (compile_system_packages b w system) _ _ λ apt.
                  Does-reads (packages system) _ _ λ installed.
                    Does-bind (kept (compile_vscode b w))
                      (λ vscode.
                        pure (packages_image b w name system key shell apt installed vscode))
                      plugins_found ok (compile_vscode-Does b w) (λ vscode g. refl)

  abbrev with_packages : List (List String) → Graph → Graph
  with_packages ps g = record g { pypi_packages = ps }

  -- The ends of the steps, and of what the specification says of them.
  abbrev key_end : Effect
  key_end = in_turn key_found ok

  abbrev plugins_end : Effect
  plugins_end = in_turn plugins_found key_end

  abbrev key_last : Effect
  key_last g = then_do (demand (key_readable w.shared g) key_failed g) λ g'. ok (own_shell g')

  abbrev plugins_last : Effect
  plugins_last g =
      then_do (demand (all_downloaded w.shared g.vscode_plugins) plugin_failed g) key_last

  abbrev shell_last : Effect
  shell_last g = then_do (demand (shell_available w.shared g) zsh_failed g) plugins_last

  python_rest :
      (ps : List (List String)) (g : Graph)
      → give_back g (in_turn supported (in_turn shell_found plugins_end) (with_packages ps g))
        ≡ python_effect w.shared g
  unfolding own_shell
  python_rest ps g =
      let j = with_packages ps g in
      give_back-demand (is_supported g.language.version) python_not_supported j g
        (in_turn shell_found plugins_end) shell_last
        (give_back-demand (shell_available w.shared g) zsh_failed (own_shell j) g plugins_end
          plugins_last
          (give_back-demand (all_downloaded w.shared g.vscode_plugins) plugin_failed (own_shell j) g
            key_end key_last
            (give_back-demand (key_readable w.shared g) key_failed (own_shell j) g (λ h. ok h)
              (λ h. ok (own_shell h)) refl)))

  python_at :
      (o : Option JupyterConfig) (p : Bool) (g : Graph)
      → p ≡ true
      → give_back g (
          then_do (jupyter_effect o p g) (
            in_turn supported (in_turn shell_found (in_turn plugins_found (in_turn key_found ok)))))
        ≡ python_effect w.shared g
  python_at none p g q = python_rest g.pypi_packages g
  python_at (some c) true g q = python_rest (add_jupyter g).pypi_packages g
  python_at (some c) false g q = cc

  pub compile_python-graph :
      (base : State) (g : Graph)
      → str_eq g.language.name "python" ≡ true
      → graph_of (compile_python b w base g) ≡ python_effect w.shared g
  unfolding compile_python
  compile_python-graph base g q =
      Does-on_copy _ python_steps (python_on_copy-Does base) g
      ∙ python_at g.jupyter_config (str_eq g.language.name "python") g q

  abbrev packages_rest : Effect
  packages_rest = in_turn key_found (in_turn shell_found (in_turn plugins_found ok))

  abbrev packages_found : Effect
  packages_found g = then_do (demand (key_readable w.shared g) key_failed g) λ g₁.
      then_do (demand (shell_available w.shared g₁) zsh_failed g₁) λ g₂.
        then_do (demand (all_downloaded w.shared g₂.vscode_plugins) plugin_failed g₂)
          λ g₃. ok (own_shell g₃)

  abbrev only_plugins_last : Effect
  only_plugins_last g =
      then_do (demand (all_downloaded w.shared g.vscode_plugins) plugin_failed g)
        λ g'. ok (own_shell g')

  abbrev only_shell_last : Effect
  only_shell_last g = then_do (demand (shell_available w.shared g) zsh_failed g) only_plugins_last

  r_rest :
      (ps : List (List String)) (g : Graph)
      → give_back g (packages_rest (with_packages ps g)) ≡ packages_found g
  unfolding own_shell
  r_rest ps g =
      let j = with_packages ps g in
      give_back-demand (key_readable w.shared g) key_failed j g
        (in_turn shell_found (in_turn plugins_found ok)) only_shell_last
        (give_back-demand (shell_available w.shared g) zsh_failed (own_shell j) g
          (in_turn plugins_found ok) only_plugins_last
          (give_back-demand (all_downloaded w.shared g.vscode_plugins) plugin_failed (own_shell j) g
            (λ h. ok h) (λ h. ok (own_shell h)) refl))

  r_at :
      (o : Option JupyterConfig) (p : Bool) (g : Graph)
      → give_back g (then_do (jupyter_effect o p g) packages_rest)
        ≡ then_do (demand (not (is_set o) || p) jupyter_not_supported g) packages_found
  r_at none p g = r_rest g.pypi_packages g
  r_at (some c) true g = r_rest (add_jupyter g).pypi_packages g
  r_at (some c) false g = refl

  pub compile_r_lang-graph :
      (base : State) (g : Graph) → graph_of (compile_r_lang b w base g) ≡ packages_effect w.shared g
  unfolding compile_r_lang
  compile_r_lang-graph base g =
      Does-on_copy _ packages_steps
        (compile_packages-Does (install_r_packages b w) "install R packages" base) g
      ∙ r_at g.jupyter_config (str_eq g.language.name "python") g

  julia_rest : (g : Graph) → packages_rest g ≡ packages_found g
  unfolding own_shell
  julia_rest g =
      demand_cong (key_readable w.shared g) key_failed g g
        (in_turn shell_found (in_turn plugins_found ok)) only_shell_last
        (demand_cong (shell_available w.shared g) zsh_failed (own_shell g) g
          (in_turn plugins_found ok) only_plugins_last
          (demand_cong (all_downloaded w.shared g.vscode_plugins) plugin_failed (own_shell g) g
            (λ h. ok h) (λ h. ok (own_shell h)) refl))

  julia_at :
      (o : Option JupyterConfig) (p : Bool) (g : Graph)
      → p ≡ false
      → then_do (jupyter_effect o p g) packages_rest
        ≡ then_do (demand (not (is_set o) || p) jupyter_not_supported g) packages_found
  julia_at none p g q = julia_rest g
  julia_at (some c) true g q = cc
  julia_at (some c) false g q = refl

  pub compile_julia-graph :
      (base : State) (g : Graph)
      → str_eq g.language.name "python" ≡ false
      → graph_of (compile_julia b w base g)
        ≡ packages_effect w.shared (add_path "/usr/local/julia/bin" g)
  unfolding compile_julia update_env_path
  compile_julia-graph base g q =
      compile_packages-Does (install_julia_packages b w) "install julia packages" _
        (add_path "/usr/local/julia/bin" g)
      ∙ julia_at g.jupyter_config (str_eq g.language.name "python")
          (add_path "/usr/local/julia/bin" g) q
