-- ===== src/V0/Compile/Refine/Steps.antt =====
-- The steps of the languages of pkg/lang/ir/v0 on the graph alone.
use envd.Base.{
  Bool, true, false, not, ◌||◌, ◌&&◌, if◌then◌else◌, Option, none, some, List, [], ◌∷◌, String,
  str_eq, ◌≡◌, refl, ◌∙◌,
}
use envd.Base.Native.{has_prefix}
use envd.Graph.{JupyterConfig}
use envd.Graph.Ports.{is_set}
use envd.Plugin.{Plugin}
use envd.Graph.Compile.{Buildkit}
use envd.V0.{Graph}
use envd.V0.Compile.{
  World, jupyter_not_supported, python_not_supported, zsh_failed, plugin_failed, key_failed, Result,
  ok, err, kept,
}
use envd.V0.Compile.System.{copy_ssh_key}
use envd.V0.Compile.Conda.{version_of, python_version, compile_conda_environment}
use envd.V0.Compile.Shell.{own_shell, is_zsh, zsh_of, compile_shell, compile_zsh}
use envd.V0.Compile.Editor.{
  add_jupyter, jupyter_of, compile_jupyter, plugin_layer, plugin_layers, compile_vscode,
}
use envd.V0.Compile.Effect.{
  Effect, demand, is_supported, all_downloaded, key_readable, shell_available,
}
use envd.V0.Compile.Refine.{graph_of, Does, then_keep, Does-kept}

-- The package of Jupyter, or the error, by whether the language is Python.
abbrev pub jupyter_effect : Option JupyterConfig → Bool → Effect
jupyter_effect none p g = ok g
jupyter_effect (some c) true g = ok (add_jupyter g)
jupyter_effect (some c) false g = err jupyter_not_supported

jupyter_if :
    (c : JupyterConfig) (p : Bool) (g : Graph)
    → graph_of {0} (if p then ok (tt, add_jupyter g) else err jupyter_not_supported)
      ≡ jupyter_effect (some c) p g
jupyter_if c true g = refl
jupyter_if c false g = refl

jupyter_at :
    (o : Option JupyterConfig) (g : Graph)
    → graph_of (jupyter_of o g) ≡ jupyter_effect o (str_eq g.language.name "python") g
jupyter_at none g = refl
jupyter_at (some c) g = jupyter_if c (str_eq g.language.name "python") g

pub compile_jupyter-Does :
    Does compile_jupyter (λ g. jupyter_effect g.jupyter_config (str_eq g.language.name "python") g)
unfolding compile_jupyter
compile_jupyter-Does g = jupyter_at g.jupyter_config g

supported_at :
    (a p : Bool) (v : String) (g : Graph)
    → then_keep (if a then ok "3.9" else if p then ok v else err python_not_supported) g
      ≡ demand (a || p) python_not_supported g
supported_at true p v g = refl
supported_at false true v g = refl
supported_at false false v g = refl

version_of-demand :
    (o : Option String) (g : Graph)
    → then_keep (version_of o) g ≡ demand (is_supported o) python_not_supported g
version_of-demand none g = refl
version_of-demand (some v) g = supported_at (str_eq v "3" || str_eq v "") (has_prefix v "3.") v g

module _ {A B : Type 0} where
  pub then_keep-map :
      (r : Result A) (f : A → B) (g : Graph)
      → then_keep (elim r [ err e ↦ err e | ok a ↦ ok (f a) ]) g ≡ then_keep r g
  then_keep-map (ok a) f g = refl
  then_keep-map (err e) f g = refl

layers_at :
    {S : Type 0} (d a : Bool) (s : S) (r : Result (List S)) (g : Graph)
    → then_keep r g ≡ demand a plugin_failed g
    → then_keep
        (if d then elim r [ err e ↦ err e | ok inputs ↦ ok (s ∷ inputs) ] else err plugin_failed)
        g
      ≡ demand (d && a) plugin_failed g
layers_at false a s r g p = refl
layers_at true a s r g p = then_keep-map r (λ inputs. s ∷ inputs) g ∙ p

zsh_at :
    {S : Type 0} (z d : Bool) (x y : S) (g : Graph)
    → then_keep (if z then if d then ok x else err zsh_failed else ok y) g
      ≡ demand (not z || d) zsh_failed g
zsh_at true true x y g = refl
zsh_at true false x y g = refl
zsh_at false d x y g = refl

key_at :
    {S : Type 0} (o : Option String) (f : String → S) (g : Graph)
    → then_keep (elim o [ none ↦ err key_failed | some key ↦ ok (f key) ]) g
      ≡ demand (is_set o) key_failed g
key_at none f g = refl
key_at (some key) f g = refl

module _ (b : Buildkit) (w : World b.State) where
  open b use {State}

  pub compile_conda_environment-Does :
      (root : State)
      → Does
          (kept (compile_conda_environment b w root))
          (λ g. demand (is_supported g.language.version) python_not_supported g)
  unfolding compile_conda_environment python_version
  compile_conda_environment-Does root =
      Does-kept _ _
        λ g. then_keep-map (python_version g) _ g ∙ version_of-demand g.language.version g

  pub compile_shell-Does :
      (root : State)
      → Does
          (compile_shell b w root)
          (λ g. demand (shell_available w.shared g) zsh_failed (own_shell g))
  unfolding compile_shell compile_zsh own_shell
  compile_shell-Does root g =
      Does-kept (zsh_of b w root) (λ h. demand (shell_available w.shared h) zsh_failed h)
        (λ h. zsh_at (is_zsh h) w.shared.download_zsh _ _ h) (own_shell g)

  plugin_layers-demand :
      (g : Graph) (ps : List Plugin)
      → then_keep (plugin_layers b w g ps) g ≡ demand (all_downloaded w.shared ps) plugin_failed g
  unfolding plugin_layers
  plugin_layers-demand g [] = refl
  plugin_layers-demand g (p ∷ ps) =
      layers_at (w.shared.download_plugin p) (all_downloaded w.shared ps) (plugin_layer b w g p)
        (plugin_layers b w g ps) g (plugin_layers-demand g ps)

  pub compile_vscode-Does :
      Does
        (kept (compile_vscode b w))
        (λ g. demand (all_downloaded w.shared g.vscode_plugins) plugin_failed g)
  unfolding compile_vscode
  compile_vscode-Does = Does-kept _ _ λ g.
      then_keep-map (plugin_layers b w g g.vscode_plugins) _ g
      ∙ plugin_layers-demand g g.vscode_plugins

  pub copy_ssh_key-Does :
      (root : State)
      → Does (kept (copy_ssh_key b w root)) (λ g. demand (key_readable w.shared g) key_failed g)
  unfolding copy_ssh_key
  copy_ssh_key-Does root = Does-kept _ _ λ g. key_at (w.shared.public_key g.public_key_path) _ g
