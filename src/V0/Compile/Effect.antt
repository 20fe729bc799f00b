-- ===== src/V0/Compile/Effect.antt =====
-- What a compilation of version 0 does, without the states of buildkit: a specification of
-- `CompileLLB` on graphs alone, and of its errors in their order.
use envd.Base.{
  String, Bool, true, false, ◌||◌, ◌&&◌, not, Option, none, some, List, [], ◌∷◌, if◌then◌else◌,
  str_eq,
}
use envd.Base.Native.{has_prefix}
use envd.Base.Strings.Decimal.{ℤ}
use envd.Plugin.{Plugin}
use envd.Graph.Ports.{is_set}
use envd.Graph.Compile as V1
use envd.Graph.Compile.System.{conda_path}
use envd.V0.{Graph}
use envd.V0.Compile.{
  Error, metadata_failed, python_not_supported, jupyter_not_supported, key_failed, zsh_failed,
  plugin_failed, entrypoint_not_allowed, Result, ok, err, add_path, add_user_directory,
}
use envd.V0.Compile.System.{is_custom, keep_envs, own_user}
use envd.V0.Compile.Shell.{own_shell, is_zsh}
use envd.V0.Compile.Supervisor.{own_token}
use envd.V0.Compile.Pipeline.{set_ids, free_ids}

abbrev pub Effect : Type 0
Effect = Graph → Result Graph

abbrev pub then_do : Result Graph → Effect → Result Graph
then_do (ok g) k = k g
then_do (err e) k = err e

-- An error, unless the test holds.
abbrev pub demand : Bool → Error → Effect
demand true e g = ok g
demand false e g = err e

-- Only Python has Jupyter.
abbrev pub jupyter_allowed : Graph → Bool
jupyter_allowed g = not (is_set g.jupyter_config) || str_eq g.language.name "python"

-- A version that is not given, empty, "3", or begins with "3.".
abbrev pub is_supported : Option String → Bool
is_supported none = true
is_supported (some v) = (str_eq v "3" || str_eq v "") || has_prefix v "3."

abbrev pub all_downloaded : V1.World → List Plugin → Bool
all_downloaded w [] = true
all_downloaded w (p ∷ ps) = w.download_plugin p && all_downloaded w ps

module _ (w : V1.World) where
  abbrev pub key_readable : Graph → Bool
  key_readable g = is_set (w.public_key g.public_key_path)

  abbrev pub shell_available : Graph → Bool
  shell_available g = not (is_zsh g) || w.download_zsh

  -- `compilePython`
  abbrev pub python_effect : Effect
  python_effect g = then_do (demand (is_supported g.language.version) python_not_supported g) λ g₁.
      then_do (demand (shell_available g₁) zsh_failed g₁) λ g₂.
        then_do (demand (all_downloaded w g₂.vscode_plugins) plugin_failed g₂)
          λ g₃. then_do (demand (key_readable g₃) key_failed g₃) λ g₄. ok (own_shell g₄)

  -- `compileRLang`, and `compileJulia` behind its path.
  abbrev pub packages_effect : Effect
  packages_effect g = then_do (demand (jupyter_allowed g) jupyter_not_supported g) λ g₁.
      then_do (demand (key_readable g₁) key_failed g₁) λ g₂.
        then_do (demand (shell_available g₂) zsh_failed g₂) λ g₃.
          then_do (demand (all_downloaded w g₃.vscode_plugins) plugin_failed g₃)
            λ g₄. ok (own_shell g₄)

  abbrev pub by_language : Effect
  by_language g =
      if str_eq g.language.name "r"
      then packages_effect g
      else if str_eq g.language.name "python"
      then python_effect g
      else if str_eq g.language.name "julia"
      then packages_effect (add_path "/usr/local/julia/bin" g)
      else ok g

  -- A custom image has no language.
  abbrev pub language_effect : Effect
  language_effect g = if is_custom g then ok g else by_language g

-- The base of an image that is not custom: R without CUDA moves the user and the group 1000.
abbrev pub moved_ids : Option String → Effect
moved_ids none g = ok (if str_eq g.language.name "r" then free_ids g else g)
moved_ids (some cuda) g = ok g

abbrev pub with_conda : Graph → Graph
with_conda g = add_user_directory "/opt/conda/envs/envd/conda-meta" (add_path conda_path g)

abbrev pub base_effect : (String → Option (List String)) → Option String → Effect
base_effect image_env none g = then_do (moved_ids g.cuda g) λ g'. ok (with_conda g')
base_effect image_env (some name) g = elim (image_env name) [
  | none ↦ err metadata_failed
  | some envs ↦ keep_envs envs g
]

-- The processes of an image that is not custom.
abbrev pub processes_effect : List String → Effect
processes_effect [] g = ok (own_token g)
processes_effect (e ∷ es) g = err entrypoint_not_allowed

abbrev pub entrypoint_effect : Effect
entrypoint_effect g = if is_custom g then ok g else processes_effect g.entrypoint g

-- `CompileLLB` of a graph, by what the registry says of a custom image.
unfoldable pub llb_effect : V1.World → (String → Option (List String)) → ℤ → Effect
llb_effect w image_env uid g =
    then_do (base_effect image_env g.image (set_ids uid g))
      λ g₁. then_do (language_effect w g₁) λ g₂. entrypoint_effect (own_user g₂)
