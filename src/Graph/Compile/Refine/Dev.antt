-- ===== src/Graph/Compile/Refine/Dev.antt =====
-- The user's part of a development image (user.go, shell.go, supervisor.go and editor.go of
-- pkg/lang/ir/v1) against its part of the specification.
use envd.Base.{
  true, false, none, List, [], ◌∷◌, map, ◌≡◌, refl, arith, if◌then◌else◌, inl, inr, Bool-cases,
}
use envd.Base.Dict.{put}
use envd.Plugin.{Plugin}
use envd.Graph.{Graph}
use envd.Graph.Compile.{
  Buildkit, World, ok, err, ◌>>=◌, pure, kept, plugin_failed, zsh_failed, entrypoint_not_allowed,
}
use envd.Graph.Compile.System.{set_environ, copy_ssh_key, is_empty}
use envd.Graph.Compile.User.{compile_user_own, own_user, is_root}
use envd.Graph.Compile.Shell.{
  compile_git, compile_prompt, compile_shell, compile_zsh, own_shell, is_zsh, shell_path,
}
use envd.Graph.Compile.Supervisor.{compile_entrypoint, own_token}
use envd.Graph.Compile.Editor.{compile_vscode, plugin_layers, plugin_layer}
use envd.Graph.Compile.Pipeline.{finish_dev, postprocess}
use envd.Graph.Compile.Effect.{
  all_downloaded, key_error, unless, dev_error, tokens, finished, after_dev,
}
use envd.Graph.Compile.Refine.{Runs, Runs-bind, Runs-reads, never, same}

module _ (b : Buildkit) (w : World) where
  plugin_layers_downloaded :
      (g : Graph) (ps : List Plugin)
      → all_downloaded w ps ≡ true
      → plugin_layers b w g ps ≡ ok (map (plugin_layer b w g) ps)
  unfolding plugin_layers
  plugin_layers_downloaded g [] h = refl
  plugin_layers_downloaded g (p ∷ ps) h = ground (arith, plugin_layers_downloaded g ps)

  plugin_layers_missing :
      (g : Graph) (ps : List Plugin)
      → all_downloaded w ps ≡ false
      → plugin_layers b w g ps ≡ err plugin_failed
  unfolding plugin_layers
  plugin_layers_missing g [] h = ground arith
  plugin_layers_missing g (p ∷ ps) h = ground (arith, plugin_layers_missing g ps)

  vscode_lem :
      (f : b.State → b.State)
      → Runs
          (kept (compile_vscode b w) >>= λ s. pure (f s))
          (λ g. unless (all_downloaded w g.vscode_plugins) plugin_failed)
          same
  unfolding compile_vscode
  vscode_lem f g = elim (Bool-cases (all_downloaded w g.vscode_plugins)) [
    | inl p ↦ ground (arith, plugin_layers_downloaded g g.vscode_plugins p)
    | inr p ↦ ground (arith, plugin_layers_missing g g.vscode_plugins p)
  ]

  entrypoint_lem :
      (root : b.State)
      → Runs
          (compile_entrypoint b w root)
          (λ g. unless (is_empty g.entrypoint) entrypoint_not_allowed)
          (λ g. record g { jupyter_config = tokens g.jupyter_config })
  unfolding compile_entrypoint own_token
  entrypoint_lem root g = ground arith

  shell_lem :
      (root : b.State)
      → Runs
          (compile_shell b w root)
          (λ g. if is_zsh g then unless w.download_zsh zsh_failed else none)
          (λ g. set_environ "SHELL" (shell_path g) g)
  unfolding compile_shell own_shell compile_zsh
  shell_lem root g = ground arith

  key_lem :
      (root : b.State)
      → Runs (kept (copy_ssh_key b w root)) (λ g. key_error (w.public_key g.public_key_path)) same
  unfolding copy_ssh_key
  key_lem root g = ground arith

  abbrev owned_by : Graph → Graph
  owned_by g = record g {
    user = if is_root g then g.user else "envd";
    runtime = record g.runtime {
      runtime_environ = put g.runtime.runtime_environ "USER" (if is_root g then "root" else "envd");
    };
  }

  user_lem : (root : b.State) → Runs (compile_user_own b w root) never owned_by
  unfolding compile_user_own own_user
  user_lem root g = ground arith

  finish_dev_lem : (root : b.State) → Runs (finish_dev b w root) (dev_error w) finished
  unfolding finish_dev
  finish_dev_lem root = Runs-reads (compile_git b w root) _ (dev_error w) finished λ git.
      Runs-bind (compile_user_own b w git) _ never (dev_error w) owned_by _ (user_lem git) λ user.
        Runs-bind (kept (copy_ssh_key b w user)) _ _ _ same _ (key_lem user) λ key.
          Runs-bind (compile_shell b w key) _ _ _ _ _ (shell_lem key) λ shell.
            Runs-reads (compile_prompt b w shell) _ _ _ λ prompt.
              Runs-bind (compile_entrypoint b w prompt) _ _ _ _ same (entrypoint_lem prompt)
                (λ entrypoint.
                  vscode_lem
                    λ vscode. b.merge (entrypoint ∷ vscode ∷ []) "[internal] final dev environment")

  pub postprocess_lem :
      (root : b.State)
      → Runs (postprocess b w root) (λ g. if g.dev then dev_error w g else none) after_dev
  unfolding postprocess
  postprocess_lem root g = elim (Bool-cases g.dev) [
    | inl p ↦ simp (p, finish_dev_lem root g)
    | inr p ↦ simp p
  ]
