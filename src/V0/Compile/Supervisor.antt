-- ===== src/V0/Compile/Supervisor.antt =====
-- supervisor.go of pkg/lang/ir/v0, and the commands of the servers in editor.go.
use Prim.Native.String.{◌++◌}
use envd.Base.{
  ℕ, suc, String, false, Option, none, some, List, [], ◌∷◌, ◌++◌ as append, if◌then◌else◌,
}
use envd.Base.Text.{codes}
use envd.Base.Native.{cat, join_with, decimal, to_string}
use envd.Base.Strings.Decimal.{pos}
use envd.FilePath.{join_path}
use envd.Graph.{JupyterConfig}
use envd.Graph.Ports.{ssh_port, jupyter_port}
use envd.Graph.Compile.{no_owner, mkdir, mkfile, copy, Buildkit, ◌▷◌}
use envd.Graph.Compile.Supervisor.{
  with_token, rstudio_command, horust_service, init_name, init_names,
}
use envd.V0.{Graph}
use envd.V0.Compile.{World, entrypoint_not_allowed, ok, err, M, owner_of}
use envd.V0.Compile.System.{is_root, is_custom}

-- `generateJupyterCommand("")`, of a configuration with a token.
unfoldable pub jupyter_command : JupyterConfig → Graph → List String
jupyter_command c g =
    append
      ("python3"
        ∷ "-m"
        ∷ "notebook"
        ∷ "--ip"
        ∷ "0.0.0.0"
        ∷ "--notebook-dir"
        ∷ "${ENVD_WORKDIR}"
        ∷ "--NotebookApp.token"
        ∷ c.token
        ∷ "--port"
        ∷ decimal jupyter_port
        ∷ [])
      (if is_root g then "--allow-root" ∷ [] else [])

abbrev token_of : Option JupyterConfig → Option JupyterConfig
token_of none = none
token_of (some c) = some (with_token c)

-- The copy of the graph shares the configuration of Jupyter, whose token the command may set.
unfoldable pub own_token : Graph → Graph
own_token g = record g { jupyter_config = token_of g.jupyter_config }

module _ (b : Buildkit) (w : World b.State) where
  open b use {State, image, file, run}

  unfoldable pub install_horust : State → State
  install_horust root =
      root
      ▷ file (copy (image "tensorchord/horust:v0.2.1") "/" "/usr/local/bin" false no_owner)
          "[internal] install horust"
      ▷ file (mkdir "/etc/horust/services" 0o755 no_owner)
          "[internal] mkdir for horust service: /etc/horust/services"
      ▷ file (mkdir "/var/log/horust" 0o777 no_owner)
          "[internal] mkdir for horust log: /var/log/horust"
      ▷ run "sudo chmod 777 /var/log/horust" "[internal] change directory permission for logging" []

  unfoldable pub add_new_process : Graph → String → String → List String → State → State
  add_new_process g name command depends root =
      let filename =
        to_string (join_path (codes "/etc/horust/services" ∷ codes (name ++ ".toml") ∷ [])) in
      file (mkfile filename 0o644 (horust_service name command depends) (owner_of g))
        ("[internal] create file " ++ filename) root

  unfoldable pub add_inits : Graph → ℕ → List (List String) → State → State
  add_inits g i [] root = root
  add_inits g i (c ∷ cs) root = add_inits g (suc i) cs (
      add_new_process g (init_name i)
        (cat ("/bin/bash -c 'set -euo pipefail\n" ∷ join_with "\n" c ∷ "'" ∷ [])) [] root)

  unfoldable pub add_daemons : Graph → ℕ → List (List String) → List String → State → State
  add_daemons g i [] deps root = root
  add_daemons g i (c ∷ cs) deps root =
      add_daemons g (suc i) cs deps
        (add_new_process g ("daemon_" ++ decimal (pos i)) (join_with " " c) deps root)

  abbrev add_jupyter : Graph → Option JupyterConfig → List String → State → State
  add_jupyter g none deps root = root
  add_jupyter g (some c) deps root =
      add_new_process g "jupyter" (join_with " " (jupyter_command (with_token c) g)) deps root

  abbrev add_rstudio : Graph → List String → State → State
  add_rstudio g deps root =
      if g.rstudio_server_config
      then add_new_process g "rstudio" (join_with " " rstudio_command) deps root
      else root

  -- The processes of `compileEntrypoint`.
  unfoldable pub all_processes : Graph → State → State
  all_processes g root =
      let deps = init_names 0 g.runtime.runtime_init_script in
      root
      ▷ add_new_process g "sshd"
          (cat ("/var/envd/bin/envd-sshd --port " ∷ decimal ssh_port ∷ " --shell " ∷ g.shell ∷ []))
          []
      ▷ add_inits g 0 g.runtime.runtime_init_script
      ▷ add_daemons g 0 g.runtime.runtime_daemon deps
      ▷ add_jupyter g g.jupyter_config deps
      ▷ add_rstudio g deps

  abbrev pub processes_of : List String → State → M State
  processes_of [] root g = ok (all_processes g root, own_token g)
  processes_of (e ∷ es) root g = err entrypoint_not_allowed

  unfoldable pub compile_entrypoint : State → M State
  compile_entrypoint root g = if is_custom g then ok (root, g) else processes_of g.entrypoint root g
