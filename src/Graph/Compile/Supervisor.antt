-- ===== src/Graph/Compile/Supervisor.antt =====
-- supervisor.go of pkg/lang/ir/v1, and the commands of the servers in editor.go.
use Prim.Native.String.{◌++◌}
use envd.Base.{
  ℕ, suc, String, false, Option, none, some, List, [], ◌∷◌, ◌++◌ as append, if◌then◌else◌, str_eq,
}
use envd.Base.Text.{codes}
use envd.Base.Native.{cat, join_with, decimal, to_string}
use envd.Base.Strings.Decimal.{pos}
use envd.FilePath.{join_path}
use envd.Graph.{Graph, JupyterConfig}
use envd.Graph.Ports.{ssh_port, jupyter_port}
use envd.Graph.Compile.{
  no_owner, mkdir, mkfile, copy, Buildkit, World, entrypoint_not_allowed, ok, err, M, ◌▷◌,
}
use envd.Graph.Compile.System.{owner_of}
use envd.Graph.Compile.User.{is_root}

-- What `generateJupyterCommand` does to the configuration, which its copy of the graph shares.
unfoldable pub with_token : JupyterConfig → JupyterConfig
with_token c = if str_eq c.token "" then record c { token = "''" } else c

-- `generateJupyterCommand("")`, of a configuration with a token.
unfoldable pub jupyter_command : JupyterConfig → Graph → List String
jupyter_command c g =
    append
      ("python3"
        ∷ "-m"
        ∷ "notebook"
        ∷ "--ip"
        ∷ "0.0.0.0"
        ∷ "--notebook-dir"
        ∷ "${ENVD_WORKDIR}"
        ∷ "--NotebookApp.token"
        ∷ c.token
        ∷ "--port"
        ∷ decimal jupyter_port
        ∷ [])
      (if is_root g then "--allow-root" ∷ [] else [])

-- `generateRStudioCommand`, where the server is configured.
abbrev pub rstudio_command : List String
rstudio_command = "sudo" ∷ "/usr/lib/rstudio-server/bin/rserver" ∷ []

abbrev quoted_all : List String → String
quoted_all [] = ""
quoted_all (d ∷ ds) = cat ("\"" ∷ d ∷ "\"," ∷ quoted_all ds ∷ [])

-- The line for the processes that come first.
unfoldable pub start_after : List String → String
start_after [] = ""
start_after (d ∷ ds) = cat ("start-after = [" ∷ quoted_all (d ∷ ds) ∷ "]\n" ∷ [])

unfoldable pub horust_service : String → String → List String → String
horust_service name command depends = cat (
    "\nname = \""
    ∷ name
    ∷ "\"\ncommand = \"\"\"\n"
    ∷ command
    ∷ "\n\"\"\"\nstdout = \"/var/log/horust/"
    ∷ name
    ∷ "_stdout.log\"\nstderr = \"/var/log/horust/"
    ∷ name
    ∷ "_stderr.log\"\nuser = \"${USER}\"\nworking-directory = \"${ENVD_WORKDIR}\"\n"
    ∷ start_after depends
    ∷ "\n\n[environment]\nkeep-env = true\n\n[restart]\n"
    ∷ "strategy = \"on-failure\"\nbackoff = \"1s\"\nattempts = 2\n\n[termination]\nwait = \"5s\"\n"
    ∷ [])

abbrev pub init_name : ℕ → String
init_name i = "init_" ++ decimal (pos i)

-- The dependencies after the initial scripts: their names, in order.
unfoldable pub init_names : ℕ → List (List String) → List String
init_names i [] = []
init_names i (c ∷ cs) = init_name i ∷ init_names (suc i) cs

module _ (b : Buildkit) (w : World) where
  open b use {State, image, file, run}

  unfoldable pub install_horust : State → State
  install_horust root =
      root
      ▷ file (copy (image "tensorchord/horust:v0.2.1") "/" "/usr/local/bin" false no_owner)
          "[internal] install horust"
      ▷ file (mkdir "/etc/horust/services" 0o755 no_owner)
          "[internal] mkdir for horust service: /etc/horust/services"
      ▷ file (mkdir "/var/log/horust" 0o777 no_owner)
          "[internal] mkdir for horust log: /var/log/horust"
      ▷ run "sudo chmod 777 /var/log/horust" "[internal] change directory permission for logging" []

  unfoldable pub add_new_process : Graph → String → String → List String → State → State
  add_new_process g name command depends root =
      let filename =
        to_string (join_path (codes "/etc/horust/services" ∷ codes (name ++ ".toml") ∷ [])) in
      file (mkfile filename 0o644 (horust_service name command depends) (owner_of g))
        ("[internal] create file " ++ filename) root

  unfoldable pub add_inits : Graph → ℕ → List (List String) → State → State
  add_inits g i [] root = root
  add_inits g i (c ∷ cs) root = add_inits g (suc i) cs (
      add_new_process g (init_name i)
        (cat ("/bin/bash -c 'set -euo pipefail\n" ∷ join_with "\n" c ∷ "'" ∷ [])) [] root)

  unfoldable pub add_daemons : Graph → ℕ → List (List String) → List String → State → State
  add_daemons g i [] deps root = root
  add_daemons g i (c ∷ cs) deps root =
      add_daemons g (suc i) cs deps
        (add_new_process g ("daemon_" ++ decimal (pos i)) (join_with " " c) deps root)

  abbrev add_jupyter : Graph → Option JupyterConfig → List String → State → State
  add_jupyter g none deps root = root
  add_jupyter g (some c) deps root =
      add_new_process g "jupyter" (join_with " " (jupyter_command (with_token c) g)) deps root

  abbrev add_rstudio : Graph → List String → State → State
  add_rstudio g deps root =
      if g.rstudio_server_config
      then add_new_process g "rstudio" (join_with " " rstudio_command) deps root
      else root

  -- The processes of `compileEntrypoint`.
  unfoldable pub all_processes : Graph → State → State
  all_processes g root =
      let deps = init_names 0 g.runtime.runtime_init_script in
      root
      ▷ add_new_process g "sshd"
          (cat ("/var/envd/bin/envd-sshd --port " ∷ decimal ssh_port ∷ " --shell " ∷ g.shell ∷ []))
          []
      ▷ add_inits g 0 g.runtime.runtime_init_script
      ▷ add_daemons g 0 g.runtime.runtime_daemon deps
      ▷ add_jupyter g g.jupyter_config deps
      ▷ add_rstudio g deps

  abbrev token_of : Option JupyterConfig → Option JupyterConfig
  token_of none = none
  token_of (some c) = some (with_token c)

  unfoldable pub own_token : Graph → Graph
  own_token g = record g { jupyter_config = token_of g.jupyter_config }

  abbrev processes_of : List String → State → M State
  processes_of [] root g = ok (all_processes g root, own_token g)
  processes_of (e ∷ es) root g = err entrypoint_not_allowed

  unfoldable pub compile_entrypoint : State → M State
  compile_entrypoint root g = processes_of g.entrypoint root g
