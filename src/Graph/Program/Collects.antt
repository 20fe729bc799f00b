-- ===== src/Graph/Program/Collects.antt =====
-- What a build file leaves in the lists of the graph.
use mathlib.Core.List.{append-nil, append_assoc}
use envd.Base.{String, Option, List, [], ◌∷◌, ◌++◌, ◌≡◌, refl, sym, ap, ◌∙◌, arith}
use envd.Base.Text.{Text}
use envd.Plugin.{parsed, invalid_publisher, out_of_range, parse_plugin}
use envd.Graph.{CopyInfo, MountInfo, ExposeItem, RunBuildCommand, Graph}
use envd.Graph.Rules
use envd.Graph.Rules.{Outcome, done, failed, panicked, is_empty}
use envd.Graph.Program.{Rule, apply, then_run, run_program}

-- The lists that rules only append to, and that no error leaves behind half done.
pub record Lists : Type 0 where
  pub system_packages : List String
  pub pypi_packages : List (List String)
  pub python_wheels : List String
  pub r_packages : List (List String)
  pub julia_packages : List (List String)
  pub exec : List RunBuildCommand
  pub copy : List CopyInfo
  pub mount : List MountInfo
  pub entrypoint : List String
  pub runtime_daemon : List (List String)
  pub runtime_init_script : List (List String)
  pub runtime_expose : List ExposeItem
  pub runtime_env_paths : List String

abbrev pub lists_of : Graph → Lists
lists_of g = record {
  system_packages = g.system_packages;
  pypi_packages = g.pypi_packages;
  python_wheels = g.python_wheels;
  r_packages = g.r_packages;
  julia_packages = g.julia_packages;
  exec = g.exec;
  copy = g.copy;
  mount = g.mount;
  entrypoint = g.entrypoint;
  runtime_daemon = g.runtime.runtime_daemon;
  runtime_init_script = g.runtime.runtime_init_script;
  runtime_expose = g.runtime.runtime_expose;
  runtime_env_paths = g.runtime.runtime_env_paths;
}

abbrev pub nothing : Lists
nothing = record {
  system_packages = [];
  pypi_packages = [];
  python_wheels = [];
  r_packages = [];
  julia_packages = [];
  exec = [];
  copy = [];
  mount = [];
  entrypoint = [];
  runtime_daemon = [];
  runtime_init_script = [];
  runtime_expose = [];
  runtime_env_paths = [];
}

abbrev pub merge : Lists → Lists → Lists
merge a b = record {
  system_packages = a.system_packages ++ b.system_packages;
  pypi_packages = a.pypi_packages ++ b.pypi_packages;
  python_wheels = a.python_wheels ++ b.python_wheels;
  r_packages = a.r_packages ++ b.r_packages;
  julia_packages = a.julia_packages ++ b.julia_packages;
  exec = a.exec ++ b.exec;
  copy = a.copy ++ b.copy;
  mount = a.mount ++ b.mount;
  entrypoint = a.entrypoint ++ b.entrypoint;
  runtime_daemon = a.runtime_daemon ++ b.runtime_daemon;
  runtime_init_script = a.runtime_init_script ++ b.runtime_init_script;
  runtime_expose = a.runtime_expose ++ b.runtime_expose;
  runtime_env_paths = a.runtime_env_paths ++ b.runtime_env_paths;
}

abbrev group : List String → List (List String)
group [] = []
group (d ∷ ds) = (d ∷ ds) ∷ []

-- What a rule adds, by its arguments alone.
abbrev pub adds : Rule → Lists
adds (Rule.system_package deps) = record nothing { system_packages = deps }
adds (Rule.pypi_package deps file wheels) = record nothing {
  pypi_packages = group deps;
  python_wheels = wheels;
}
adds (Rule.r_package deps) = record nothing { r_packages = deps ∷ [] }
adds (Rule.julia_package deps) = record nothing { julia_packages = deps ∷ [] }
adds (Rule.run commands mounts) = record nothing {
  exec = record { commands = commands; mount_host = mounts } ∷ [];
}
adds (Rule.copy src dest) = record nothing {
  copy = record { source = src; destination = dest } ∷ [];
}
adds (Rule.mount src dest) = record nothing {
  mount = record { source = src; destination = dest } ∷ [];
}
adds (Rule.entrypoint args) = record nothing { entrypoint = args }
adds (Rule.runtime_daemon commands) = record nothing { runtime_daemon = commands }
adds (Rule.runtime_init_script commands) = record nothing { runtime_init_script = commands ∷ [] }
adds (Rule.runtime_expose e h name addr) = record nothing {
  runtime_expose =
      record { envd_port = e; host_port = h; service_name = name; listening_addr = addr } ∷ [];
}
adds (Rule.runtime_environ env path) = record nothing { runtime_env_paths = path }
adds _ = nothing

abbrev pub adds_all : List Rule → Lists
adds_all [] = nothing
adds_all (r ∷ rs) = merge (adds r) (adds_all rs)

merge-nothing : (a : Lists) → merge a nothing ≡ a
merge-nothing a = simp append-nil

merge_assoc : (a b c : Lists) → merge (merge a b) c ≡ merge a (merge b c)
merge_assoc a b c = simp append_assoc

lists-vscode_plugins :
    (ts : List Text) (g : Graph) → lists_of (Rules.vscode_plugins ts g).0 ≡ lists_of g
unfolding Rules.vscode_plugins
lists-vscode_plugins [] g = refl
lists-vscode_plugins (t ∷ ts) g =
    elim (parse_plugin t)
      as (λ r.
        lists_of
          (elim r as (λ _. Graph × Outcome) [
            | parsed p ↦ Rules.vscode_plugins ts (Rules.append_plugin g p)
            | invalid_publisher ↦ (g, failed Rules.bad_publisher)
            | out_of_range ↦ (g, panicked)
          ]).0
        ≡ lists_of g) [
          | parsed p ↦ lists-vscode_plugins ts (Rules.append_plugin g p)
          | invalid_publisher ↦ refl
          | out_of_range ↦ refl
        ]

module _ (parse_digest : String → Option String) where
  lists-apply :
      (r : Rule) (g : Graph)
      → (apply parse_digest r g).1 ≡ done
      → lists_of (apply parse_digest r g).0 ≡ merge (lists_of g) (adds r)
  unfolding apply
  lists-apply (Rule.base image dev) g h = unfold Rules.base in simp append-nil
  lists-apply (Rule.conda mamba) g h = unfold Rules.conda in simp append-nil
  lists-apply (Rule.r_lang) g h = unfold Rules.r_lang in simp append-nil
  lists-apply (Rule.julia) g h = unfold Rules.julia in simp append-nil
  lists-apply (Rule.rstudio_server) g h = unfold Rules.rstudio_server in simp append-nil
  lists-apply (Rule.system_package deps) g h = unfold Rules.system_package in simp append-nil
  lists-apply (Rule.entrypoint args) g h = unfold Rules.entrypoint in simp append-nil
  lists-apply (Rule.runtime_init_script commands) g h =
      unfold Rules.runtime_init_script in simp append-nil
  lists-apply (Rule.gpu n) g h = unfold Rules.gpu in simp append-nil
  lists-apply (Rule.cuda version cudnn) g h = unfold Rules.cuda in simp append-nil
  lists-apply (Rule.cran_mirror url) g h = unfold Rules.cran_mirror in simp append-nil
  lists-apply (Rule.julia_package_server url) g h =
      unfold Rules.julia_package_server in simp append-nil
  lists-apply (Rule.shell name) g h = unfold Rules.shell in simp append-nil
  lists-apply (Rule.jupyter pwd port) g h = unfold Rules.jupyter in simp append-nil
  lists-apply (Rule.run commands mounts) g h = unfold Rules.run in simp append-nil
  lists-apply (Rule.git name email editor) g h = unfold Rules.git in simp append-nil
  lists-apply (Rule.copy src dest) g h = unfold Rules.copy in simp append-nil
  lists-apply (Rule.mount src dest) g h = unfold Rules.mount in simp append-nil
  lists-apply (Rule.repo url description) g h = unfold Rules.repo in simp append-nil
  lists-apply (Rule.runtime_commands commands) g h =
      unfold Rules.runtime_commands in simp append-nil
  lists-apply (Rule.runtime_daemon commands) g h = unfold Rules.runtime_daemon in simp append-nil
  lists-apply (Rule.runtime_expose e p name addr) g h =
      unfold Rules.runtime_expose in simp append-nil
  lists-apply (Rule.runtime_environ env path) g h = unfold Rules.runtime_environ in simp append-nil
  lists-apply (Rule.owner uid gid) g h = unfold Rules.owner in simp append-nil
  lists-apply (Rule.http url checksum filename) g h = unfold Rules.http in grind (arith, append-nil)
  lists-apply (Rule.vscode_plugins plugins) g h =
      lists-vscode_plugins plugins g ∙ sym (merge-nothing (lists_of g))
  lists-apply (Rule.python version) g h = unfold Rules.python in grind (arith, append-nil)
  lists-apply (Rule.r_package []) g h = unfold Rules.r_package in grind (arith, append-nil)
  lists-apply (Rule.r_package (d ∷ ds)) g h = unfold Rules.r_package in simp append-nil
  lists-apply (Rule.julia_package []) g h = unfold Rules.julia_package in grind (arith, append-nil)
  lists-apply (Rule.julia_package (d ∷ ds)) g h = unfold Rules.julia_package in simp append-nil
  lists-apply (Rule.pypi_package [] file wheels) g h = unfold Rules.pypi_package in simp append-nil
  lists-apply (Rule.pypi_package (d ∷ ds) file wheels) g h =
      unfold Rules.pypi_package in simp append-nil
  lists-apply (Rule.ubuntu_apt source) g h = unfold Rules.ubuntu_apt in grind (arith, append-nil)
  lists-apply (Rule.pypi_index url extra trust) g h =
      unfold Rules.pypi_index in grind (arith, append-nil)
  lists-apply (Rule.conda_channel channel) g h =
      unfold Rules.conda_channel in grind (arith, append-nil)
  lists-apply (Rule.conda_package deps channel file) g h =
      unfold Rules.conda_package in grind (arith, append-nil)

  -- The outcome of a sequence is a success only if its head's is.
  then_run-done :
      (o : Graph × Outcome) (k : Graph → Graph × Outcome)
      → (then_run o k).1 ≡ done
      → (o.1 ≡ done) × (then_run o k ≡ k o.0)
  then_run-done (g, done) k h = (refl, refl)
  then_run-done (g, failed e) k h = cc
  then_run-done (g, panicked) k h = cc

  -- A build file that runs to its end leaves in each list of the graph what was there, followed by
  -- what its rules add, each by its arguments alone, in the order of the file. The lists are those
  -- of packages, wheels, commands, copies, mounts, the entrypoint, daemons, init scripts, exposed
  -- ports and path entries. No other rule changes them.
  pub run_program-lists :
      (rs : List Rule) (g : Graph)
      → (run_program parse_digest rs g).1 ≡ done
      → lists_of (run_program parse_digest rs g).0 ≡ merge (lists_of g) (adds_all rs)
  unfolding run_program
  run_program-lists [] g h = sym (merge-nothing (lists_of g))
  run_program-lists (r ∷ rs) g h =
      let step = then_run-done (apply parse_digest r g) (run_program parse_digest rs) h in
      let g' = (apply parse_digest r g).0 in
      ap (λ o. lists_of o.0) step.1
      ∙ run_program-lists rs g' (sym (ap (λ o. o.1) step.1) ∙ h)
      ∙ ap (λ l. merge l (adds_all rs)) (lists-apply r g step.0)
      ∙ merge_assoc (lists_of g) (adds r) (adds_all rs)
