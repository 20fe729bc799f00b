-- ===== src/Graph/Program/Panics.antt =====
-- Which sequences of rules cannot panic.
use envd.Base.{Bool, true, String, Option, List, [], ◌∷◌, ◌≡◌, ◌≢◌, refl, sym, ap, arith, All}
use mathlib.Core.Path.{subst}
use envd.Base.Text.{Text}
use envd.Plugin.{parsed, invalid_publisher, out_of_range, parse_plugin}
use envd.Graph.{Graph}
use envd.Graph.Ports.{is_set}
use envd.Graph.Rules
use envd.Graph.Rules.{Outcome, done, failed, panicked}
use envd.Graph.Program.{Rule, apply, then_run, run_program}

-- Whether conda is configured, after a rule.
abbrev pub has_conda : Bool → Rule → Bool
has_conda b (Rule.conda mamba) = true
has_conda b _ = b

-- Conda is configured before conda packages are named, and each plugin text parses or is an error.
abbrev pub IsSafeRule : Bool → Rule → Type 0
IsSafeRule b (Rule.conda_package deps channel file) = b ≡ true
IsSafeRule b (Rule.vscode_plugins ts) = All (λ t. parse_plugin t ≢ out_of_range) ts
IsSafeRule b _ = Unit

abbrev pub IsSafe : Bool → List Rule → Type 0
IsSafe b [] = Unit
IsSafe b (r ∷ rs) = IsSafeRule b r × IsSafe (has_conda b r) rs

plugins-no_panic :
    (ts : List Text) (g : Graph)
    → All (λ t. parse_plugin t ≢ out_of_range) ts
    → (Rules.vscode_plugins ts g).1 ≢ panicked
unfolding Rules.vscode_plugins
plugins-no_panic [] g h = λ e. cc
plugins-no_panic (t ∷ ts) g h =
    (elim (parse_plugin t)
        as (λ r.
          r ≢ out_of_range
          → (elim r as (λ _. Graph × Outcome) [
            | parsed p ↦ Rules.vscode_plugins ts (Rules.append_plugin g p)
            | invalid_publisher ↦ (g, failed Rules.bad_publisher)
            | out_of_range ↦ (g, panicked)
          ]).1
            ≢ panicked) [
              | parsed p ↦ λ _. plugins-no_panic ts (Rules.append_plugin g p) h.1
              | invalid_publisher ↦ λ _ k. cc
              | out_of_range ↦ λ ne. absurd (ne refl)
            ])
      h.0

plugins-conda :
    (ts : List Text) (g : Graph) → (Rules.vscode_plugins ts g).0.conda_config ≡ g.conda_config
unfolding Rules.vscode_plugins
plugins-conda [] g = refl
plugins-conda (t ∷ ts) g =
    elim (parse_plugin t)
      as (λ r.
        (elim r as (λ _. Graph × Outcome) [
          | parsed p ↦ Rules.vscode_plugins ts (Rules.append_plugin g p)
          | invalid_publisher ↦ (g, failed Rules.bad_publisher)
          | out_of_range ↦ (g, panicked)
        ]).0.conda_config
        ≡ g.conda_config) [
          | parsed p ↦ plugins-conda ts (Rules.append_plugin g p)
          | invalid_publisher ↦ refl
          | out_of_range ↦ refl
        ]

module _ (parse_digest : String → Option String) where
  apply-no_panic :
      (r : Rule) (g : Graph)
      → IsSafeRule (is_set g.conda_config) r
      → (apply parse_digest r g).1 ≢ panicked
  unfolding apply
  apply-no_panic (Rule.base image dev) g h = unfold Rules.base in λ k. cc
  apply-no_panic (Rule.r_lang) g h = unfold Rules.r_lang in λ k. cc
  apply-no_panic (Rule.julia) g h = unfold Rules.julia in λ k. cc
  apply-no_panic (Rule.rstudio_server) g h = unfold Rules.rstudio_server in λ k. cc
  apply-no_panic (Rule.system_package deps) g h = unfold Rules.system_package in λ k. cc
  apply-no_panic (Rule.entrypoint args) g h = unfold Rules.entrypoint in λ k. cc
  apply-no_panic (Rule.runtime_init_script commands) g h =
      unfold Rules.runtime_init_script in λ k. cc
  apply-no_panic (Rule.gpu n) g h = unfold Rules.gpu in λ k. cc
  apply-no_panic (Rule.cuda version cudnn) g h = unfold Rules.cuda in λ k. cc
  apply-no_panic (Rule.cran_mirror url) g h = unfold Rules.cran_mirror in λ k. cc
  apply-no_panic (Rule.julia_package_server url) g h = unfold Rules.julia_package_server in λ k. cc
  apply-no_panic (Rule.shell name) g h = unfold Rules.shell in λ k. cc
  apply-no_panic (Rule.jupyter pwd port) g h = unfold Rules.jupyter in λ k. cc
  apply-no_panic (Rule.run commands mounts) g h = unfold Rules.run in λ k. cc
  apply-no_panic (Rule.git name email editor) g h = unfold Rules.git in λ k. cc
  apply-no_panic (Rule.copy src dest) g h = unfold Rules.copy in λ k. cc
  apply-no_panic (Rule.mount src dest) g h = unfold Rules.mount in λ k. cc
  apply-no_panic (Rule.repo url description) g h = unfold Rules.repo in λ k. cc
  apply-no_panic (Rule.runtime_commands commands) g h = unfold Rules.runtime_commands in λ k. cc
  apply-no_panic (Rule.runtime_daemon commands) g h = unfold Rules.runtime_daemon in λ k. cc
  apply-no_panic (Rule.runtime_expose e p name addr) g h = unfold Rules.runtime_expose in λ k. cc
  apply-no_panic (Rule.runtime_environ env path) g h = unfold Rules.runtime_environ in λ k. cc
  apply-no_panic (Rule.owner uid gid) g h = unfold Rules.owner in λ k. cc
  apply-no_panic (Rule.pypi_package deps file wheels) g h = unfold Rules.pypi_package in λ k. cc
  apply-no_panic (Rule.conda mamba) g h = unfold Rules.conda in λ k. cc
  apply-no_panic (Rule.python version) g h = unfold Rules.python in λ k. grind arith
  apply-no_panic (Rule.r_package deps) g h = unfold Rules.r_package in λ k. grind arith
  apply-no_panic (Rule.julia_package deps) g h = unfold Rules.julia_package in λ k. grind arith
  apply-no_panic (Rule.ubuntu_apt source) g h = unfold Rules.ubuntu_apt in λ k. grind arith
  apply-no_panic (Rule.pypi_index url extra trust) g h = unfold Rules.pypi_index in λ k. grind arith
  apply-no_panic (Rule.conda_channel channel) g h = unfold Rules.conda_channel in λ k. grind arith
  apply-no_panic (Rule.http url checksum filename) g h = unfold Rules.http in λ k. grind arith
  apply-no_panic (Rule.conda_package deps channel file) g h =
      unfold Rules.conda_package in λ k. grind arith
  apply-no_panic (Rule.vscode_plugins ts) g h = plugins-no_panic ts g h

  apply-conda :
      (r : Rule) (g : Graph)
      → is_set (apply parse_digest r g).0.conda_config ≡ has_conda (is_set g.conda_config) r
  unfolding apply
  apply-conda (Rule.base image dev) g = unfold Rules.base in refl
  apply-conda (Rule.r_lang) g = unfold Rules.r_lang in refl
  apply-conda (Rule.julia) g = unfold Rules.julia in refl
  apply-conda (Rule.rstudio_server) g = unfold Rules.rstudio_server in refl
  apply-conda (Rule.system_package deps) g = unfold Rules.system_package in refl
  apply-conda (Rule.entrypoint args) g = unfold Rules.entrypoint in refl
  apply-conda (Rule.runtime_init_script commands) g = unfold Rules.runtime_init_script in refl
  apply-conda (Rule.gpu n) g = unfold Rules.gpu in refl
  apply-conda (Rule.cuda version cudnn) g = unfold Rules.cuda in refl
  apply-conda (Rule.cran_mirror url) g = unfold Rules.cran_mirror in refl
  apply-conda (Rule.julia_package_server url) g = unfold Rules.julia_package_server in refl
  apply-conda (Rule.shell name) g = unfold Rules.shell in refl
  apply-conda (Rule.jupyter pwd port) g = unfold Rules.jupyter in refl
  apply-conda (Rule.run commands mounts) g = unfold Rules.run in refl
  apply-conda (Rule.git name email editor) g = unfold Rules.git in refl
  apply-conda (Rule.copy src dest) g = unfold Rules.copy in refl
  apply-conda (Rule.mount src dest) g = unfold Rules.mount in refl
  apply-conda (Rule.repo url description) g = unfold Rules.repo in refl
  apply-conda (Rule.runtime_commands commands) g = unfold Rules.runtime_commands in refl
  apply-conda (Rule.runtime_daemon commands) g = unfold Rules.runtime_daemon in refl
  apply-conda (Rule.runtime_expose e p name addr) g = unfold Rules.runtime_expose in refl
  apply-conda (Rule.runtime_environ env path) g = unfold Rules.runtime_environ in refl
  apply-conda (Rule.owner uid gid) g = unfold Rules.owner in refl
  apply-conda (Rule.pypi_package deps file wheels) g = unfold Rules.pypi_package in refl
  apply-conda (Rule.conda mamba) g = unfold Rules.conda in refl
  apply-conda (Rule.python version) g = unfold Rules.python in grind arith
  apply-conda (Rule.r_package deps) g = unfold Rules.r_package in grind arith
  apply-conda (Rule.julia_package deps) g = unfold Rules.julia_package in grind arith
  apply-conda (Rule.ubuntu_apt source) g = unfold Rules.ubuntu_apt in grind arith
  apply-conda (Rule.pypi_index url extra trust) g = unfold Rules.pypi_index in grind arith
  apply-conda (Rule.conda_channel channel) g = unfold Rules.conda_channel in grind arith
  apply-conda (Rule.http url checksum filename) g = unfold Rules.http in grind arith
  apply-conda (Rule.conda_package deps channel file) g = unfold Rules.conda_package in grind arith
  apply-conda (Rule.vscode_plugins ts) g = ap is_set (plugins-conda ts g)

  then_run-no_panic :
      (o : Graph × Outcome) (k : Graph → Graph × Outcome)
      → o.1 ≢ panicked
      → (k o.0).1 ≢ panicked
      → (then_run o k).1 ≢ panicked
  then_run-no_panic (g, done) k h n = n
  then_run-no_panic (g, failed e) k h n = λ z. cc
  then_run-no_panic (g, panicked) k h n = absurd (h refl)

  -- A sequence of rules, which are calls of the functions of interface.go up to the first error, does
  -- not panic, from any graph, if conda is configured before conda packages are named, in the graph or
  -- by an earlier rule, and no plugin text makes `ParsePlugin` panic. This is of the rules alone: a
  -- function of the build language may panic before it calls its rule, as `runtime.command()` does.
  pub run_program-no_panic :
      (rs : List Rule) (g : Graph)
      → IsSafe (is_set g.conda_config) rs
      → (run_program parse_digest rs g).1 ≢ panicked
  unfolding run_program
  run_program-no_panic [] g h = λ e. cc
  run_program-no_panic (r ∷ rs) g h =
      then_run-no_panic (apply parse_digest r g) (run_program parse_digest rs)
        (apply-no_panic r g h.0)
        (run_program-no_panic rs (apply parse_digest r g).0
          (subst (λ b. IsSafe b rs) (sym (apply-conda r g)) h.1))
