-- ===== src/Graph/Program.antt =====
-- A build file as a sequence of rules: the interpreter calls the functions of
-- pkg/lang/ir/v1/interface.go in order and stops at the first error.
pub mod Collects
pub mod Panics
pub mod Owned
use envd.Base.{Bool, String, Option, List, [], ◌∷◌}
use envd.Base.Dict.{Dict}
use envd.Base.Text.{Text}
use envd.Base.Strings.Decimal.{ℤ}
use envd.Graph.{Graph}
use envd.Graph.Rules
use envd.Graph.Rules.{Error, Outcome, done, failed, panicked}

pub data Rule : Type 0 where
  base : String → Bool → Rule
  python : String → Rule
  conda : Bool → Rule
  r_lang julia rstudio_server : Rule
  pypi_package : List String → String → List String → Rule
  r_package julia_package system_package entrypoint runtime_init_script : List String → Rule
  gpu : ℤ → Rule
  cuda : String → String → Rule
  vscode_plugins : List Text → Rule
  ubuntu_apt cran_mirror julia_package_server shell conda_channel : String → Rule
  pypi_index : String → String → Bool → Rule
  jupyter : String → ℤ → Rule
  run : List String → Bool → Rule
  git : String → String → String → Rule
  conda_package : List String → List String → String → Rule
  copy mount repo : String → String → Rule
  http : String → String → String → Rule
  runtime_commands : Dict String → Rule
  runtime_daemon : List (List String) → Rule
  runtime_expose : ℤ → ℤ → String → String → Rule
  runtime_environ : Dict String → List String → Rule
  owner : ℤ → ℤ → Rule

abbrev pub then_run : Graph × Outcome → (Graph → Graph × Outcome) → Graph × Outcome
then_run (g, done) k = k g
then_run (g, failed e) k = (g, failed e)
then_run (g, panicked) k = (g, panicked)

module _ (parse_digest : String → Option String) where
  unfoldable pub apply : Rule → Graph → Graph × Outcome
  apply (base image dev) = Rules.base image dev
  apply (python version) = Rules.python version
  apply (conda mamba) = Rules.conda mamba
  apply r_lang = Rules.r_lang
  apply julia = Rules.julia
  apply rstudio_server = Rules.rstudio_server
  apply (pypi_package deps file wheels) = Rules.pypi_package deps file wheels
  apply (r_package deps) = Rules.r_package deps
  apply (julia_package deps) = Rules.julia_package deps
  apply (system_package deps) = Rules.system_package deps
  apply (entrypoint args) = Rules.entrypoint args
  apply (runtime_init_script commands) = Rules.runtime_init_script commands
  apply (gpu n) = Rules.gpu n
  apply (cuda version cudnn) = Rules.cuda version cudnn
  apply (vscode_plugins plugins) = Rules.vscode_plugins plugins
  apply (ubuntu_apt source) = Rules.ubuntu_apt source
  apply (cran_mirror url) = Rules.cran_mirror url
  apply (julia_package_server url) = Rules.julia_package_server url
  apply (shell name) = Rules.shell name
  apply (conda_channel channel) = Rules.conda_channel channel
  apply (pypi_index url extra trust) = Rules.pypi_index url extra trust
  apply (jupyter pwd port) = Rules.jupyter pwd port
  apply (run commands mounts) = Rules.run commands mounts
  apply (git name email editor) = Rules.git name email editor
  apply (conda_package deps channel file) = Rules.conda_package deps channel file
  apply (copy src dest) = Rules.copy src dest
  apply (mount src dest) = Rules.mount src dest
  apply (repo url description) = Rules.repo url description
  apply (http url checksum filename) = Rules.http parse_digest url checksum filename
  apply (runtime_commands commands) = Rules.runtime_commands commands
  apply (runtime_daemon commands) = Rules.runtime_daemon commands
  apply (runtime_expose e h name addr) = Rules.runtime_expose e h name addr
  apply (runtime_environ env path) = Rules.runtime_environ env path
  apply (owner uid gid) = Rules.owner uid gid

  unfoldable pub run_program : List Rule → Graph → Graph × Outcome
  run_program [] g = (g, done)
  run_program (r ∷ rs) g = then_run (apply r g) (run_program rs)
