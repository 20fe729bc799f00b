-- ===== src/Graph/Program/Owned.antt =====
-- The owner that a build file sets, under the rules behind it.
use envd.Base.{String, Option, List, [], ◌∷◌, ◌≡◌, refl, ◌∙◌, arith, All}
use envd.Base.Text.{Text}
use envd.Base.Strings.Decimal.{ℤ}
use envd.Plugin.{parsed, invalid_publisher, out_of_range, parse_plugin}
use envd.Graph.{Graph}
use envd.Graph.Rules
use envd.Graph.Rules.{Outcome, done, failed, panicked}
use envd.Graph.Program.{Rule, apply, then_run, run_program}

abbrev pub ids : Graph → ℤ × ℤ
ids g = (g.uid, g.gid)

-- A rule that sets no owner.
abbrev pub IsOther : Rule → Type 0
IsOther (Rule.owner uid gid) = ⊥
IsOther _ = Unit

plugins-ids : (ts : List Text) (g : Graph) → ids (Rules.vscode_plugins ts g).0 ≡ ids g
unfolding Rules.vscode_plugins
plugins-ids [] g = refl
plugins-ids (t ∷ ts) g =
    elim (parse_plugin t)
      as (λ r.
        ids
          (elim r as (λ _. Graph × Outcome) [
            | parsed p ↦ Rules.vscode_plugins ts (Rules.append_plugin g p)
            | invalid_publisher ↦ (g, failed Rules.bad_publisher)
            | out_of_range ↦ (g, panicked)
          ]).0
        ≡ ids g) [
          | parsed p ↦ plugins-ids ts (Rules.append_plugin g p)
          | invalid_publisher ↦ refl
          | out_of_range ↦ refl
        ]

module _ (parse_digest : String → Option String) where
  apply-ids : (r : Rule) (g : Graph) → IsOther r → ids (apply parse_digest r g).0 ≡ ids g
  unfolding apply
  apply-ids (Rule.base image dev) g h = unfold Rules.base in refl
  apply-ids (Rule.r_lang) g h = unfold Rules.r_lang in refl
  apply-ids (Rule.julia) g h = unfold Rules.julia in refl
  apply-ids (Rule.rstudio_server) g h = unfold Rules.rstudio_server in refl
  apply-ids (Rule.system_package deps) g h = unfold Rules.system_package in refl
  apply-ids (Rule.entrypoint args) g h = unfold Rules.entrypoint in refl
  apply-ids (Rule.runtime_init_script commands) g h = unfold Rules.runtime_init_script in refl
  apply-ids (Rule.gpu n) g h = unfold Rules.gpu in refl
  apply-ids (Rule.cuda version cudnn) g h = unfold Rules.cuda in refl
  apply-ids (Rule.cran_mirror url) g h = unfold Rules.cran_mirror in refl
  apply-ids (Rule.julia_package_server url) g h = unfold Rules.julia_package_server in refl
  apply-ids (Rule.shell name) g h = unfold Rules.shell in refl
  apply-ids (Rule.jupyter pwd port) g h = unfold Rules.jupyter in refl
  apply-ids (Rule.run commands mounts) g h = unfold Rules.run in refl
  apply-ids (Rule.git name email editor) g h = unfold Rules.git in refl
  apply-ids (Rule.copy src dest) g h = unfold Rules.copy in refl
  apply-ids (Rule.mount src dest) g h = unfold Rules.mount in refl
  apply-ids (Rule.repo url description) g h = unfold Rules.repo in refl
  apply-ids (Rule.runtime_commands commands) g h = unfold Rules.runtime_commands in refl
  apply-ids (Rule.runtime_daemon commands) g h = unfold Rules.runtime_daemon in refl
  apply-ids (Rule.runtime_expose e p name addr) g h = unfold Rules.runtime_expose in refl
  apply-ids (Rule.runtime_environ env path) g h = unfold Rules.runtime_environ in refl
  apply-ids (Rule.owner uid gid) g h = absurd h
  apply-ids (Rule.pypi_package deps file wheels) g h = unfold Rules.pypi_package in refl
  apply-ids (Rule.conda mamba) g h = unfold Rules.conda in refl
  apply-ids (Rule.python version) g h = unfold Rules.python in grind arith
  apply-ids (Rule.r_package deps) g h = unfold Rules.r_package in grind arith
  apply-ids (Rule.julia_package deps) g h = unfold Rules.julia_package in grind arith
  apply-ids (Rule.ubuntu_apt source) g h = unfold Rules.ubuntu_apt in grind arith
  apply-ids (Rule.pypi_index url extra trust) g h = unfold Rules.pypi_index in grind arith
  apply-ids (Rule.conda_channel channel) g h = unfold Rules.conda_channel in grind arith
  apply-ids (Rule.http url checksum filename) g h = unfold Rules.http in grind arith
  apply-ids (Rule.conda_package deps channel file) g h = unfold Rules.conda_package in grind arith
  apply-ids (Rule.vscode_plugins ts) g h = plugins-ids ts g

  then_run-ids :
      (o : Graph × Outcome) (k : Graph → Graph × Outcome)
      → ids (k o.0).0 ≡ ids o.0
      → ids (then_run o k).0 ≡ ids o.0
  then_run-ids (g, done) k h = h
  then_run-ids (g, failed e) k h = refl
  then_run-ids (g, panicked) k h = refl

  pub run_program-ids :
      (rs : List Rule) (g : Graph) → All IsOther rs → ids (run_program parse_digest rs g).0 ≡ ids g
  unfolding run_program
  run_program-ids [] g h = refl
  run_program-ids (r ∷ rs) g h =
      then_run-ids (apply parse_digest r g) (run_program parse_digest rs)
        (run_program-ids rs (apply parse_digest r g).0 h.1)
      ∙ apply-ids r g h.0
