-- ===== src/Frontend/Sound/Calls.antt =====
-- Each builtin of the build language applies one rule at most, and checks its arguments.
use envd.Base.{
  true, ◌≡◌, Bool, Bool-cases, inl, inr, arith, ◌&&◌, some, none, Option, if◌then◌else◌,
}
use envd.Base.{refl}
use envd.Base.Strings.Decimal.{ℤ, pos, negsuc}
use envd.Graph.Rules
use envd.Graph.Program
use envd.Graph.Program.{apply}
use envd.Frontend.{
  Host, Args, returned, none_value, got, Values, FrontError, require, ir, return, is_int64,
  is_between, int_or, stored, Within16, list_or_nil,
}
use envd.Frontend.Builtins.{Builtin, call}
use envd.Frontend.Install
use envd.Frontend.Config
use envd.Frontend.Runtime
use envd.Frontend.Universe
use envd.Frontend.Sound.{IsPort, Does, refuses, applies, Does-bind, Does-ir}

require-got : (b : Bool) (e : FrontError) (a : Unit {0}) → require b e ≡ got a → b ≡ true
require-got b e a h = ground arith

is_between-Within16 : (z : ℤ) → is_between 0 z ≡ true → Within16 z
is_between-Within16 (pos n) h = ground arith
is_between-Within16 (negsuc n) h = cc

is_between-IsPort : (z : ℤ) → is_between 1 z ≡ true → IsPort z
is_between-IsPort (pos n) h = ground arith
is_between-IsPort (negsuc n) h = absurd (cc)

both : (a b : Bool) → (a && b) ≡ true → (a ≡ true) × (b ≡ true)
both a b h = ground arith

module _ (h : Host) where
  gpu_of-Does : (n : ℤ) → Does h (if is_int64 n then ir (Rules.gpu n) else return none_value)
  unfolding apply
  gpu_of-Does n = elim (Bool-cases (is_int64 n)) [
    | inl e ↦ applies (Program.gpu n) e (λ g. rw e)
    | inr e ↦ refuses (returned none_value) (λ g. rw e)
  ]

  gpu-Does : (args : Args) → Does h (Config.rule_func_gpu h args)
  unfolding Config.rule_func_gpu apply
  gpu-Does args = Does-bind h _ λ vs _. gpu_of-Does (int_or (pos 0) (stored 0 vs))

  daemon_of-Does : (vs : Option Values) → Does h (Runtime.daemon_of h vs)
  unfolding apply
  daemon_of-Does none = refuses (returned none_value) (λ g. refl)
  daemon_of-Does (some vs) =
      Does-bind h _ λ commands _. Does-ir h (Program.runtime_daemon commands) tt

  expose-Does : (args : Args) → Does h (Runtime.rule_func_expose h args)
  unfolding Runtime.rule_func_expose apply
  expose-Does args = Does-bind h _ λ vs _. Does-bind h _ λ a e. Does-bind h _ λ b f.
      Does-bind h _ λ c i. Does-ir h (Program.runtime_expose _ _ _ _) (
        is_between-IsPort _ (require-got _ _ a e),
        is_between-Within16 _ (require-got _ _ b f),
        require-got _ _ c i,
      )

  owner-Does : (args : Args) → Does h (Config.rule_func_owner h args)
  unfolding Config.rule_func_owner apply
  owner-Does args = Does-bind h _ λ vs _. Does-bind h _ λ a e.
      let (u, v) = both _ _ (require-got _ _ a e) in
      Does-ir h (Program.owner _ _) (is_between-Within16 _ u, is_between-Within16 _ v)

  -- Whatever starlark unpacks from the arguments, a call of a builtin leaves the graph as it is, or
  -- does to it what one rule does, and the arguments of this rule are checked.
  pub call-Does : (b : Builtin) (args : Args) → Does h (call h b args)
  unfolding call apply Install.rule_func_python Install.rule_func_conda
      Install.rule_func_system_package Install.rule_func_pypi_package Install.rule_func_r_package
      Install.rule_func_julia_package Install.rule_func_cuda Install.rule_func_vscode
      Config.rule_func_ubuntu_apt_source Config.rule_func_cran_mirror Config.rule_func_pypi_index
      Config.rule_func_conda_channel Config.rule_func_julia_package_server
      Config.rule_func_entrypoint Config.rule_func_repo Runtime.rule_func_command
      Runtime.rule_func_environ Runtime.rule_func_mount Runtime.rule_func_init_script
      Universe.rule_func_base Universe.rule_func_shell Universe.rule_func_run
      Universe.rule_func_git_config Universe.rule_func_copy Universe.rule_func_http
      Config.rule_func_jupyter Install.rule_func_conda_package Install.rule_func_r_lang
      Install.rule_func_julia Config.rule_func_rstudio_server Runtime.rule_func_daemon
      Runtime.rule_value_envd_managed_data_source
  call-Does Builtin.install_python args = Does-bind h _ λ vs _. Does-ir h (Program.python _) tt
  call-Does Builtin.install_conda args = Does-bind h _ λ vs _. Does-ir h (Program.conda _) tt
  call-Does Builtin.install_apt_packages args =
      Does-bind h _ λ vs _. Does-bind h _ λ a _. Does-ir h (Program.system_package _) tt
  call-Does Builtin.install_python_packages args =
      Does-bind h _
        λ vs _. Does-bind h _ λ a _. Does-bind h _ λ b _. Does-ir h (Program.pypi_package _ _ _) tt
  call-Does Builtin.install_r_packages args =
      Does-bind h _ λ vs _. Does-bind h _ λ a _. Does-ir h (Program.r_package _) tt
  call-Does Builtin.install_julia_packages args =
      Does-bind h _ λ vs _. Does-bind h _ λ a _. Does-ir h (Program.julia_package _) tt
  call-Does Builtin.install_cuda args = Does-bind h _ λ vs _. Does-ir h (Program.cuda _ _) tt
  call-Does Builtin.install_vscode_extensions args =
      Does-bind h _ λ vs _. Does-bind h _ λ a _. Does-ir h (Program.vscode_plugins _) tt
  call-Does Builtin.config_apt_source args =
      Does-bind h _ λ vs _. Does-ir h (Program.ubuntu_apt _) tt
  call-Does Builtin.config_cran_mirror args =
      Does-bind h _ λ vs _. Does-ir h (Program.cran_mirror _) tt
  call-Does Builtin.config_pip_index args =
      Does-bind h _ λ vs _. Does-ir h (Program.pypi_index _ _ _) tt
  call-Does Builtin.config_conda_channel args =
      Does-bind h _ λ vs _. Does-ir h (Program.conda_channel _) tt
  call-Does Builtin.config_julia_pkg_server args =
      Does-bind h _ λ vs _. Does-ir h (Program.julia_package_server _) tt
  call-Does Builtin.config_entrypoint args =
      Does-bind h _ λ vs _. Does-bind h _ λ a _. Does-ir h (Program.entrypoint _) tt
  call-Does Builtin.config_repo args = Does-bind h _ λ vs _. Does-ir h (Program.repo _ _) tt
  call-Does Builtin.runtime_command args =
      Does-bind h _ λ vs _. Does-bind h _ λ a _. Does-ir h (Program.runtime_commands _) tt
  call-Does Builtin.runtime_environ args =
      Does-bind h _
        λ vs _. Does-bind h _ λ a _. Does-bind h _ λ b _. Does-ir h (Program.runtime_environ _ _) tt
  call-Does Builtin.runtime_mount args =
      Does-bind h _
        λ vs _. Does-bind h _ λ a _. Does-bind h _ λ b _. Does-ir h (Program.mount _ _) tt
  call-Does Builtin.runtime_init args =
      Does-bind h _ λ vs _. Does-bind h _ λ a _. Does-ir h (Program.runtime_init_script _) tt
  call-Does Builtin.base args = Does-bind h _ λ vs _. Does-ir h (Program.base _ _) tt
  call-Does Builtin.shell args = Does-bind h _ λ vs _. Does-ir h (Program.shell _) tt
  call-Does Builtin.run args =
      Does-bind h _ λ vs _. Does-bind h _ λ a _. Does-ir h (Program.run _ _) tt
  call-Does Builtin.git_config args = Does-bind h _ λ vs _. Does-ir h (Program.git _ _ _) tt
  call-Does Builtin.io_copy args = Does-bind h _ λ vs _. Does-ir h (Program.copy _ _) tt
  call-Does Builtin.io_http args = Does-bind h _ λ vs _. Does-ir h (Program.http _ _ _) tt
  call-Does Builtin.install_r_lang args = Does-ir h Program.r_lang tt
  call-Does Builtin.install_julia args = Does-ir h Program.julia tt
  call-Does Builtin.config_rstudio_server args = Does-ir h Program.rstudio_server tt
  call-Does Builtin.config_gpu args = gpu-Does args
  call-Does Builtin.config_owner args = owner-Does args
  call-Does Builtin.runtime_expose args = expose-Does args
  call-Does Builtin.runtime_daemon args =
      Does-bind h _ λ vs _. daemon_of-Does (list_or_nil (stored 0 vs))
  call-Does Builtin.config_jupyter args =
      Does-bind h _
        λ vs _. Does-bind h _ λ a e. Does-ir h (Program.jupyter _ _) (require-got _ _ a e)
  call-Does Builtin.install_conda_packages args = Does-bind h _ λ vs _. Does-bind h _ λ names _.
      Does-bind h _ λ channels _.
        Does-bind h _
          λ a e. Does-ir h (Program.conda_package names channels _) (require-got _ _ a e)
  call-Does Builtin.data_envd args = Does-bind h _ λ vs _. refuses (returned _) (λ g. refl)
