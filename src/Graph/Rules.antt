-- ===== src/Graph/Rules.antt =====
-- pkg/lang/ir/v1/interface.go: what each rule of the build language does to the graph.
use text.Mathlib.Text.{starts_with}
use envd.Base.{
  Bool, true, false, String, Option, none, some, List, [], ◌∷◌, ◌++◌, if◌then◌else◌, str_eq,
}
use envd.Base.Dict.{Dict, put_all}
use envd.Base.Text.{Text}
use envd.Base.Strings.Decimal.{ℤ}
use envd.Plugin.{Plugin, parsed, invalid_publisher, out_of_range, parse_plugin}
use envd.Graph.{CondaConfig, Graph}

pub data Error : Type 0 where
  python_not_supported empty_r_package empty_julia_package : Error
  source_required url_required conda_not_installed bad_publisher bad_digest : Error

-- How a rule ends. A panic is Go's, at a nil pointer or an index out of range.
pub data Outcome : Type 0 where
  done : Outcome
  failed : Error → Outcome
  panicked : Outcome

abbrev pub is_empty {ℓ} : {A : Type ℓ} → List A → Bool
is_empty [] = true
is_empty (_ ∷ _) = false

-- `if s != "" { field = &s }`
abbrev pub set_if : String → Option String → Option String
set_if s old = if str_eq s "" then old else some s

unfoldable pub base : String → Bool → Graph → Graph × Outcome
base image dev g =
    (record g { image = if str_eq image "" then g.image else image; dev = dev }, done)

unfoldable pub python : String → Graph → Graph × Outcome
python version g =
    if starts_with version "2"
    then (g, failed python_not_supported)
    else (record g { language = record { name = "python"; version = some version } }, done)

unfoldable pub conda : Bool → Graph → Graph × Outcome
conda mamba g = (
  record g {
    conda_config = some (record {
      conda_packages = [];
      additional_channels = [];
      conda_channel = none;
      conda_env_file_name = "";
      use_micro_mamba = mamba;
    });
  },
  done,
)

unfoldable pub r_lang : Graph → Graph × Outcome
r_lang g = (record g { language = record { name = "r"; version = none } }, done)

unfoldable pub julia : Graph → Graph × Outcome
julia g = (record g { language = record { name = "julia"; version = none } }, done)

unfoldable pub pypi_package : List String → String → List String → Graph → Graph × Outcome
pypi_package deps requirements_file wheels g = (
  record g {
    pypi_packages = if is_empty deps then g.pypi_packages else g.pypi_packages ++ (deps ∷ []);
    python_wheels = g.python_wheels ++ wheels;
    requirements_file = set_if requirements_file g.requirements_file;
  },
  done,
)

unfoldable pub r_package : List String → Graph → Graph × Outcome
r_package deps g =
    if is_empty deps
    then (g, failed empty_r_package)
    else (record g { r_packages = g.r_packages ++ (deps ∷ []) }, done)

unfoldable pub julia_package : List String → Graph → Graph × Outcome
julia_package deps g =
    if is_empty deps
    then (g, failed empty_julia_package)
    else (record g { julia_packages = g.julia_packages ++ (deps ∷ []) }, done)

unfoldable pub system_package : List String → Graph → Graph × Outcome
system_package deps g = (record g { system_packages = g.system_packages ++ deps }, done)

unfoldable pub gpu : ℤ → Graph → Graph × Outcome
gpu num_gpus g = (record g { num_gpus = num_gpus }, done)

unfoldable pub cuda : String → String → Graph → Graph × Outcome
cuda version cudnn g =
    (record g { cuda = some version; cudnn = if str_eq cudnn "" then g.cudnn else cudnn }, done)

abbrev pub append_plugin : Graph → Plugin → Graph
append_plugin g p = record g { vscode_plugins = g.vscode_plugins ++ (p ∷ []) }

-- The plugins before one that does not parse stay in the graph.
unfoldable pub vscode_plugins : List Text → Graph → Graph × Outcome
vscode_plugins [] g = (g, done)
vscode_plugins (t ∷ ts) g = elim (parse_plugin t) [
  | parsed p ↦ vscode_plugins ts (append_plugin g p)
  | invalid_publisher ↦ (g, failed bad_publisher)
  | out_of_range ↦ (g, panicked)
]

unfoldable pub ubuntu_apt : String → Graph → Graph × Outcome
ubuntu_apt source g =
    if str_eq source ""
    then (g, failed source_required)
    else (record g { ubuntu_apt_source = some source }, done)

unfoldable pub pypi_index : String → String → Bool → Graph → Graph × Outcome
pypi_index url extra_url trust g = if str_eq url "" then (g, failed url_required) else (
  record g {
    pypi_index_url = some url;
    pypi_extra_index_url = set_if extra_url g.pypi_extra_index_url;
    pypi_trust = trust;
  },
  done,
)

unfoldable pub cran_mirror : String → Graph → Graph × Outcome
cran_mirror url g = (record g { cran_mirror_url = some url }, done)

unfoldable pub julia_package_server : String → Graph → Graph × Outcome
julia_package_server url g = (record g { julia_package_server = some url }, done)

unfoldable pub shell : String → Graph → Graph × Outcome
shell name g = (record g { shell = name }, done)

unfoldable pub jupyter : String → ℤ → Graph → Graph × Outcome
jupyter pwd port g =
    (record g { jupyter_config = some (record { token = pwd; port = port }) }, done)

unfoldable pub rstudio_server : Graph → Graph × Outcome
rstudio_server g = (record g { rstudio_server_config = true }, done)

unfoldable pub run : List String → Bool → Graph → Graph × Outcome
run commands mount g =
    (record g { exec = g.exec ++ (record { commands = commands; mount_host = mount } ∷ []) }, done)

unfoldable pub git : String → String → String → Graph → Graph × Outcome
git name email editor g =
    (record g { git_config = some (record { name = name; email = email; editor = editor }) }, done)

abbrev with_conda : Graph → CondaConfig → Graph
with_conda g c = record g { conda_config = some c }

unfoldable pub conda_channel : String → Graph → Graph × Outcome
conda_channel channel g = elim g.conda_config [
  | none ↦ (g, failed conda_not_installed)
  | some c ↦ (with_conda g (record c { conda_channel = some channel }), done)
]

-- Unlike `CondaChannel`, this one has no test for nil.
unfoldable pub conda_package : List String → List String → String → Graph → Graph × Outcome
conda_package deps channel env_file g = elim g.conda_config [
  | none ↦ (g, panicked)
  | some c ↦ (
    with_conda g (record c {
      conda_packages = c.conda_packages ++ deps;
      conda_env_file_name = env_file;
      additional_channels = c.additional_channels ++ channel;
    }),
    done,
  )
]

unfoldable pub copy : String → String → Graph → Graph × Outcome
copy src dest g =
    (record g { copy = g.copy ++ (record { source = src; destination = dest } ∷ []) }, done)

unfoldable pub mount : String → String → Graph → Graph × Outcome
mount src dest g =
    (record g { mount = g.mount ++ (record { source = src; destination = dest } ∷ []) }, done)

abbrev append_http : String → String → String → Graph → Graph
append_http url checksum filename g = record g {
  http = g.http ++ (record { url = url; checksum = checksum; filename = filename } ∷ []);
}

-- `parse_digest` is `digest.Parse`, of another package: the digest, or `none` for its error.
unfoldable pub http : (String → Option String) → String → String → String → Graph → Graph × Outcome
http parse_digest url checksum filename g =
    if str_eq checksum ""
    then (append_http url "" filename g, done)
    else elim (parse_digest checksum) [
      | none ↦ (g, failed bad_digest)
      | some d ↦ (append_http url d filename g, done)
    ]

unfoldable pub entrypoint : List String → Graph → Graph × Outcome
entrypoint args g = (record g { entrypoint = g.entrypoint ++ args }, done)

unfoldable pub runtime_commands : Dict String → Graph → Graph × Outcome
runtime_commands commands g = (
  record g {
    runtime = record g.runtime { runtime_commands = put_all g.runtime.runtime_commands commands };
  },
  done,
)

unfoldable pub runtime_daemon : List (List String) → Graph → Graph × Outcome
runtime_daemon commands g = (
  record g { runtime = record g.runtime { runtime_daemon = g.runtime.runtime_daemon ++ commands } },
  done,
)

unfoldable pub runtime_expose : ℤ → ℤ → String → String → Graph → Graph × Outcome
runtime_expose envd_port host_port service_name listening_addr g = (
  record g {
    runtime = record g.runtime {
      runtime_expose =
          g.runtime.runtime_expose
          ++ (record {
            envd_port = envd_port;
            host_port = host_port;
            service_name = service_name;
            listening_addr = listening_addr;
          }
              ∷ []);
    };
  },
  done,
)

unfoldable pub runtime_environ : Dict String → List String → Graph → Graph × Outcome
runtime_environ env path g = (
  record g {
    runtime = record g.runtime {
      runtime_environ = put_all g.runtime.runtime_environ env;
      runtime_env_paths = g.runtime.runtime_env_paths ++ path;
    };
  },
  done,
)

unfoldable pub runtime_init_script : List String → Graph → Graph × Outcome
runtime_init_script commands g = (
  record g {
    runtime = record g.runtime {
      runtime_init_script = g.runtime.runtime_init_script ++ (commands ∷ []);
    };
  },
  done,
)

unfoldable pub repo : String → String → Graph → Graph × Outcome
repo url description g = (record g { repo = record { url = url; description = description } }, done)

unfoldable pub owner : ℤ → ℤ → Graph → Graph × Outcome
owner uid gid g = (record g { uid = uid; gid = gid }, done)
