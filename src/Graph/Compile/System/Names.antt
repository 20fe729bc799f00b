-- ===== src/Graph/Compile/System/Names.antt =====
-- The constants and the small helpers of system.go, cache.go, fs.go and util.go of pkg/lang/ir/v1.
use Prim.Native.String.{◌++◌}
use envd.Base.{
  String, Bool, true, false, Option, none, some, List, [], ◌∷◌, if◌then◌else◌, str_eq, snoc,
}
use envd.Base.Dict.{Dict, put}
use envd.Base.Native.{cat, cut_string}
use envd.FilePath.{envd_home_dir}
use envd.Graph.{Graph}
use envd.Graph.Compile.{Owner, owned, World}

-- `WithUIDGID(g.uid, g.gid)`
abbrev pub owner_of : Graph → Owner
owner_of g = owned g.uid g.gid

abbrev pub with_environ : Dict String → Graph → Graph
with_environ d g = record g { runtime = record g.runtime { runtime_environ = d } }

-- `len(xs) == 0`
abbrev pub is_empty {ℓ} : {A : Type ℓ} → List A → Bool
is_empty [] = true
is_empty (x ∷ xs) = false

-- `g.RuntimeEnviron[key] = value`
abbrev pub set_environ : String → String → Graph → Graph
set_environ key value g = with_environ (put g.runtime.runtime_environ key value) g

abbrev pub add_path : String → Graph → Graph
add_path path g = record g {
  runtime = record g.runtime { runtime_env_paths = snoc g.runtime.runtime_env_paths path };
}

abbrev pub add_user_directory : String → Graph → Graph
add_user_directory path g = record g { user_directories = snoc g.user_directories path }

unfoldable pub cache_id : String → Graph → String
cache_id filename g =
    cat
      (filename ∷ "/" ∷ g.environment_name ∷ (elim g.cuda [ none ↦ "-cpu" | some _ ↦ "-gpu" ]) ∷ [])

abbrev pub working_dir : Graph → String
working_dir g = envd_home_dir (g.environment_name ∷ [])

abbrev pub extra_source_dir : String
extra_source_dir = envd_home_dir ("extra_source" ∷ [])

-- The flags that name the local directories.
abbrev pub build_context : String
build_context = "build-context"

abbrev pub cache_dir_flag : String
cache_dir_flag = "cache-dir"

abbrev pub conda_path : String
conda_path = "/opt/conda/envs/envd/bin:/opt/conda/bin:/home/envd/.local/bin"

-- `strings.Replace(s, ":", "", 1)`
abbrev pub without_colon : String → Option (String × String) → String
without_colon s none = s
without_colon s (some (a, z)) = a ++ z

unfoldable pub cuda_image : String → String → String → Bool → String
cuda_image image cuda cudnn dev = cat (
    "docker.io/nvidia/cuda:"
    ∷ cuda
    ∷ "-cudnn"
    ∷ cudnn
    ∷ "-"
    ∷ (if dev then "devel" else "runtime")
    ∷ "-"
    ∷ without_colon image (cut_string b':' image)
    ∷ [])

-- `types.BaseEnvironment`
abbrev pub base_environment : World → List (String × String)
base_environment w =
    ("DEBIAN_FRONTEND", "noninteractive")
    ∷ ("PATH", w.default_system_path)
    ∷ ("LANG", "en_US.UTF-8")
    ∷ ("LC_ALL", "en_US.UTF-8")
    ∷ []

-- `types.BaseAptPackage`
abbrev pub base_apt_package : List String
base_apt_package =
    "bash-static" ∷ "libtinfo5" ∷ "libncursesw5" ∷ "bzip2" ∷ "ca-certificates" ∷ "libglib2.0-0"
    ∷ "libsm6" ∷ "libxext6" ∷ "libxrender1" ∷ "mercurial" ∷ "procps" ∷ "subversion" ∷ "wget"
    ∷ "curl" ∷ "openssh-client" ∷ "git" ∷ "sudo" ∷ "vim" ∷ "make" ∷ "zsh" ∷ "locales" ∷ []

-- `GetVersionForImageTag` of pkg/version.
abbrev pub version_for_image_tag : World → String
version_for_image_tag w = if str_eq w.git_tag "" then "latest" else w.git_tag

abbrev pub add_lines : List String → String
add_lines [] = ""
add_lines (c ∷ cs) = c ++ ("\n" ++ add_lines cs)

abbrev pub add_spaced : List String → String
add_spaced [] = ""
add_spaced (c ∷ cs) = " " ++ (c ++ add_spaced cs)
