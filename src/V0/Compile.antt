-- ===== src/V0/Compile.antt =====
-- pkg/lang/ir/v0: compiling a graph to a state of buildkit, over the same client of buildkit as
-- version 1. Here are the world, the monad of the methods, and the small helpers of util.go, cache.go,
-- fs.go and system.go.
pub mod System
pub mod Conda
pub mod Editor
pub mod Shell
pub mod Supervisor
pub mod Python
pub mod Languages
pub mod Pipeline
pub mod Effect
pub mod Refine
use Prim.Native.String.{◌++◌}
use envd.Base.{String, Bool, Option, none, some, List, [], ◌∷◌, snoc}
use envd.Base.Dict.{Dict, put}
use envd.Base.Native.{cat, join_with}
use envd.FilePath.{envd_home_dir}
use envd.Graph.Compile as V1
use envd.Graph.Compile.{Owner, owned, Buildkit}
use envd.V0.{Graph}

-- What version 1 reads besides the graph, the organization of the images, which is a flag, and the
-- scripts that this version embeds. `empty` is the zero value of `llb.State`.
pub record World (S : Type 0) : Type 0 where
  pub shared : V1.World
  pub organization : String
  pub install_conda : String
  pub install_mamba : String
  pub empty : S

pub data Error : Type 0 where
  metadata_failed python_not_supported jupyter_not_supported key_failed zsh_failed : Error
  plugin_failed entrypoint_not_allowed index_out_of_range owner_failed marshal_failed : Error

pub data Result {ℓ} (A : Type ℓ) : Type ℓ where
  ok : A → Result A
  err : Error → Result A

-- A method with a pointer receiver: it may change the graph.
abbrev pub M {ℓ} : Type ℓ → Type ℓ
M A = Graph → Result (A × Graph)

infixl 5 ◌>>=◌ ◌>>◌
abbrev pub ◌>>=◌ {ℓ κ} : {A : Type ℓ} {B : Type κ} → M A → (A → M B) → M B
◌>>=◌ m k g = elim (m g) [ err e ↦ err e | ok (a, g') ↦ k a g' ]

abbrev pub ◌>>◌ {ℓ} : {B : Type ℓ} → M (Unit {0}) → M B → M B
m >> k = m >>= λ _. k

abbrev pub pure {ℓ} : {A : Type ℓ} → A → M A
pure a g = ok (a, g)

-- A method with a value receiver, and one that may fail.
abbrev pub reads {ℓ} : {A : Type ℓ} → (Graph → A) → M A
reads f g = ok (f g, g)

abbrev pub kept {ℓ} : {A : Type ℓ} → (Graph → Result A) → M A
kept f g = elim (f g) [ err e ↦ err e | ok a ↦ ok (a, g) ]

abbrev pub modify : (Graph → Graph) → M (Unit {0})
modify f g = ok (tt, f g)

-- `WithUIDGID(g.uid, g.gid)`
abbrev pub owner_of : Graph → Owner
owner_of g = owned g.uid g.gid

-- `g.RuntimeEnviron[key] = value`
abbrev pub set_environ : String → String → Graph → Graph
set_environ key value g = record g {
  runtime = record g.runtime { runtime_environ = put g.runtime.runtime_environ key value };
}

abbrev pub add_path : String → Graph → Graph
add_path path g = record g {
  runtime = record g.runtime { runtime_env_paths = snoc g.runtime.runtime_env_paths path };
}

abbrev pub add_user_directory : String → Graph → Graph
add_user_directory path g = record g { user_directories = snoc g.user_directories path }

abbrev gpu_suffix : Option String → String
gpu_suffix none = "-cpu"
gpu_suffix (some cuda) = "-gpu"

-- `CacheID`
unfoldable pub cache_id : String → Graph → String
cache_id filename g = filename ++ gpu_suffix g.cuda

-- `getWorkingDir`
abbrev pub working_dir : Graph → String
working_dir g = envd_home_dir (g.environment_name ∷ [])

module _ (b : Buildkit) where
  open b use {State, run, add_env}

  -- `updateEnvPath`
  unfoldable pub update_env_path : String → State → M State
  update_env_path path root g =
      ok (
        add_env "PATH" (join_with ":" (snoc g.runtime.runtime_env_paths path)) root,
        add_path path g,
      )

  -- The state of `CompileCacheDir`.
  unfoldable pub compile_cache_dir : String → State → M State
  compile_cache_dir path root g =
      ok
        (run ("mkdir -p " ++ path) "[internal] create cache dir" [] root, add_user_directory path g)

-- A method with a value receiver that calls methods with pointer receivers: they change a copy of
-- the graph, which is dropped but for the map of the environment, that the copy shares.
abbrev pub on_copy {ℓ} : {A : Type ℓ} → M A → M A
on_copy m g = elim (m g) [
  | err e ↦ err e
  | ok (a, g') ↦
      ok (
        a,
        record g { runtime = record g.runtime { runtime_environ = g'.runtime.runtime_environ } },
      )
]
