-- ===== src/Graph/Compile.antt =====
-- pkg/lang/ir/v1: compiling a graph to a state of buildkit. Here are the interface of
-- `github.com/moby/buildkit/client/llb` as the compiler calls it, the world that the compiler reads,
-- and the monad of its methods.
pub mod System
pub mod Python
pub mod Conda
pub mod Languages
pub mod User
pub mod Shell
pub mod Supervisor
pub mod Editor
pub mod Pipeline
pub mod Entry
pub mod Environ
pub mod Effect
pub mod Refine
pub mod Production
use envd.Base.{ℕ, String, Bool, Option, none, some, List, [], ◌∷◌, if◌then◌else◌}
use envd.Base.Strings.Decimal.{ℤ}
use envd.Plugin.{Plugin}
use envd.Graph.{Graph, HttpInfo}

-- `WithUIDGID`, if it is given.
pub data Owner : Type 0 where
  no_owner : Owner
  owned : ℤ → ℤ → Owner

-- `llb.Mkdir` with parents, `llb.Mkfile`, `llb.Copy` with or without `CreateDestPath`, `llb.Rm`.
pub data FileAction (S : Type 0) : Type 0 where
  mkdir : String → ℕ → Owner → FileAction S
  mkfile : String → ℕ → String → Owner → FileAction S
  copy : S → String → String → Bool → Owner → FileAction S
  rm : String → FileAction S

-- `AddMount`: a persistent cache that is shared, by the path, the source, the cache's id and the path
-- in the source; and a plain mount, read-only or not.
pub data ExecMount (S : Type 0) : Type 0 where
  cached : String → S → String → String → ExecMount S
  plain : String → S → Bool → ExecMount S

-- The calls of llb. A name is that of `WithCustomName`, empty if there is none. `image_env` is what
-- the registry says of an image's environment, `none` for an error.
pub record Buildkit : Type 1 where
  pub State : Type 0
  pub image : String → State
  pub scratch : State
  pub local_dir : String → State
  pub http_file : HttpInfo → ℤ → ℤ → State
  pub file : FileAction State → String → State → State
  pub run : String → String → List (ExecMount State) → State → State
  pub dir : String → State → State
  pub user : String → State → State
  pub add_env : String → String → State → State
  pub merge : List State → String → State
  pub diff : State → State → String → State
  pub image_env : String → Option (List String)

-- What the compiler reads besides the graph: the build's constants of other packages, the shell
-- scripts that are embedded, files, downloads (`none` and `false` are their errors), and the host name
-- of a URL, empty if it does not parse.
pub record World : Type 0 where
  pub default_system_path : String
  pub git_tag : String
  pub get_conda : String
  pub install_conda : String
  pub get_julia : String
  pub zsh_install : String
  pub zsh_rc : String
  pub public_key : String → Option String
  pub download_zsh : Bool
  pub download_plugin : Plugin → Bool
  pub plugin_path : Plugin → String
  pub hostname : String → String

pub data Error : Type 0 where
  metadata_failed python_not_supported key_failed zsh_failed plugin_failed : Error
  entrypoint_not_allowed index_out_of_range owner_failed marshal_failed : Error

pub data Result {ℓ} (A : Type ℓ) : Type ℓ where
  ok : A → Result A
  err : Error → Result A

-- A method with a pointer receiver: it may change the graph. What an error leaves in the graph is
-- not kept, since the program ends with it.
abbrev pub M {ℓ} : Type ℓ → Type ℓ
M A = Graph → Result (A × Graph)

infixl 5 ◌>>=◌ ◌>>◌
abbrev pub ◌>>=◌ {ℓ κ} : {A : Type ℓ} {B : Type κ} → M A → (A → M B) → M B
◌>>=◌ m k g = elim (m g) [ err e ↦ err e | ok (a, g') ↦ k a g' ]

abbrev pub ◌>>◌ {ℓ} : {B : Type ℓ} → M (Unit {0}) → M B → M B
m >> k = m >>= λ _. k

abbrev pub pure {ℓ} : {A : Type ℓ} → A → M A
pure a g = ok (a, g)

abbrev pub fail {ℓ} : {A : Type ℓ} → Error → M A
fail e g = err e

-- A method with a value receiver.
abbrev pub reads {ℓ} : {A : Type ℓ} → (Graph → A) → M A
reads f g = ok (f g, g)

abbrev pub modify : (Graph → Graph) → M (Unit {0})
modify f g = ok (tt, f g)

-- `root.File(..).Run(..)`: the calls of a state from the left to the right.
infixl 3 ◌▷◌
abbrev pub ◌▷◌ {ℓ κ} : {A : Type ℓ} {B : Type κ} → A → (A → B) → B
x ▷ f = f x

-- A method with a value receiver that may fail.
abbrev pub kept {ℓ} : {A : Type ℓ} → (Graph → Result A) → M A
kept f g = elim (f g) [ err e ↦ err e | ok a ↦ ok (a, g) ]
