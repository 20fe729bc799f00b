-- ===== src/Frontend/Interpreter.antt =====
-- pkg/lang/frontend/starlark/v1/interpreter.go: modules are executed once and cached, and a module
-- that is still being executed is a cycle. `DownloadOrUpdateGitRepo` is of pkg/util/fileutil/file.go.
pub mod Post
pub mod Graphs
pub mod Again
pub mod Unseen
pub mod Ends
use envd.Base.{
  ℕ, zero, suc, Bool, true, false, ◌&&◌, String, Option, none, some, List, [], ◌∷◌, ◌++◌,
  if◌then◌else◌, str_eq, ◌==◌,
}
use envd.Base.Dict.{Dict, get, put}
use envd.Base.Native.{cat, has_prefix, to_string}
use envd.Base.Text.{Text, codes, has_suffix}
use envd.FilePath.{join_path}
use envd.Graph.{Graph}
use envd.Frontend.{
  Value, function, Param, text, Args, Host, FrontError, Reply, returned, raised, crashed, stored,
  text_or,
}
use envd.Frontend.Builtins.{Builtin, call}

-- What starlark does with a file or a function: it calls builtins, loads modules and includes
-- repositories, one after the other, with what they return, and ends with the globals or with an
-- error of its own. An error of a call ends it.
pub data Script : Type 0 where
  finish : Dict Value → Script
  abort : Script
  builtin : Builtin → Args → (Value → Script) → Script
  load : String → (Dict Value → Script) → Script
  include : Args → (String → Dict Value → Script) → Script

-- What `filepath.WalkDir` calls its function with: an error, a directory, or a file by its name and
-- its path.
pub data Visit : Type 0 where
  failed_visit directory : Visit
  file_at : String → String → Visit

-- `file` is `starlark.ExecFile` of a path, and `body` is `starlark.Call` of a function. `dir_exists`
-- is `DirExists`, with `none` for its error; `clone`, `open` and `worktree` tell whether go-git's
-- functions succeed.
pub record World : Type 0 where
  pub host : Host
  pub file : String → Script
  pub body : ℕ → Script
  pub lib_dir : String
  pub dir_exists : String → Option Bool
  pub clone : String → String → Bool
  pub open_repo : String → Bool
  pub worktree : String → Bool
  pub walk : String → List Visit

pub data LoadError : Type 0 where
  of_call : FrontError → LoadError
  of_script bad_include no_download bad_walk : LoadError
  cycle duplicate no_function not_a_function : String → LoadError

-- An `entry` of the cache, or a panic.
pub data Loaded : Type 0 where
  globals : Dict Value → Loaded
  error : LoadError → Loaded
  panic : Loaded

-- `none` in the cache is the placeholder of a module that is being executed.
pub record State : Type 0 where
  pub graph : Graph
  pub cache : Dict (Option Loaded)

-- `none`: the fuel ran out.
abbrev pub Run : Type 0
Run = Option (State × Loaded)

abbrev pub git_prefix : String
git_prefix = "git@"

-- `if err != nil { return nil, err }`
abbrev pub after : Run → (Dict Value → State → Run) → Run
after none k = none
after (some (st, globals d)) k = k d st
after (some (st, error e)) k = some (st, error e)
after (some (st, panic)) k = some (st, panic)

abbrev pub after_call : Graph × Reply → State → (Value → State → Run) → Run
after_call (g, returned v) st k = k v (record st { graph = g })
after_call (g, raised e) st k = some (record st { graph = g }, error (of_call e))
after_call (g, crashed) st k = some (record st { graph = g }, panic)

-- `s.cache[module] = e`
abbrev pub save : String → Run → Run
save m none = none
save m (some (st, panic)) = some (st, panic)
save m (some (st, r)) = some (record st { cache = put st.cache m (some r) }, r)

underscores : Text → Text
underscores [] = []
underscores (c ∷ cs) = (if c == b'/' then b'_' else c) ∷ underscores cs

drop_prefix : Text → Text → Text
drop_prefix [] s = s
drop_prefix (p ∷ ps) [] = []
drop_prefix (p ∷ ps) (c ∷ cs) = drop_prefix ps cs

-- The names of a file that a module shows: all but those that begin with "_". A name that the module
-- has already is an error.
unfoldable pub merge : Dict Value → Dict Value → Option (Dict Value)
merge [] acc = some acc
merge ((k, v) ∷ more) acc =
    let skipped = merge more acc in
    let added = merge more (put acc k v) in
    elim (get acc k) [ some _ ↦ none | none ↦ if has_prefix k "_" then skipped else added ]

module _ (w : World) where
  open w use {host, file, body, lib_dir, dir_exists, clone, open_repo, worktree, walk}

  -- The error of `Pull` is not returned.
  unfoldable pub download_or_update_git_repo : String → Option String
  unfolding underscores
  download_or_update_git_repo url =
      let path = to_string (join_path (codes lib_dir ∷ underscores (codes url) ∷ [])) in
      elim (dir_exists path) [
        | none ↦ none
        | some false ↦ if clone url path then some path else none
        | some true ↦ if open_repo path && worktree path then some path else none
      ]

  -- `ruleFuncInclude`: the repository that is named, if its arguments unpack.
  abbrev pub included : State → Option (List (Option Value)) → (String → Run) → Run
  included st none k = some (st, error bad_include)
  included st (some vs) k = k (text_or "" (stored 0 vs))

  -- `ExecFile` and `Call` of starlark on a thread whose `Load` is `execute`.
  unfoldable pub run_script : (String → State → Run) → Script → State → Run
  run_script execute (finish d) st = some (st, globals d)
  run_script execute abort st = some (st, error of_script)
  run_script execute (builtin b args k) st =
      after_call (call host b args st.graph) st (λ v st'. run_script execute (k v) st')
  run_script execute (load m k) st = after (execute m st) (λ d st'. run_script execute (k d) st')
  run_script execute (include args k) st =
      included st (host.unpack "include" (record { name = "git?"; kind = text } ∷ []) args) λ url.
        after (execute (cat (git_prefix ∷ url ∷ [])) st) (λ d st'. run_script execute (k url d) st')

  abbrev pub merged : String → Option (Dict Value) → State → (Dict Value → Run) → Run
  merged path none st k = some (st, error (duplicate path))
  merged path (some d) st k = k d

  -- The walk of `loadGitModule`.
  unfoldable pub load_visits : (String → State → Run) → List Visit → Dict Value → State → Run
  load_visits execute [] acc st = some (st, globals acc)
  load_visits execute (failed_visit ∷ vs) acc st = some (st, error bad_walk)
  load_visits execute (directory ∷ vs) acc st = load_visits execute vs acc st
  load_visits execute (file_at name path ∷ vs) acc st =
      let skipped = load_visits execute vs acc st in
      let loaded =
        after (run_script execute (file path) st)
          (λ d st'. merged path (merge d acc) st' (λ acc'. load_visits execute vs acc' st')) in
      if has_suffix (codes name) (codes ".envd") then loaded else skipped

  unfoldable pub load_git_module : (String → State → Run) → String → State → Run
  load_git_module execute path st = load_visits execute (walk path) [] st

  -- A download that fails leaves the placeholder.
  abbrev pub downloaded : State → Option String → (String → Run) → Run
  downloaded st none k = some (st, error no_download)
  downloaded st (some path) k = k path

  -- A module that is not in the cache, behind its placeholder.
  unfoldable pub exec_new : (String → State → Run) → String → State → Run
  unfolding drop_prefix
  exec_new execute m st =
      if has_prefix m git_prefix
      then downloaded st
          (download_or_update_git_repo (to_string (drop_prefix (codes git_prefix) (codes m))))
          (λ path. save m (load_git_module execute path st))
      else save m (run_script execute (file m) st)

  -- The three cases of a module: cached, being executed, and new.
  abbrev pub found : String → State → Option (Option Loaded) → (State → Run) → Run
  found m st (some (some e)) new = some (st, e)
  found m st (some none) new = some (st, error (cycle m))
  found m st none new = new (record st { cache = put st.cache m none })

  -- `exec` and `load`
  unfoldable pub exec : ℕ → String → State → Run
  exec zero m st = none
  exec (suc f) m st = found m st (get st.cache m) (λ st'. exec_new (exec f) m st')

  abbrev pub call_variable : ℕ → String → Dict Value → Option Value → State → Run
  call_variable f name d (some (function n)) st =
      after (run_script (exec f) (body n) st) (λ _ st'. some (st', globals d))
  call_variable f name d (some v) st = some (st, error (not_a_function name))
  call_variable f name d none st = some (st, error (no_function name))

  -- `ExecFile`, which `up` and `build` call.
  unfoldable pub exec_file : ℕ → String → String → State → Run
  exec_file f filename funcname st = after (exec f filename st) (λ d st'.
      if str_eq funcname ""
      then some (st', globals d)
      else call_variable f funcname d (get d funcname) st')
