-- ===== src/Frontend/Runtime.antt =====
-- pkg/lang/frontend/starlark/v1/runtime/runtime.go, and the sources of data that `mount` takes:
-- pkg/lang/frontend/starlark/v1/data, pkg/data/envd.go and `InitDataDir` of pkg/home/data.go.
use envd.Base.{String, Option, none, some, List, [], ◌∷◌, if◌then◌else◌, str_eq}
use envd.Base.Dict.{Dict, put}
use envd.Base.Native.{has_prefix, to_string}
use envd.Base.Text.{Text, codes}
use envd.Base.Strings.Decimal.{pos}
use envd.FilePath.{join_path, envd_home_dir}
use envd.Graph.Rules
use envd.Frontend.{
  Value, none_value, str, list, data_source, Values, nil, cons, Tuples, end, tuple, text, big_int,
  list_kind, mapping_kind, any, Args, Host, bad_arguments, bad_command, bad_envd_port,
  bad_host_port, bad_address, bad_source, no_data_dir, Step, Got, got, refused, broken, ◌>>=◌, ◌>>◌,
  require, or_refuse, ir, return, stored, text_or, int_or, list_or_nil, mapping_or_nil,
  to_string_slice, is_between,
}

-- One item of `Items()`: two strings, put in the map.
put_item : Values → Dict String → Got (Dict String)
put_item (cons (str k) (cons (str v) nil)) d = got (put d k v)
put_item (cons k (cons v nil)) d = broken
put_item _ d = refused bad_command

abbrev then_put : Got (Dict String) → (Dict String → Got (Dict String)) → Got (Dict String)
then_put (got d) k = k d
then_put (refused e) k = refused e
then_put broken k = broken

-- The loop over the items of a mapping.
pub put_items : Tuples → Dict String → Got (Dict String)
unfolding put_item
put_items end d = got d
put_items (tuple vs ts) d = then_put (put_item vs d) (put_items ts)

-- `runtime.command` has no test for nil in front of `Items()`.
abbrev commands_of : Option Tuples → Got (Dict String)
commands_of none = broken
commands_of (some ts) = put_items ts []

-- `runtime.environ` has one.
abbrev environ_of : Option Tuples → Got (Dict String)
environ_of none = got []
environ_of (some ts) = put_items ts []

add_string : Value → Got (List String) → Got (List String)
add_string (str s) (got ss) = got (s ∷ ss)
add_string (str s) r = r
add_string _ r = broken

-- The inner loop of `runtime.daemon`.
pub asserted_strings : Values → Got (List String)
unfolding add_string
asserted_strings nil = got []
asserted_strings (cons v vs) = add_string v (asserted_strings vs)

add_command : Got (List String) → Got (List (List String)) → Got (List (List String))
add_command (got c) (got cs) = got (c ∷ cs)
add_command (got c) r = r
add_command (refused e) r = refused e
add_command broken r = broken

-- Its outer loop.
pub daemon_commands : Values → Got (List (List String))
unfolding asserted_strings add_command
daemon_commands nil = got []
daemon_commands (cons (list args) vs) = add_command (asserted_strings args) (daemon_commands vs)
daemon_commands (cons _ vs) = refused bad_command

abbrev drop_two : Text → Text
drop_two (a ∷ b ∷ cs) = cs
drop_two _ = []

-- "~" alone and "~/" in front stand for the home directory of the user, on the host ...
unfoldable pub expand_source : String → String → String
expand_source dir path =
    if str_eq path "~"
    then dir
    else if has_prefix path "~/"
    then to_string (join_path (codes dir ∷ drop_two (codes path) ∷ []))
    else path

-- ... and of envd, in the environment.
unfoldable pub expand_destination : String → String
expand_destination path =
    if str_eq path "~"
    then envd_home_dir []
    else if has_prefix path "~/"
    then envd_home_dir (to_string (drop_two (codes path)) ∷ [])
    else path

module _ (h : Host) where
  open h use {unpack, is_ip, home_dir, cache_dir, is_missing, mkdir_all}

  -- `InitDataDir`
  unfoldable pub init_data_dir : String → Option String
  init_data_dir name =
      let dir = to_string (join_path (codes cache_dir ∷ codes "data" ∷ codes name ∷ [])) in
      if is_missing dir then (if mkdir_all dir then some dir else none) else some dir

  unfoldable pub rule_func_command : Args → Step
  unfolding put_items
  rule_func_command args = do
    vs ←
        or_refuse bad_arguments
          (unpack "runtime.command" (record { name = "commands?"; kind = mapping_kind } ∷ []) args)
    commands ← commands_of (mapping_or_nil (stored 0 vs))
    ir (Rules.runtime_commands commands)

  abbrev pub daemon_of : Option Values → Step
  daemon_of none = return none_value
  daemon_of (some vs) = do commands ← daemon_commands vs; ir (Rules.runtime_daemon commands)

  unfoldable pub rule_func_daemon : Args → Step
  unfolding daemon_commands
  rule_func_daemon args = do
    vs ←
        or_refuse bad_arguments
          (unpack "runtime.daemon" (record { name = "commands"; kind = list_kind } ∷ []) args)
    daemon_of (list_or_nil (stored 0 vs))

  unfoldable pub rule_func_expose : Args → Step
  rule_func_expose args = do
    vs ← or_refuse bad_arguments (
        unpack "runtime.expose"
          (record { name = "envd_port"; kind = big_int }
            ∷ record { name = "host_port?"; kind = big_int }
            ∷ record { name = "service?"; kind = text }
            ∷ record { name = "listen_addr?"; kind = text }
            ∷ [])
          args)
    let envd_port = int_or (pos 0) (stored 0 vs)
    let host_port = int_or (pos 0) (stored 1 vs)
    let listening_addr = text_or "127.0.0.1" (stored 3 vs)
    require (is_between 1 envd_port) bad_envd_port
    require (is_between 0 host_port) bad_host_port
    require (is_ip listening_addr) bad_address
    ir (Rules.runtime_expose envd_port host_port (text_or "" (stored 2 vs)) listening_addr)

  -- The name that errors carry is that of `runtime.command`.
  unfoldable pub rule_func_environ : Args → Step
  unfolding put_items
  rule_func_environ args = do
    vs ← or_refuse bad_arguments (
        unpack "runtime.command"
          (record { name = "env?"; kind = mapping_kind }
            ∷ record { name = "extra_path?"; kind = list_kind }
            ∷ [])
          args)
    env ← environ_of (mapping_or_nil (stored 0 vs))
    path ← to_string_slice (list_or_nil (stored 1 vs))
    ir (Rules.runtime_environ env path)

  abbrev source_of : Option Value → Got String
  source_of (some (data_source name)) = or_refuse no_data_dir (init_data_dir name)
  source_of (some (str s)) = got s
  source_of _ = refused bad_source

  -- Without a current user `usr` is nil.
  abbrev current_home : Option String → Got String
  current_home none = broken
  current_home (some dir) = got dir

  unfoldable pub rule_func_mount : Args → Step
  rule_func_mount args = do
    vs ← or_refuse bad_arguments (
        unpack "runtime.mount"
          (record { name = "host_path?"; kind = any }
            ∷ record { name = "envd_path?"; kind = text }
            ∷ [])
          args)
    source ← source_of (stored 0 vs)
    dir ← current_home home_dir
    ir (Rules.mount (expand_source dir source) (expand_destination (text_or "" (stored 1 vs))))

  -- The name that errors carry is that of `runtime.command`.
  unfoldable pub rule_func_init_script : Args → Step
  rule_func_init_script args = do
    vs ←
        or_refuse bad_arguments
          (unpack "runtime.command" (record { name = "commands?"; kind = list_kind } ∷ []) args)
    commands ← to_string_slice (list_or_nil (stored 0 vs))
    ir (Rules.runtime_init_script commands)

  -- `data.envd`
  unfoldable pub rule_value_envd_managed_data_source : Args → Step
  rule_value_envd_managed_data_source args = do
    vs ←
        or_refuse bad_arguments
          (unpack "data.envd" (record { name = "name?"; kind = text } ∷ []) args)
    return (data_source (text_or "" (stored 0 vs)))
