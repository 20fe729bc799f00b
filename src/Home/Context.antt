-- ===== src/Home/Context.antt =====
-- pkg/home/context.go. A method returns the new manager and Go's `error`.
pub mod Commands
pub mod Lookup
pub mod Valid
pub mod Restart
pub mod Store
use envd.Base.{
  String, Bool, true, false, ◌||◌, Option, none, some, List, [], ◌∷◌, ◌++◌, if◌then◌else◌, str_eq,
}
use envd.Home.File.{
  Error, already_exists, unknown_builder, unknown_runner, removes_current, cannot_find,
  does_not_exist, no_current, DumpIo, InitIo, dump, init_file,
}
use envd.Home.State.{Context, EnvdContext, Manager}

-- `for _, c := range m.context.Contexts { if c.Name == name`
unfoldable pub has_context : String → List Context → Bool
has_context name [] = false
has_context name (c ∷ cs) = str_eq c.name name || has_context name cs

unfoldable pub known_builder : String → Bool
known_builder b =
    str_eq b "docker-container"
    || str_eq b "moby-worker"
    || str_eq b "nerdctl-container"
    || str_eq b "kube-pod"
    || str_eq b "unix"
    || str_eq b "tcp"

unfoldable pub known_runner : String → Bool
known_runner r = str_eq r "docker" || str_eq r "envd-server"

unfoldable pub dump_context : DumpIo → Manager → Manager × Option Error
unfolding dump
dump_context io m =
    let (f, e) = dump io m.context m.context_file in (record m { context_file = f }, e)

unfoldable pub context_use : String → DumpIo → Manager → Manager × Option Error
context_use name io m =
    if has_context name m.context.contexts
    then dump_context io (record m { context = record m.context { current = name } })
    else (m, some does_not_exist)

unfoldable pub find_current : String → List Context → Option Context
find_current current [] = none
find_current current (c ∷ cs) = if str_eq current c.name then some c else find_current current cs

abbrev pub context_get_current : Manager → Option Context
context_get_current m = find_current m.context.current m.context.contexts

abbrev append_context : Context → Manager → Manager
append_context c m = record m {
  context = record m.context { contexts = m.context.contexts ++ (c ∷ []) };
}

unfoldable pub context_create : Context → Bool → DumpIo → Manager → Manager × Option Error
context_create c use_it io m =
    if has_context c.name m.context.contexts
    then (m, some already_exists)
    else if known_builder c.builder
    then (if known_runner c.runner
        then (if use_it
            then context_use c.name io (append_context c m)
            else dump_context io (append_context c m))
        else (m, some unknown_runner))
    else (m, some unknown_builder)

-- `append(m.context.Contexts[:i], m.context.Contexts[i+1:]...)` at the first `i` of that name.
unfoldable pub without_context : String → List Context → List Context
without_context name [] = []
without_context name (c ∷ cs) = if str_eq c.name name then cs else c ∷ without_context name cs

unfoldable pub context_remove : String → DumpIo → Manager → Manager × Option Error
context_remove name io m =
    if has_context name m.context.contexts
    then (if str_eq m.context.current name
        then (m, some removes_current)
        else dump_context io (record m {
          context = record m.context { contexts = without_context name m.context.contexts };
        }))
    else (m, some cannot_find)

-- gob leaves out fields that are zero, a pointer's target included, and what is left out keeps the
-- value that is there.
abbrev or_old : String → String → String
or_old old new = if str_eq new "" then old else new

abbrev or_old_address : Option String → Option String → Option String
or_old_address old none = old
or_old_address old (some a) = if str_eq a "" then old else some a

abbrev pub decode_one : Context → Context → Context
decode_one old new = record {
  name = or_old old.name new.name;
  builder = or_old old.builder new.builder;
  builder_address = or_old old.builder_address new.builder_address;
  runner = or_old old.runner new.runner;
  runner_address = or_old_address old.runner_address new.runner_address;
}

abbrev pub zero_context : Context
zero_context = record {
  name = "";
  builder = "";
  builder_address = "";
  runner = "";
  runner_address = none;
}

-- One item is decoded into the array that is there; more items get a new one, of zero values.
unfoldable pub decode_list : List Context → List Context → List Context
decode_list old [] = old
decode_list (o ∷ old) (c ∷ []) = decode_one o c ∷ []
decode_list [] (c ∷ cs) = decode_one zero_context c ∷ decode_list [] cs
decode_list (o ∷ old) (c ∷ d ∷ cs) =
    decode_one zero_context c ∷ decode_one zero_context d ∷ decode_list [] cs

unfoldable pub decode_context : EnvdContext → EnvdContext → EnvdContext
unfolding decode_list
decode_context old new = record {
  current = or_old old.current new.current;
  contexts = decode_list old.contexts new.contexts;
}

unfoldable pub init_context : InitIo → Manager → Manager × Option Error
unfolding init_file decode_context
init_context io m =
    let (f, c, e) = init_file decode_context io m.context m.context_file in
    (record m { context = c; context_file = f }, e)
