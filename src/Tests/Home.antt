-- ===== src/Tests/Home.antt =====
-- pkg/home at concrete inputs.
use envd.Base.{true, false, none, some, List, [], ◌∷◌, ◌≡◌, refl, All, map}
use envd.Home.File.{
  already_exists, DumpIo, written, create_fails, encode_fails, create_failed, InitIo, stored,
}
use envd.Home.State.{Context, EnvdContext, AuthConfig, Manager, default_context, default_manager}
use envd.Home.Context.{
  context_get_current, context_create, context_use, dump_context, has_context, known_builder,
  known_runner, init_context,
}
use envd.Home.Context.Commands.{Command, create, switch, remove, execute, run}
use envd.Home.Context.Store.{view, perform_all, run-refines}
use envd.Home.Context.Valid.{IsValid, run-IsValid, default-IsValid}
use envd.Home.Context.Restart.{IsFilled, execute-refused, init_context-IsSaved}
use envd.Home.Auth.{has_auth}
use envd.Home.Start.Valid.{IsUsable, context_get_current-init}
use envd.Home.Start.{StartIo, init, init_first_start}

abbrev start : Manager
start = default_manager true none none none

abbrev remote : Context
remote = record {
  name = "remote";
  builder = "tcp";
  builder_address = "10.0.0.1:1234";
  runner = "envd-server";
  runner_address = some "http://10.0.0.1";
}

abbrev commands : List (Command × DumpIo)
commands =
    (create remote true, written)
    ∷ (remove "default", encode_fails)
    ∷ (switch "missing", written)
    ∷ (create remote false, create_fails)
    ∷ []

run-IsValid_example : IsValid (run commands start).context
run-IsValid_example = run-IsValid commands start (default-IsValid true none none none)

run-refines_example :
    view (run commands start).context
    ≡ perform_all (map (λ (c : Command × DumpIo). c.0) commands) (view start.context)
run-refines_example = run-refines commands start (default-IsValid true none none none)

created : (execute (create remote true) written start).1 ≡ none
unfolding execute context_create context_use dump_context has_context known_builder known_runner
created = refl

abbrev twin : Context
twin = record remote { name = "default" }

refused : (execute (create twin true) written start).1 ≡ some already_exists
unfolding execute context_create has_context
refused = refl

execute-refused_example : (execute (create twin true) written start).0 ≡ start
execute-refused_example =
    execute-refused (create twin true) written start already_exists refused (λ e. cc) (λ e. cc)

abbrev two_contexts : EnvdContext
two_contexts = record { current = "remote"; contexts = default_context true ∷ remote ∷ [] }

abbrev saved : Manager
saved = record start { context = two_contexts; context_file = some (stored two_contexts) }

abbrev calm : InitIo
calm = record {
  path_fails = false;
  stat_fails = false;
  create_fails = false;
  close_fails = false;
  dump_io = written;
  open_fails = false;
}

two-IsFilled : All IsFilled two_contexts.contexts
two-IsFilled = (
  ((λ e. cc), (λ e. cc), (λ e. cc), (λ e. cc), (λ e. cc)),
  (((λ e. cc), (λ e. cc), (λ e. cc), (λ e. cc), (λ e. cc)), tt),
)

init_context-IsSaved_example :
    ((init_context calm (default_manager false saved.context_file none none)).0.context
      ≡ two_contexts)
    × ((init_context calm (default_manager false saved.context_file none none)).1 ≡ none)
init_context-IsSaved_example =
    init_context-IsSaved saved false calm none none refl (λ e. cc) (λ e. cc) two-IsFilled
      (refl, refl, refl)

abbrev token : AuthConfig
token = record { name = "ann"; jwt_token = "old" }

abbrev fresh : AuthConfig
fresh = record { name = "ann"; jwt_token = "new" }

abbrev logged_in : Manager
logged_in = record start { auth = record { current = "ann"; auth = token ∷ [] } }

ann_is_there : has_auth "ann" logged_in.auth.auth ≡ true
unfolding has_auth
ann_is_there = refl

abbrev calm_start : StartIo
calm_start = record {
  config_fails = none;
  context_io = calm;
  cache_io = calm;
  auth_io = calm;
  keys_fail = none;
}

init_first_start_example : init calm_start start ≡ (
  default_manager true
      (some (stored (record { current = "default"; contexts = default_context true ∷ [] })))
      (some (stored []))
      (some (stored (record { current = ""; auth = [] }))),
  none,
)
init_first_start_example =
    init_first_start calm_start true refl refl (refl, refl, refl, refl, refl, refl)
      (refl, refl, refl, refl, refl, refl) (refl, refl, refl, refl, refl, refl)

-- What an earlier process saved.
abbrev saved_contexts : EnvdContext
saved_contexts = record { current = "remote"; contexts = default_context false ∷ remote ∷ [] }

saved-IsUsable : IsUsable (some (stored saved_contexts))
unfolding has_context known_builder known_runner
saved-IsUsable = (
  record {
    distinct = (refl, (refl, tt));
    listed = refl;
    known = ((refl, refl), ((refl, refl), tt));
  },
  λ e. cc,
  λ e. cc,
  (
    (λ e. cc, λ e. cc, λ e. cc, λ e. cc, λ e. cc),
    ((λ e. cc, λ e. cc, λ e. cc, λ e. cc, λ e. cc), tt),
  ),
)

-- A start whose last step fails, and what it leaves.
abbrev keyless_start : StartIo
keyless_start = record calm_start { keys_fail = some create_failed }

abbrev half_started : Manager
half_started =
    (init keyless_start (default_manager true (some (stored saved_contexts)) none none)).0

context_get_current-init_example :
    (c : Context) × (context_get_current (run commands half_started) ≡ some c)
    × (c.name ≡ (run commands half_started).context.current)
context_get_current-init_example =
    context_get_current-init true (some (stored saved_contexts)) none none keyless_start commands
      saved-IsUsable
