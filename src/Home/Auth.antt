-- ===== src/Home/Auth.antt =====
-- pkg/home/auth.go
pub mod Laws
use envd.Base.{
  String, Bool, true, false, ◌||◌, not, Option, none, some, List, [], ◌∷◌, ◌++◌, if◌then◌else◌,
  str_eq,
}
use envd.Home.File.{Error, cannot_find, does_not_exist, DumpIo, InitIo, dump, init_file}
use envd.Home.State.{AuthConfig, EnvdAuth, Manager}

-- `for _, a := range m.auth.Auth { if a.Name == name`
unfoldable pub has_auth : String → List AuthConfig → Bool
has_auth name [] = false
has_auth name (a ∷ as') = str_eq a.name name || has_auth name as'

unfoldable pub find_auth : String → List AuthConfig → Option AuthConfig
find_auth name [] = none
find_auth name (a ∷ as') = if str_eq a.name name then some a else find_auth name as'

abbrev pub auth_get_current : Manager → Option AuthConfig
auth_get_current m = find_auth m.auth.current m.auth.auth

unfoldable pub dump_auth : DumpIo → Manager → Manager × Option Error
unfolding dump
dump_auth io m = let (f, e) = dump io m.auth m.auth_file in (record m { auth_file = f }, e)

unfoldable pub auth_use : String → DumpIo → Manager → Manager × Option Error
auth_use name io m =
    if has_auth name m.auth.auth
    then dump_auth io (record m { auth = record m.auth { current = name } })
    else (m, some does_not_exist)

abbrev pub add_auth : AuthConfig → EnvdAuth → EnvdAuth
add_auth ac a = if has_auth ac.name a.auth then a else record a { auth = a.auth ++ (ac ∷ []) }

unfoldable pub auth_create : AuthConfig → Bool → DumpIo → Manager → Manager × Option Error
auth_create ac use_it io m =
    let m' = record m { auth = add_auth ac m.auth } in
    if use_it then auth_use ac.name io m' else dump_auth io m'

abbrev or_old : String → String → String
or_old old new = if str_eq new "" then old else new

-- `initAuth` decodes into an empty list, so every item is read over a zero value.
unfoldable pub decode_auth : EnvdAuth → EnvdAuth → EnvdAuth
decode_auth old new = record {
  current = or_old old.current new.current;
  auth = elim new.auth [ [] ↦ old.auth | a ∷ as' ↦ new.auth ];
}

unfoldable pub init_auth : InitIo → Manager → Manager × Option Error
unfolding init_file decode_auth
init_auth io m =
    let (f, a, e) = init_file decode_auth io m.auth m.auth_file in
    (record m { auth = a; auth_file = f }, e)
