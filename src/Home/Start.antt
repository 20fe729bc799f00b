-- ===== src/Home/Start.antt =====
-- `Initialize` and `init` of pkg/home/manager.go.
pub mod Valid
use envd.Base.{Bool, true, false, Option, none, some, [], ◌∷◌, ◌≡◌, refl, ap, ◌∙◌, arith}
use mathlib.Core.Path.{ap₂}
use envd.Home.File.{Error, written, stored, InitIo}
use envd.Home.State.{Manager, default_context, default_manager}
use envd.Home.Context.{init_context, decode_context, decode_list}
use envd.Home.Cache.{init_cache}
use envd.Home.Auth.{init_auth}

-- What the system answers during a start.
pub record StartIo : Type 0 where
  pub config_fails : Option Error
  pub context_io : InitIo
  pub cache_io : InitIo
  pub auth_io : InitIo
  pub keys_fail : Option Error

-- `if err := step(); err != nil { return err }`, then the rest.
unfoldable pub and_then :
    Manager × Option Error → (Manager → Manager × Option Error) → Manager × Option Error
and_then (m, none) k = k m
and_then (m, some e) k = (m, some e)

unfoldable pub init : StartIo → Manager → Manager × Option Error
unfolding and_then
init io m =
    and_then (m, io.config_fails)
      λ m. and_then (init_context io.context_io m) λ m.
        and_then (init_cache io.cache_io m)
          λ m. and_then (init_auth io.auth_io m) λ m. (m, io.keys_fail)

and_then-none :
    {r : Manager × Option Error} (m : Manager) (k : Manager → Manager × Option Error)
    → r ≡ (m, none)
    → and_then r k ≡ k m
unfolding and_then
and_then-none m k p = ap (λ x. and_then x k) p

-- The system does all that is asked of it for one file.
abbrev pub IsClean : InitIo → Type 0
IsClean io =
    (io.path_fails ≡ false)
    × (io.stat_fails ≡ false)
    × (io.create_fails ≡ false)
    × (io.close_fails ≡ false)
    × (io.dump_io ≡ written)
    × (io.open_fails ≡ false)

init_context_first :
    (io : InitIo) (m : Manager) (moby : Bool)
    → IsClean io
    → m.context_file ≡ none
    → m.context ≡ (default_manager moby none none none).context
    → init_context io m ≡ (record m { context_file = some (stored m.context) }, none)
unfolding init_context decode_list
init_context_first io m true c f e = rw f (ground (arith, ap₂ decode_context e e))
init_context_first io m false c f e = rw f (ground (arith, ap₂ decode_context e e))

init_cache_first :
    (io : InitIo) (m : Manager)
    → IsClean io
    → m.cache_status_file ≡ none
    → m.cache_map ≡ []
    → init_cache io m ≡ (record m { cache_status_file = some (stored m.cache_map) }, none)
unfolding init_cache
init_cache_first io m c f e = rw f (ground arith)

init_auth_first :
    (io : InitIo) (m : Manager)
    → IsClean io
    → m.auth_file ≡ none
    → m.auth ≡ record { current = ""; auth = [] }
    → init_auth io m ≡ (record m { auth_file = some (stored m.auth) }, none)
unfolding init_auth
init_auth_first io m c f e = rw f (ground arith)

-- The first start on a system that does all that is asked of it: there are no files before, no
-- error is returned, the default context is in memory and each of the three files holds its value.
pub init_first_start :
    (io : StartIo) (moby : Bool)
    → io.config_fails ≡ none
    → io.keys_fail ≡ none
    → IsClean io.context_io
    → IsClean io.cache_io
    → IsClean io.auth_io
    → init io (default_manager moby none none none) ≡ (
      default_manager moby
          (some (stored (record { current = "default"; contexts = default_context moby ∷ [] })))
          (some (stored []))
          (some (stored (record { current = ""; auth = [] }))),
      none,
    )
unfolding init
init_first_start io moby a b c d e =
    let m = default_manager moby none none none in
    let m' = record m { context_file = some (stored m.context) } in
    let m'' = record m' { cache_status_file = some (stored m.cache_map) } in
    let m''' = record m'' { auth_file = some (stored m.auth) } in
    and_then-none m _ (ap (λ (x : Option Error). (m, x)) a)
    ∙ and_then-none m' _ (init_context_first io.context_io m moby c refl refl)
    ∙ and_then-none m'' _ (init_cache_first io.cache_io m' d refl refl)
    ∙ and_then-none m''' _ (init_auth_first io.auth_io m'' e refl refl)
    ∙ ap (λ (x : Option Error). (m''', x)) b
