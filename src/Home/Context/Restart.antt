-- ===== src/Home/Context/Restart.antt =====
-- What reaches the file, and what a new process reads back.
use envd.Base.{
  String, Bool, true, false, Option, none, some, List, [], ◌∷◌, ◌≡◌, refl, ◌≢◌, arith, All,
  str_eq_iff, inl, inr, Option-cases, str_eq_refl, ap,
}
use mathlib.Core.Path.{ap₂}
use envd.Base.Dict.{Dict}
use envd.Home.Context.Lookup.{has_context-append}
use envd.Home.File.{
  Error, create_failed, encode_failed, DumpIo, written, create_fails, encode_fails, InitIo, File,
  stored, init_file, open_and_load, load,
}
use envd.Home.State.{default_context, default_manager, EnvdAuth, Context, EnvdContext, Manager}
use envd.Home.Context.{
  decode_one, zero_context, decode_list, decode_context, init_context, dump_context, context_use,
  context_create, context_remove,
}
use envd.Home.Context.Commands.{Command, create, switch, remove, execute}

-- The file holds what is in memory.
abbrev pub IsSaved : Manager → Type 0
IsSaved m = m.context_file ≡ some (stored m.context)

-- A method that returns no error has written what is in memory to the file.
pub execute-IsSaved :
    (c : Command) (io : DumpIo) (m : Manager)
    → (execute c io m).1 ≡ none
    → IsSaved (execute c io m).0
unfolding execute context_create context_use context_remove dump_context
execute-IsSaved (create c true) written m h = ground arith
execute-IsSaved (create c true) create_fails m h = ground arith
execute-IsSaved (create c true) encode_fails m h = ground arith
execute-IsSaved (create c false) written m h = ground arith
execute-IsSaved (create c false) create_fails m h = ground arith
execute-IsSaved (create c false) encode_fails m h = ground arith
execute-IsSaved (switch name) written m h = ground arith
execute-IsSaved (switch name) _ m h = ground arith
execute-IsSaved (remove name) written m h = ground arith
execute-IsSaved (remove name) _ m h = ground arith

-- A method that refuses the request, with an error of its own, changes nothing.
pub execute-refused :
    (c : Command) (io : DumpIo) (m : Manager) (e : Error)
    → (execute c io m).1 ≡ some e
    → e ≢ create_failed
    → e ≢ encode_failed
    → (execute c io m).0 ≡ m
unfolding execute context_create context_use context_remove dump_context
execute-refused (create c true) written m e h a b =
    ground (arith, has_context-append c.name m.context.contexts c, str_eq_refl c.name)
execute-refused (create c true) create_fails m e h a b =
    ground (arith, has_context-append c.name m.context.contexts c, str_eq_refl c.name)
execute-refused (create c true) encode_fails m e h a b =
    ground (arith, has_context-append c.name m.context.contexts c, str_eq_refl c.name)
execute-refused (create c false) written m e h a b = ground arith
execute-refused (create c false) _ m e h a b = ground arith
execute-refused (switch name) written m e h a b = ground arith
execute-refused (switch name) _ m e h a b = ground arith
execute-refused (remove name) written m e h a b = ground arith
execute-refused (remove name) _ m e h a b = ground arith

-- Decoding over zero values gives back what was encoded, but for a pointer to an empty text.
decode_one-zero_context : (c : Context) → c.runner_address ≢ some "" → decode_one zero_context c ≡ c
decode_one-zero_context c h = elim (Option-cases c.runner_address) [
  | inl e ↦ ground (
    arith,
    str_eq_iff c.name "",
    str_eq_iff c.builder "",
    str_eq_iff c.builder_address "",
    str_eq_iff c.runner "",
  )
  | inr (a, e) ↦ ground (
    arith,
    str_eq_iff c.name "",
    str_eq_iff c.builder "",
    str_eq_iff c.builder_address "",
    str_eq_iff c.runner "",
    str_eq_iff a "",
  )
]

-- What a context needs so that no field of it is taken from another one: gob does not write
-- empty texts.
abbrev pub IsFilled : Context → Type 0
IsFilled c =
    (c.name ≢ "")
    × (c.builder ≢ "")
    × (c.builder_address ≢ "")
    × (c.runner ≢ "")
    × (c.runner_address ≢ some "")

decode_one-IsFilled : (o c : Context) → o.runner_address ≡ none → IsFilled c → decode_one o c ≡ c
decode_one-IsFilled o c n h = elim (Option-cases c.runner_address) [
  | inl e ↦ ground (
    arith,
    str_eq_iff c.name "",
    str_eq_iff c.builder "",
    str_eq_iff c.builder_address "",
    str_eq_iff c.runner "",
  )
  | inr (a, e) ↦ ground (
    arith,
    str_eq_iff c.name "",
    str_eq_iff c.builder "",
    str_eq_iff c.builder_address "",
    str_eq_iff c.runner "",
    str_eq_iff a "",
  )
]

decode_list-nil : (cs : List Context) → All IsFilled cs → decode_list [] cs ≡ cs
unfolding decode_list
decode_list-nil [] h = refl
decode_list-nil (c ∷ cs) h = ap₂ ◌∷◌ (decode_one-zero_context c h.0.4) (decode_list-nil cs h.1)

decode_list-IsFilled :
    (o : Context) (cs : List Context)
    → o.runner_address ≡ none
    → cs ≢ []
    → All IsFilled cs
    → decode_list (o ∷ []) cs ≡ cs
unfolding decode_list
decode_list-IsFilled o [] n ne h = absurd (ne refl)
decode_list-IsFilled o (c ∷ []) n ne h = ap (λ x. x ∷ []) (decode_one-IsFilled o c n h.0)
decode_list-IsFilled o (c ∷ d ∷ cs) n ne h =
    ap₂ ◌∷◌ (decode_one-zero_context c h.0.4)
      (ap₂ ◌∷◌ (decode_one-zero_context d h.1.0.4) (decode_list-nil cs h.1.1))

pub decode_context-IsFilled :
    (moby : Bool) (current : String) (e : EnvdContext)
    → e.current ≢ ""
    → e.contexts ≢ []
    → All IsFilled e.contexts
    → decode_context (record { current = current; contexts = default_context moby ∷ [] }) e ≡ e
unfolding decode_context
decode_context-IsFilled moby current e cur ne h = ground (
  arith,
  str_eq_iff e.current "",
  decode_list-IsFilled (default_context moby) e.contexts refl ne h,
)

-- What the system answers to a start that only has to read a file.
abbrev pub IsReadable : InitIo → Type 0
IsReadable io = (io.path_fails ≡ false) × (io.stat_fails ≡ false) × (io.open_fails ≡ false)

-- A new process that can read the file gets the contexts that the last one saved, and no error, if
-- the list is not empty and neither the current name nor a field of a context is empty.
pub init_context-IsSaved :
    (m : Manager) (moby : Bool) (io : InitIo) (g : Option (File (Dict Bool)))
    (h : Option (File EnvdAuth))
    → IsSaved m
    → m.context.current ≢ ""
    → m.context.contexts ≢ []
    → All IsFilled m.context.contexts
    → IsReadable io
    → ((init_context io (default_manager moby m.context_file g h)).0.context ≡ m.context)
      × ((init_context io (default_manager moby m.context_file g h)).1 ≡ none)
unfolding init_context init_file open_and_load load
init_context-IsSaved m moby io g h saved cur ne filled ok =
    rw saved (ground (arith, decode_context-IsFilled moby "default" m.context cur ne filled))
