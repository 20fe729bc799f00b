-- ===== src/Home/Context/Valid.antt =====
-- The invariant of the contexts of pkg/home/context.go.
use envd.Base.{
  String, Bool, true, false, Option, List, [], ◌∷◌, ◌++◌, ◌≡◌, refl, arith, All, All-append, str_eq,
  str_eq_iff, if◌then◌else◌, inl, inr, Bool-cases,
}
use envd.Base.Dict.{Dict}
use envd.Home.File.{DumpIo, written, create_fails, encode_fails, File}
use envd.Home.State.{Context, EnvdContext, Manager, default_manager, EnvdAuth}
use envd.Home.Context.{
  append_context, has_context, known_builder, known_runner, without_context, context_create,
  context_use, context_remove, dump_context,
}
use envd.Home.Context.Commands.{Command, create, switch, remove, execute, run}
use envd.Home.Context.Lookup.{
  Distinct, has_context-append, Distinct-append, has_context-without_context_ne,
  Distinct-without_context, All-without_context,
}

abbrev pub IsKnown : Context → Type 0
IsKnown c = (known_builder c.builder ≡ true) × (known_runner c.runner ≡ true)

pub record IsValid (c : EnvdContext) : Type 0 where
  pub distinct : Distinct c.contexts
  pub listed : has_context c.current c.contexts ≡ true
  pub known : All IsKnown c.contexts

pub context-dump_context : (io : DumpIo) (m : Manager) → (dump_context io m).0.context ≡ m.context
unfolding dump_context
context-dump_context written m = refl
context-dump_context create_fails m = refl
context-dump_context encode_fails m = refl

append-IsValid :
    (c : Context) (e : EnvdContext)
    → has_context c.name e.contexts ≡ false
    → IsKnown c
    → IsValid e
    → IsValid (record e { contexts = e.contexts ++ (c ∷ []) })
append-IsValid c e new k v = record {
  distinct = Distinct-append e.contexts c new v.distinct;
  listed = ground (arith, has_context-append e.current e.contexts c, v.listed);
  known = All-append IsKnown e.contexts (c ∷ []) v.known (k, tt);
}

without-IsValid :
    (name : String) (e : EnvdContext)
    → str_eq e.current name ≡ false
    → IsValid e
    → IsValid (record e { contexts = without_context name e.contexts })
without-IsValid name e other v = record {
  distinct = Distinct-without_context name e.contexts v.distinct;
  listed = ground (
    arith,
    v.listed,
    has_context-without_context_ne e.current name e.contexts,
    str_eq_iff e.current name,
    str_eq_iff name e.current,
  );
  known = All-without_context IsKnown name e.contexts v.known;
}

use-IsValid :
    (name : String) (e : EnvdContext)
    → has_context name e.contexts ≡ true
    → IsValid e
    → IsValid (record e { current = name })
use-IsValid name e h v = record { distinct = v.distinct; listed = h; known = v.known }

context_use-IsValid :
    (name : String) (io : DumpIo) (m : Manager)
    → IsValid m.context
    → IsValid (context_use name io m).0.context
unfolding context_use
context_use-IsValid name io m v = elim (Bool-cases (has_context name m.context.contexts)) [
  | inl h ↦ rw h (rw context-dump_context (use-IsValid name m.context h v))
  | inr h ↦ rw h v
]

context_remove-IsValid :
    (name : String) (io : DumpIo) (m : Manager)
    → IsValid m.context
    → IsValid (context_remove name io m).0.context
unfolding context_remove
context_remove-IsValid name io m v = elim (Bool-cases (has_context name m.context.contexts)) [
  | inr h ↦ rw h v
  | inl h ↦ rw h (elim (Bool-cases (str_eq m.context.current name)) [
    | inl e ↦ rw e v
    | inr e ↦ rw e (rw context-dump_context (without-IsValid name m.context e v))
  ])
]

added-IsValid :
    (c : Context) (use_it : Bool) (io : DumpIo) (m : Manager)
    → IsValid m.context
    → IsValid (if use_it then context_use c.name io m else dump_context io m).0.context
added-IsValid c true io m v = context_use-IsValid c.name io m v
added-IsValid c false io m v = rw context-dump_context v

context_create-IsValid :
    (c : Context) (use_it : Bool) (io : DumpIo) (m : Manager)
    → IsValid m.context
    → IsValid (context_create c use_it io m).0.context
unfolding context_create
context_create-IsValid c use_it io m v = elim (Bool-cases (has_context c.name m.context.contexts)) [
  | inl h ↦ rw h v
  | inr h ↦ rw h (elim (Bool-cases (known_builder c.builder)) [
    | inr b ↦ rw b v
    | inl b ↦ rw b (elim (Bool-cases (known_runner c.runner)) [
      | inr r ↦ rw r v
      | inl r ↦
          rw r
            (added-IsValid c use_it io (append_context c m) (append-IsValid c m.context h (b, r) v))
    ])
  ])
]

pub execute-IsValid :
    (c : Command) (io : DumpIo) (m : Manager)
    → IsValid m.context
    → IsValid (execute c io m).0.context
unfolding execute
execute-IsValid (create c use_it) io m v = context_create-IsValid c use_it io m v
execute-IsValid (switch name) io m v = context_use-IsValid name io m v
execute-IsValid (remove name) io m v = context_remove-IsValid name io m v

-- Whatever the commands and whatever the system answers to their dumps: from a valid list the
-- names stay distinct, the current context stays in the list, and every builder and runner is one
-- of the known ones.
pub run-IsValid :
    (cs : List (Command × DumpIo)) (m : Manager) → IsValid m.context → IsValid (run cs m).context
unfolding run
run-IsValid [] m v = v
run-IsValid ((c, io) ∷ rest) m v = run-IsValid rest (execute c io m).0 (execute-IsValid c io m v)

pub default-IsValid :
    (moby : Bool) (f : Option (File EnvdContext)) (g : Option (File (Dict Bool)))
    (h : Option (File EnvdAuth))
    → IsValid (default_manager moby f g h).context
unfolding has_context known_builder known_runner
default-IsValid true f g h = record {
  distinct = (refl, tt);
  listed = refl;
  known = ((refl, refl), tt);
}
default-IsValid false f g h = record {
  distinct = (refl, tt);
  listed = refl;
  known = ((refl, refl), tt);
}
