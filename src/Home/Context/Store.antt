-- ===== src/Home/Context/Store.antt =====
-- What pkg/home/context.go promises of the contexts: a current name and a partial map from names to
-- contexts, which the list of the manager implements.
use envd.Base.{
  String, Bool, true, false, ◌&&◌, Option, none, some, List, [], ◌∷◌, ◌++◌, ◌≡◌, refl, sym, ap, ◌∙◌,
  arith, str_eq, str_eq_iff, if◌then◌else◌, inl, inr, Bool-cases, map,
}
use envd.Home.File.{DumpIo}
use envd.Home.State.{Context, EnvdContext, Manager}
use envd.Home.Context.{
  append_context, has_context, find_current, known_builder, known_runner, without_context,
  context_create, context_use, context_remove, dump_context,
}
use envd.Home.Context.Commands.{Command, create, switch, remove, execute, run}
use envd.Home.Context.Lookup.{Distinct, has_context-append}
use envd.Home.Context.Valid.{IsValid, context-dump_context, execute-IsValid}

pub record Store : Type 0 where
  pub current : String
  pub find : String → Option Context

abbrev pub is_some {ℓ} : {A : Type ℓ} → Option A → Bool
is_some none = false
is_some (some _) = true

abbrev bind_name : Context → (String → Option Context) → String → Option Context
bind_name c find k = if str_eq k c.name then some c else find k

abbrev drop_name : String → (String → Option Context) → String → Option Context
drop_name name find k = if str_eq k name then none else find k

-- A command on the store. A refused one leaves it as it is.
abbrev pub perform : Command → Store → Store
perform (create c use_it) s =
    if is_some (s.find c.name)
    then s
    else if known_builder c.builder && known_runner c.runner
    then record { current = if use_it then c.name else s.current; find = bind_name c s.find }
    else s
perform (switch name) s = if is_some (s.find name) then record s { current = name } else s
perform (remove name) s =
    if is_some (s.find name)
    then (if str_eq s.current name then s else record s { find = drop_name name s.find })
    else s

abbrev pub perform_all : List Command → Store → Store
perform_all [] s = s
perform_all (c ∷ cs) s = perform_all cs (perform c s)

abbrev pub view : EnvdContext → Store
view e = record { current = e.current; find = λ k. find_current k e.contexts }

has_context-find : (k : String) (cs : List Context) → has_context k cs ≡ is_some (find_current k cs)
unfolding has_context find_current
has_context-find k [] = refl
has_context-find k (c ∷ cs) =
    ground (arith, has_context-find k cs, str_eq_iff c.name k, str_eq_iff k c.name)

find_current-append :
    (k : String) (cs : List Context) (c : Context)
    → has_context c.name cs ≡ false
    → find_current k (cs ++ (c ∷ [])) ≡ bind_name c (λ j. find_current j cs) k
unfolding has_context find_current
find_current-append k [] c h = refl
find_current-append k (d ∷ cs) c h = ground (
  arith,
  find_current-append k cs c,
  str_eq_iff k c.name,
  str_eq_iff k d.name,
  str_eq_iff d.name c.name,
)

find_current-without_context :
    (k name : String) (cs : List Context)
    → Distinct cs
    → find_current k (without_context name cs) ≡ drop_name name (λ j. find_current j cs) k
unfolding has_context find_current without_context
find_current-without_context k name [] d = ground arith
find_current-without_context k name (c ∷ cs) d = ground (
  arith,
  find_current-without_context k name cs d.1,
  d.0,
  has_context-find k cs,
  str_eq_iff k name,
  str_eq_iff k c.name,
  str_eq_iff c.name name,
)

abbrev store : String → (String → Option Context) → Store
store c f = record { current = c; find = f }

Store-eq :
    (c : String) (f g : String → Option Context)
    → ((k : String) → f k ≡ g k)
    → store c f ≡ store c g
Store-eq c f g h = λ i. store c (λ k. h k i)

context_use-refines :
    (name : String) (io : DumpIo) (m : Manager)
    → view (context_use name io m).0.context ≡ perform (switch name) (view m.context)
unfolding context_use
context_use-refines name io m = elim (Bool-cases (has_context name m.context.contexts)) [
  | inl h ↦ rw (h, context-dump_context, sym (has_context-find name m.context.contexts) ∙ h)
  | inr h ↦ rw (h, sym (has_context-find name m.context.contexts) ∙ h)
]

context_remove-refines :
    (name : String) (io : DumpIo) (m : Manager)
    → IsValid m.context
    → view (context_remove name io m).0.context ≡ perform (remove name) (view m.context)
unfolding context_remove
context_remove-refines name io m v = elim (Bool-cases (has_context name m.context.contexts)) [
  | inr h ↦ rw (h, sym (has_context-find name m.context.contexts) ∙ h)
  | inl h ↦
      rw (h, sym (has_context-find name m.context.contexts) ∙ h)
        (elim (Bool-cases (str_eq m.context.current name)) [
          | inl e ↦ rw e
          | inr e ↦
              rw (e, context-dump_context)
                (Store-eq m.context.current _ _
                  (λ k. find_current-without_context k name m.context.contexts v.distinct))
        ])
]

appended : (c : Context) (cs : List Context) → is_some (find_current c.name (cs ++ (c ∷ []))) ≡ true
appended c cs =
    sym (has_context-find c.name (cs ++ (c ∷ [])))
    ∙ ground (arith, has_context-append c.name cs c, str_eq_iff c.name c.name)

added-refines :
    (c : Context) (use_it : Bool) (io : DumpIo) (m : Manager)
    → has_context c.name m.context.contexts ≡ false
    → view
        (if use_it
          then context_use c.name io (append_context c m)
          else dump_context io (append_context c m)).0.context
      ≡ store
          (if use_it then c.name else m.context.current)
          (bind_name c (λ k. find_current k m.context.contexts))
added-refines c true io m h =
    context_use-refines c.name io (append_context c m)
    ∙ rw (appended c m.context.contexts)
        (Store-eq c.name _ _ (λ k. find_current-append k m.context.contexts c h))
added-refines c false io m h =
    rw context-dump_context
      (Store-eq m.context.current _ _ (λ k. find_current-append k m.context.contexts c h))

context_create-refines :
    (c : Context) (use_it : Bool) (io : DumpIo) (m : Manager)
    → view (context_create c use_it io m).0.context ≡ perform (create c use_it) (view m.context)
unfolding context_create
context_create-refines c use_it io m = elim (Bool-cases (has_context c.name m.context.contexts)) [
  | inl h ↦ rw (h, sym (has_context-find c.name m.context.contexts) ∙ h)
  | inr h ↦
      rw (h, sym (has_context-find c.name m.context.contexts) ∙ h)
        (elim (Bool-cases (known_builder c.builder)) [
          | inr b ↦ rw b
          | inl b ↦ rw b (elim (Bool-cases (known_runner c.runner)) [
            | inr r ↦ rw r
            | inl r ↦ rw r (added-refines c use_it io m h)
          ])
        ])
]

execute-refines :
    (c : Command) (io : DumpIo) (m : Manager)
    → IsValid m.context
    → view (execute c io m).0.context ≡ perform c (view m.context)
unfolding execute
execute-refines (create c use_it) io m v = context_create-refines c use_it io m
execute-refines (switch name) io m v = context_use-refines name io m
execute-refines (remove name) io m v = context_remove-refines name io m v

-- From a valid list, whatever the system answers to the dumps, sequences of commands do to the
-- manager's contexts what they do to a store: creating binds a free name of a known builder and
-- runner, switching sets a bound name, and removing unbinds a name that is not the current one.
pub run-refines :
    (cs : List (Command × DumpIo)) (m : Manager)
    → IsValid m.context
    → view (run cs m).context
      ≡ perform_all (map (λ (c : Command × DumpIo). c.0) cs) (view m.context)
unfolding run
run-refines [] m v = refl
run-refines ((c, io) ∷ rest) m v =
    run-refines rest (execute c io m).0 (execute-IsValid c io m v)
    ∙ ap (perform_all (map (λ (c : Command × DumpIo). c.0) rest)) (execute-refines c io m v)
