-- ===== src/Home/Context/Lookup.antt =====
-- Lemmas on the list of contexts, for the loops of pkg/home/context.go.
use envd.Base.{
  String, true, false, ◌||◌, List, [], ◌∷◌, ◌++◌, ◌≡◌, refl, arith, All, str_eq, str_eq_iff, some,
  inl, inr, Bool-cases, sym,
}
use envd.Home.State.{Context}
use envd.Home.Context.{has_context, without_context, find_current}

-- No two contexts share a name.
abbrev pub Distinct : List Context → Type 0
Distinct [] = Unit
Distinct (c ∷ cs) = (has_context c.name cs ≡ false) × Distinct cs

pub has_context-append :
    (n : String) (cs : List Context) (c : Context)
    → has_context n (cs ++ (c ∷ [])) ≡ (has_context n cs || str_eq c.name n)
unfolding has_context
has_context-append n [] c = ground arith
has_context-append n (d ∷ cs) c = ground (arith, has_context-append n cs c)

pub Distinct-append :
    (cs : List Context) (c : Context)
    → has_context c.name cs ≡ false
    → Distinct cs
    → Distinct (cs ++ (c ∷ []))
unfolding has_context
Distinct-append [] c h d = (refl, tt)
Distinct-append (x ∷ cs) c h d = (
  ground
      (arith, has_context-append x.name cs c, str_eq_iff c.name x.name, str_eq_iff x.name c.name),
  Distinct-append cs c (ground arith) d.1,
)

-- Removing a name leaves the other names.
pub has_context-without_context_ne :
    (n name : String) (cs : List Context)
    → str_eq name n ≡ false
    → has_context n (without_context name cs) ≡ has_context n cs
unfolding has_context without_context
has_context-without_context_ne n name [] h = refl
has_context-without_context_ne n name (c ∷ cs) h = ground (
  arith,
  has_context-without_context_ne n name cs h,
  str_eq_iff c.name name,
  str_eq_iff c.name n,
  str_eq_iff name n,
)

pub has_context-without_context-false :
    (n name : String) (cs : List Context)
    → has_context n cs ≡ false
    → has_context n (without_context name cs) ≡ false
unfolding has_context without_context
has_context-without_context-false n name [] h = refl
has_context-without_context-false n name (c ∷ cs) h =
    ground (arith, has_context-without_context-false n name cs)

pub has_context-without_context_self :
    (name : String) (cs : List Context)
    → Distinct cs
    → has_context name (without_context name cs) ≡ false
unfolding has_context without_context
has_context-without_context_self name [] d = refl
has_context-without_context_self name (c ∷ cs) d =
    ground (arith, has_context-without_context_self name cs, str_eq_iff c.name name)

pub Distinct-without_context :
    (name : String) (cs : List Context) → Distinct cs → Distinct (without_context name cs)
unfolding without_context
Distinct-without_context name [] d = tt
Distinct-without_context name (c ∷ cs) d =
    ground
      (arith, Distinct-without_context name cs, has_context-without_context-false c.name name cs)

pub All-without_context {ℓ} :
    (P : Context → Type ℓ) (name : String) (cs : List Context)
    → All P cs
    → All P (without_context name cs)
unfolding without_context
All-without_context P name [] h = h
All-without_context P name (c ∷ cs) h = elim (Bool-cases (str_eq c.name name)) [
  | inl e ↦ rw e h.1
  | inr e ↦ rw e (h.0, All-without_context P name cs h.1)
]

-- What is listed is found, under its own name.
pub find_current-has_context :
    (name : String) (cs : List Context)
    → has_context name cs ≡ true
    → (c : Context) × (find_current name cs ≡ some c) × (c.name ≡ name)
unfolding has_context find_current
find_current-has_context name [] h = cc
find_current-has_context name (c ∷ cs) h = elim (Bool-cases (str_eq name c.name)) [
  | inl e ↦ (c, rw e, sym ((str_eq_iff name c.name).0 e))
  | inr e ↦
      let (d, found, same) =
        find_current-has_context name cs
          (ground (arith, str_eq_iff name c.name, str_eq_iff c.name name)) in
      (d, rw e found, same)
]
