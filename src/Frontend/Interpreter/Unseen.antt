-- ===== src/Frontend/Interpreter/Unseen.antt =====
-- How many of a list of modules the interpreter's cache does not have yet.
use envd.Base.{
  ℕ, ◌+◌, ◌≤◌, ◌<◌, Bool, true, false, ◌||◌, String, Option, none, some, List, [], ◌∷◌, ◌≡◌, inl,
  inr, Bool-cases, arith, str_eq, str_eq_iff,
}
use envd.Base.Dict.{Dict, get, put, get-put, get-put_self}
use envd.Frontend.Interpreter.{Loaded}

unfoldable pub contains : List String → String → Bool
contains [] m = false
contains (u ∷ us) m = str_eq u m || contains us m

abbrev pub one_if_new : Option (Option Loaded) → ℕ
one_if_new none = 1
one_if_new (some _) = 0

-- How many of the names the cache does not have.
unfoldable pub unseen : List String → Dict (Option Loaded) → ℕ
unseen [] c = 0
unseen (u ∷ us) c = one_if_new (get c u) + unseen us c

one_if_new-put :
    (c : Dict (Option Loaded)) (m u : String) (v : Option Loaded)
    → one_if_new (get (put c m v) u) ≤ one_if_new (get c u)
one_if_new-put c m u v = ground (arith, get-put c m u v)

one_if_new-put_self :
    (c : Dict (Option Loaded)) (m u : String) (v : Option Loaded)
    → u ≡ m
    → get c m ≡ none
    → one_if_new (get (put c m v) u) < one_if_new (get c u)
one_if_new-put_self c m u v same e = rw (same, e, get-put_self c m v) (omega arith)

pub unseen-put_le :
    (us : List String) (c : Dict (Option Loaded)) (m : String) (v : Option Loaded)
    → unseen us (put c m v) ≤ unseen us c
unfolding unseen
unseen-put_le [] c m v = omega arith
unseen-put_le (u ∷ us) c m v = omega (arith, one_if_new-put c m u v, unseen-put_le us c m v)

pub unseen-put_lt :
    (us : List String) (c : Dict (Option Loaded)) (m : String) (v : Option Loaded)
    → contains us m ≡ true
    → get c m ≡ none
    → unseen us (put c m v) < unseen us c
unfolding unseen contains
unseen-put_lt [] c m v h e = absurd (cc)
unseen-put_lt (u ∷ us) c m v h e = elim (Bool-cases (str_eq u m)) [
  | inl same ↦
      omega (arith, one_if_new-put_self c m u v ((str_eq_iff u m).0 same) e, unseen-put_le us c m v)
  | inr other ↦ omega (arith, one_if_new-put c m u v, unseen-put_lt us c m v (ground (arith)) e)
]
