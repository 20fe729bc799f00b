-- ===== src/Base/Native.antt =====
-- Building native strings: `fmt.Sprintf` and `strings.Join`.
use Prim.Native.Nat.{ℕ, compare, Ordering}
use mathlib.Core.Path.{◌≡◌, refl}
use Prim.Native.Char.{Char, code, IsScalar}
use Prim.Native.String.{String, ◌++◌}
use mathlib.Core.List.{List, [], ◌∷◌}
use mathlib.Core.Option.{Option, none, some}
use mathlib.Core.Bool.{Bool, true, false, ◌&&◌}
use envd.Base.Tests.{◌==◌, if◌then◌else◌}
use envd.Base.Text.{Text}
use envd.Base.Strings.Decimal.{ℤ, itoa}

-- The pieces of a format, one behind the other.
abbrev pub cat : List String → String
cat [] = ""
cat (s ∷ ss) = s ++ cat ss

-- `strings.Join(l, sep)`
unfoldable pub join_with : String → List String → String
join_with sep [] = ""
join_with sep (s ∷ []) = s
join_with sep (s ∷ t ∷ ss) = s ++ (sep ++ join_with sep (t ∷ ss))

scalar_of :
    (n : ℕ) (below above bound : Ordering)
    → compare n 55296 ≡ below
    → compare 57343 n ≡ above
    → compare n 1114112 ≡ bound
    → Option (IsScalar n)
scalar_of n Ordering.lt _ _ e f h = some (rw e tt)
scalar_of n Ordering.eq Ordering.lt Ordering.lt e f h = some (rw (e, f, h) tt)
scalar_of n Ordering.gt Ordering.lt Ordering.lt e f h = some (rw (e, f, h) tt)
scalar_of n _ _ _ e f h = none

-- The character of a code point. A number that is none, as a surrogate, becomes U+FFFD.
char_of : ℕ → Char
char_of n =
    elim (scalar_of n (compare n 55296) (compare 57343 n) (compare n 1114112) refl refl refl) [
      | none ↦ Char.char 65533 tt
      | some p ↦ Char.char n p
    ]

unfoldable pub to_string : Text → String
unfolding char_of scalar_of
to_string [] = ""
to_string (c ∷ cs) = String.◌∷◌ (char_of c) (to_string cs)

-- `%d`
unfoldable pub decimal : ℤ → String
unfolding to_string
decimal z = to_string (itoa z)

-- Cut at the first `sep`, which is dropped.
unfoldable pub cut_string : ℕ → String → Option (String × String)
cut_string sep String.[] = none
cut_string sep (String.◌∷◌ c s) =
    let rest = cut_string sep s in
    if code c == sep
    then some ("", s)
    else elim rest [ none ↦ none | some (a, z) ↦ some (String.◌∷◌ c a, z) ]

-- `strings.HasPrefix`
unfoldable pub has_prefix : String → String → Bool
has_prefix s String.[] = true
has_prefix String.[] (String.◌∷◌ c p) = false
has_prefix (String.◌∷◌ d s) (String.◌∷◌ c p) = code d == code c && has_prefix s p

-- `strings.TrimSuffix(s, "\n")`
unfoldable pub trim_newline : String → String
trim_newline String.[] = ""
trim_newline (String.◌∷◌ c String.[]) = if code c == 10 then "" else String.◌∷◌ c ""
trim_newline (String.◌∷◌ c (String.◌∷◌ d s)) = String.◌∷◌ c (trim_newline (String.◌∷◌ d s))
