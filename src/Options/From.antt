-- ===== src/Options/From.antt =====
-- The option --from, `file:func`, read back.
use envd.Base.{
  ℕ, true, false, none, some, List, [], ◌∷◌, ◌++◌, ◌≡◌, refl, ap, arith, ◌==◌, inl, inr, Bool-cases,
}
use envd.Base.Text.{Text}
use envd.Base.Strings.Space.{has_prefix}
use envd.Plugin.RoundTrip.{Lacks}
use envd.Options.{
  contains, split, default_file, default_func, or_default, from_parts, parse_from_str,
}

pub split-Lacks : (sep : ℕ) (a : Text) → Lacks sep a → split sep a ≡ a ∷ []
unfolding split
split-Lacks sep [] h = refl
split-Lacks sep (c ∷ a) h = rw (h.0, split-Lacks sep a h.1)

pub split-append :
    (sep : ℕ) (a b : Text) → Lacks sep a → split sep (a ++ (sep ∷ b)) ≡ a ∷ split sep b
unfolding split
split-append sep [] b h = ground arith
split-append sep (c ∷ a) b h = rw (h.0, split-append sep a b h.1)

contains-Lacks : (c : ℕ) (a : Text) → Lacks c a → contains a (c ∷ []) ≡ false
unfolding contains has_prefix
contains-Lacks c [] h = refl
contains-Lacks c (d ∷ a) h = ground (arith, h.0, contains-Lacks c a h.1)

contains-append : (c : ℕ) (a b : Text) → contains (a ++ (c ∷ b)) (c ∷ []) ≡ true
unfolding contains has_prefix
contains-append c [] b = ground arith
contains-append c (d ∷ a) b = ground (arith, contains-append c a b)

split-cases : (sep : ℕ) (c : Text) → (x : Text) × (xs : List Text) × (split sep c ≡ x ∷ xs)
unfolding split
split-cases sep [] = ([], [], refl)
split-cases sep (d ∷ c) =
    let (x, xs, same) = split-cases sep c in
    elim (Bool-cases (d == sep)) [
      | inl e ↦ ([], split sep c, rw e)
      | inr e ↦ (d ∷ x, xs, rw (e, same))
    ]

from_parts_many : (a b : Text) (sep : ℕ) (c : Text) → from_parts (a ∷ b ∷ split sep c) ≡ none
from_parts_many a b sep c = ap (λ ts. from_parts (a ∷ b ∷ ts)) ((split-cases sep c).2)

-- For parts without a colon, `file` alone gives the file and the default function, `file:func`
-- gives both, where an empty part stands for its default, and a text with two colons or more is an
-- error.
pub parse_from_str-parts :
    (file func rest : Text)
    → Lacks b':' file
    → Lacks b':' func
    → (parse_from_str file ≡ some (or_default file default_file, default_func))
      × (parse_from_str (file ++ (b':' ∷ func))
          ≡ some (or_default file default_file, or_default func default_func))
      × (parse_from_str (file ++ (b':' ∷ (func ++ (b':' ∷ rest)))) ≡ none)
unfolding parse_from_str
parse_from_str-parts file func rest h k = (
  rw (contains-Lacks b':' file h),
  rw (contains-append b':' file func, split-append b':' file func h, split-Lacks b':' func k),
  rw
      (
        contains-append b':' file (func ++ (b':' ∷ rest)),
        split-append b':' file (func ++ (b':' ∷ rest)) h,
        split-append b':' func rest k,
      )
      (from_parts_many file func b':' rest),
)
