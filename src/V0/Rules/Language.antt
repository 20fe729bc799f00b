-- ===== src/V0/Rules/Language.antt =====
-- Which languages `Base` of pkg/lang/ir/v0/interface.go accepts, and what it makes of them.
use Prim.Native.Char.{Char, code}
use Prim.Native.String.{◌++◌}
use Prim.Native.String.append
use envd.Base.{
  ◌≤◌, some, if◌then◌else◌, Bool, true, false, not, ◌&&◌, String, ◌≡◌, refl, ap, sym, ◌∙◌, inl, inr,
  arith, ◌↔◌, ◌⊎◌, str_eq, str_eq_iff,
}
use envd.Base.Tests.{Bool-cases}
use envd.Base.Strings.Decimal.{is_digit}
use envd.V0.{Graph}
use envd.V0.Rules.{done, split_language, is_supported, set_base, parse_language, base}

-- A version that may stand behind a language: empty, or with a digit in front.
abbrev pub is_version : String → Bool
is_version String.[] = true
is_version (String.◌∷◌ c s) = is_digit (code c)

abbrev has_no_digit : String → Bool
has_no_digit String.[] = true
has_no_digit (String.◌∷◌ c s) = not (is_digit (code c)) && has_no_digit s

append_cons : (c : Char) (s t : String) → String.◌∷◌ c s ++ t ≡ String.◌∷◌ c (s ++ t)
append_cons c s t = append.cons c s t

append_nil : (t : String) → "" ++ t ≡ t
append_nil t = append.nil t

split_language-version : (s : String) → is_version s ≡ true → split_language s ≡ ("", s)
unfolding split_language
split_language-version String.[] h = refl
split_language-version (String.◌∷◌ c s) h = rw h refl

split_language-append :
    (l s : String) → has_no_digit l ≡ true → is_version s ≡ true → split_language (l ++ s) ≡ (l, s)
unfolding split_language
split_language-append String.[] s n h = rw (append_nil s) (split_language-version s h)
split_language-append (String.◌∷◌ c l) s n h = elim (Bool-cases (is_digit (code c))) [
  | inl p ↦ absurd (ground arith)
  | inr p ↦ rw (append_cons c l s, p, split_language-append l s (ground arith) h) refl
]

-- The cut loses nothing, and a version is behind it.
joined :
    (t : String)
    → ((split_language t).0 ++ (split_language t).1 ≡ t) × (is_version (split_language t).1 ≡ true)
unfolding split_language
joined String.[] = (append_nil "", refl)
joined (String.◌∷◌ c s) = elim (Bool-cases (is_digit (code c))) [
  | inl p ↦ rw p (append_nil _, p)
  | inr p ↦ rw p (append_cons c _ _ ∙ ap (λ r. String.◌∷◌ c r) (joined s).0, (joined s).1)
]

is_supported-cases :
    (l : String) → is_supported l ≡ true → (l ≡ "python") ⊎ (l ≡ "r") ⊎ (l ≡ "julia")
is_supported-cases l h = elim (Bool-cases (str_eq l "python")) [
  | inl p ↦ inl ((str_eq_iff l "python").0 p)
  | inr p ↦ elim (Bool-cases (str_eq l "r")) [
    | inl q ↦ inr (inl ((str_eq_iff l "r").0 q))
    | inr q ↦ inr (inr ((str_eq_iff l "julia").0 (ground arith)))
  ]
]

-- A supported language is not empty and has no digit.
supported_lem :
    (l : String) → is_supported l ≡ true → (has_no_digit l ≡ true) × (str_eq l "" ≡ false)
supported_lem l h = elim (is_supported-cases l h) [
  | inl p ↦ rw p (refl, refl)
  | inr (inl p) ↦ rw p (refl, refl)
  | inr (inr p) ↦ rw p (refl, refl)
]

append_not_empty : (l s : String) → str_eq l "" ≡ false → str_eq (l ++ s) "" ≡ false
append_not_empty String.[] s h = absurd (cc)
append_not_empty (String.◌∷◌ c l) s h = elim (Bool-cases (str_eq (String.◌∷◌ c l ++ s) "")) [
  | inl p ↦ absurd (cc ((str_eq_iff (String.◌∷◌ c l ++ s) "").0 p, append_cons c l s))
  | inr p ↦ p
]

base_at :
    (os l s image : String) (g : Graph)
    → is_supported l ≡ true
    → is_version s ≡ true
    → base os (l ++ s) image g ≡ (set_base os image l s g, done)
unfolding base parse_language
base_at os l s image g h v =
    rw
      (
        append_not_empty l s (supported_lem l h).1,
        split_language-append l s (supported_lem l h).0 v,
        h,
      )
      refl

accepted :
    (os t image : String) (g g' : Graph)
    → base os t image g ≡ (g', done)
    → is_supported (split_language t).0 ≡ true
unfolding base parse_language
accepted os t image g g' h = elim (Bool-cases (str_eq t "")) [
  | inl p ↦ absurd (ground arith)
  | inr p ↦ ground arith
]

supported_back : (l : String) → (l ≡ "python") ⊎ (l ≡ "r") ⊎ (l ≡ "julia") → is_supported l ≡ true
supported_back l (inl p) = rw p refl
supported_back l (inr (inl p)) = rw p refl
supported_back l (inr (inr p)) = rw p refl

-- The version is a text of any length with a digit from 0 to 9 in front, or empty.
abbrev pub IsVersion : String → Type 0
IsVersion String.[] = Unit
IsVersion (String.◌∷◌ c s) = (48 ≤ code c) × (code c ≤ 57)

is_version-IsVersion : (s : String) → is_version s ≡ true → IsVersion s
is_version-IsVersion String.[] h = tt
is_version-IsVersion (String.◌∷◌ c s) h = (ground (arith, h), ground (arith, h))

is_version-back : (s : String) → IsVersion s → is_version s ≡ true
is_version-back String.[] h = refl
is_version-back (String.◌∷◌ c s) h = ground (arith, h.0, h.1)

-- `Base` of version 0 accepts a text for the language exactly if it is python, r or julia with a
-- version behind it, which is empty or has a digit in front. The graph then has the name of the
-- language and that version, the system and the image that are given, where an empty one leaves
-- what was there, and is otherwise as it was.
pub base-language :
    (os t image : String) (g g' : Graph)
    → (base os t image g ≡ (g', done)) ↔ (
        (l : String) × (s : String) × ((l ≡ "python") ⊎ (l ≡ "r") ⊎ (l ≡ "julia"))
        × IsVersion s
        × (l ++ s ≡ t)
        × (g' ≡ record g {
          language = record { name = l; version = some s };
          os = if str_eq os "" then g.os else os;
          image = if str_eq image "" then g.image else some image;
        }))
base-language os t image g g' = (
  λ h. (
    (split_language t).0,
    (split_language t).1,
    is_supported-cases _ (accepted os t image g g' h),
    is_version-IsVersion _ (joined t).1,
    (joined t).0,
    ap (λ r. r.0)
        (sym h
          ∙ ap (λ x. base os x image g) (sym (joined t).0)
          ∙ base_at os _ _ image g (accepted os t image g g' h) (joined t).1),
  ),
  λ (l, s, h, v, e, q).
      rw (sym e, q) (base_at os l s image g (supported_back l h) (is_version-back s v)),
)
