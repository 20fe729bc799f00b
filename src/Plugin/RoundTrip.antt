-- ===== src/Plugin/RoundTrip.antt =====
-- `ParsePlugin` reads back what `Plugin.String` prints.
use envd.Base.{ℕ, true, false, Option, none, some, [], ◌∷◌, ◌++◌, ◌≡◌, refl, arith, ◌==◌, All}
use envd.Base.Text.{Text}
use envd.Base.Strings.Decimal.{is_digit}
use envd.Plugin.{
  Plugin, plugin_string, cut_first, cut_last, parsed, out_of_range, with_version, parse_extension,
  parse_plugin,
}

-- `c` does not occur.
abbrev pub Lacks : ℕ → Text → Type 0
Lacks sep = All (λ c. (c == sep) ≡ false)

pub cut_first-append :
    (sep : ℕ) (a b : Text) → Lacks sep a → cut_first sep (a ++ (sep ∷ b)) ≡ some (a, b)
unfolding cut_first
cut_first-append sep [] b h = ground arith
cut_first-append sep (c ∷ a) b h = ground (arith, cut_first-append sep a b h.1, h.0)

cut_last-none : (sep : ℕ) (b : Text) → Lacks sep b → cut_last sep b ≡ none
unfolding cut_last
cut_last-none sep [] h = refl
cut_last-none sep (c ∷ b) h = ground (arith, cut_last-none sep b h.1, h.0)

cut_last-append : (sep : ℕ) (a b : Text) → Lacks sep b → cut_last sep (a ++ (sep ∷ b)) ≡ some (a, b)
unfolding cut_last
cut_last-append sep [] b h = ground (arith, cut_last-none sep b h)
cut_last-append sep (c ∷ a) b h = ground (arith, cut_last-append sep a b h)

-- A version begins with a digit and has no dash.
abbrev pub IsVersion : Text → Type 0
IsVersion [] = ⊥
IsVersion (c ∷ cs) = (is_digit c ≡ true) × Lacks b'-' (c ∷ cs)

-- The publisher has no dot, and an extension with no version has no dash.
abbrev pub IsPrintable : Plugin → Type 0
IsPrintable p =
    Lacks b'.' p.publisher
    × (elim p.version [ none ↦ Lacks b'-' p.extension | some v ↦ IsVersion v ])

fields_round_trip :
    (publisher extension : Text) (version : Option Text)
    → let p : Plugin = record { publisher = publisher; extension = extension; version = version } in
      IsPrintable p → parse_plugin (plugin_string p) ≡ parsed p
unfolding parse_plugin parse_extension with_version plugin_string
fields_round_trip publisher extension none h =
    ground (arith, cut_first-append b'.' publisher extension h.0, cut_last-none b'-' extension h.1)
fields_round_trip publisher extension (some []) h = absurd h.1
fields_round_trip publisher extension (some (c ∷ cs)) h = ground (
  arith,
  cut_first-append b'.' publisher (extension ++ (b'-' ∷ c ∷ cs)) h.0,
  cut_last-append b'-' extension (c ∷ cs) h.1.1,
  h.1.0,
)

-- `ParsePlugin` of what `Plugin.String` prints is the plugin, if the publisher has no dot, the
-- version begins with a digit and has no dash, and an extension with no version has no dash.
pub parse_plugin-plugin_string :
    (p : Plugin) → IsPrintable p → parse_plugin (plugin_string p) ≡ parsed p
parse_plugin-plugin_string p h = fields_round_trip p.publisher p.extension p.version h

-- A plugin text that ends in a dash, with a dot before it, makes `ParsePlugin` panic.
pub parse_plugin_panics :
    (publisher extension : Text)
    → Lacks b'.' publisher
    → parse_plugin (publisher ++ (b'.' ∷ (extension ++ (b'-' ∷ [])))) ≡ out_of_range
unfolding parse_plugin parse_extension with_version
parse_plugin_panics publisher extension h = ground (
  arith,
  cut_first-append b'.' publisher (extension ++ (b'-' ∷ [])) h,
  cut_last-append b'-' extension [] tt,
)
