-- ===== src/Options/Cache/Valid.antt =====
-- The entries that the cache options are parsed into.
use envd.Base.{
  ℕ, Bool, true, false, List, [], ◌∷◌, ◌≡◌, ◌≢◌, refl, ap, inl, inr, Option-cases, if◌then◌else◌,
  All,
}
use mathlib.Core.Path.{subst}
use envd.Base.Text.{Text, codes, text_eq, text_eq_refl}
use envd.Options.{contains}
use envd.Options.Cache.{
  Attrs, get_attr, opt_not_supported, Result, ok, err, bind, Entry, mode_key, ref_key, default_mode,
  checked_kind, parse_fields, fields_of, export_cache, export_or_skip, legacy_entry, attr_map,
  parse_export_cache_csv, parse_exports, parse_export_cache, is_set_attr,
}
use envd.Options.Cache.Attrs.{get_attr-put_attr}

-- What buildkit needs of an entry that is exported.
abbrev pub IsComplete : Entry → Type 0
IsComplete e = (e.kind ≢ []) × (is_set_attr (get_attr e.attrs mode_key) ≡ true)

-- A result that is no error has `P`.
abbrev pub Sure {ℓ κ} : {A : Type ℓ} → (A → Type κ) → Result A → Type κ
Sure P (ok a) = P a
Sure P (err e) = Unit

pub Sure-bind {ℓ ℓ' κ} :
    {A : Type ℓ} {B : Type ℓ'} (P : B → Type κ) (r : Result A) (k : A → Result B)
    → ((a : A) → r ≡ ok a → Sure P (k a))
    → Sure P (bind r k)
Sure-bind P (ok a) k h = h a refl
Sure-bind P (err e) k h = tt

abbrev value_of {ℓ} : {A : Type ℓ} → A → Result A → A
value_of d (ok a) = a
value_of d (err e) = d

pub Sure-if {ℓ κ} :
    {A : Type ℓ} (P : A → Type κ) (b : Bool) (x y : Result A)
    → Sure P x
    → Sure P y
    → Sure P (if b then x else y)
Sure-if P true x y h k = h
Sure-if P false x y h k = k

ok-injective {ℓ} : {A : Type ℓ} (a b : A) → ok a ≡ ok b → a ≡ b
ok-injective a b h = ap (value_of a) h

pub Sure-ok {ℓ κ} : {A : Type ℓ} (P : A → Type κ) (r : Result A) (a : A) → Sure P r → r ≡ ok a → P a
Sure-ok P (ok b) a h e = subst P (ok-injective b a e) h
Sure-ok P (err x) a h e = cc

default_mode-set : (m : Attrs) → is_set_attr (get_attr (default_mode m) mode_key) ≡ true
default_mode-set m = elim (Option-cases (get_attr m mode_key)) [
  | inl e ↦ rw (e, get_attr-put_attr, text_eq_refl)
  | inr (v, e) ↦ rw (e, e)
]

checked_kind-fields :
    (kind : Text) (attrs : Attrs)
    → Sure (λ f. f.kind ≢ []) (checked_kind (record { kind = kind; attrs = attrs }))
checked_kind-fields [] attrs = tt
checked_kind-fields (c ∷ cs) attrs = λ z. cc

-- An entry whose type is checked has one.
pub checked_kind-Sure : (e : Entry) → Sure (λ f. f.kind ≢ []) (checked_kind e)
checked_kind-Sure e = checked_kind-fields e.kind e.attrs

module _ (unicode : ℕ → ℕ) where
  export_csv-Sure : (s : Text) → Sure IsComplete (parse_export_cache_csv unicode s)
  unfolding parse_export_cache_csv
  export_csv-Sure s =
      let fields = bind (fields_of s) (parse_fields unicode (record { kind = []; attrs = [] })) in
      Sure-bind IsComplete (bind fields checked_kind)
        (λ e. ok (record e { attrs = default_mode e.attrs }))
        (λ e h. (
          Sure-ok (λ f. f.kind ≢ []) (bind fields checked_kind) e
              (Sure-bind (λ f. f.kind ≢ []) fields checked_kind (λ g _. checked_kind-Sure g)) h,
          default_mode-set e.attrs,
        ))

  legacy-IsComplete : (s : Text) (m : Attrs) → IsComplete (legacy_entry unicode s m)
  unfolding text_eq get_attr
  legacy-IsComplete s m =
      ((λ z. cc), rw (get_attr-put_attr (default_mode m) ref_key mode_key s) (default_mode-set m))

  typed-Sure :
      (opts : List Text) (s : Text)
      → Sure IsComplete
          (elim opts [ [] ↦ parse_export_cache_csv unicode s | _ ∷ _ ↦ err opt_not_supported ])
  typed-Sure [] s = export_csv-Sure s
  typed-Sure (o ∷ opts) s = tt

  export_cache-Sure : (opts : List Text) (s : Text) → Sure IsComplete (export_cache unicode opts s)
  export_cache-Sure opts s =
      Sure-if IsComplete (contains s (codes "type=")) _ _ (typed-Sure opts s) (
        Sure-bind IsComplete (attr_map unicode [] opts) (λ m. ok (legacy_entry unicode s m))
          (λ m _. legacy-IsComplete s m))

  export_or_skip-Sure :
      (opts : List Text) (s : Text) (rest : Result (List Entry))
      → Sure (All IsComplete) rest
      → Sure (All IsComplete) (export_or_skip unicode opts s rest)
  export_or_skip-Sure opts [] rest h = h
  export_or_skip-Sure opts (c ∷ s) rest h =
      Sure-bind (All IsComplete) (export_cache unicode opts (c ∷ s))
        (λ e. bind rest (λ es. ok (e ∷ es)))
        (λ e k.
          Sure-bind (All IsComplete) rest (λ es. ok (e ∷ es))
            (λ es l. (
              Sure-ok IsComplete (export_cache unicode opts (c ∷ s)) e
                  (export_cache-Sure opts (c ∷ s)) k,
              Sure-ok (All IsComplete) rest es h l,
            )))

  parse_exports-Sure : (opts ss : List Text) → Sure (All IsComplete) (parse_exports unicode opts ss)
  unfolding parse_exports
  parse_exports-Sure opts [] = tt
  parse_exports-Sure opts (s ∷ ss) = export_or_skip-Sure opts s _ (parse_exports-Sure opts ss)

  parse_export_cache-Sure :
      (caches opts : List Text) → Sure (All IsComplete) (parse_export_cache unicode caches opts)
  unfolding parse_export_cache
  parse_export_cache-Sure caches [] = parse_exports-Sure [] caches
  parse_export_cache-Sure [] (o ∷ opts) = tt
  parse_export_cache-Sure (s ∷ []) (o ∷ opts) = parse_exports-Sure (o ∷ opts) (s ∷ [])
  parse_export_cache-Sure (s ∷ t ∷ ss) (o ∷ opts) = tt

  -- Whatever the values of --export-cache and of its old companion option, if they parse then each
  -- entry has a type that is not empty and an attribute "mode".
  pub parse_export_cache-IsComplete :
      (caches opts : List Text) (es : List Entry)
      → parse_export_cache unicode caches opts ≡ ok es
      → All IsComplete es
  parse_export_cache-IsComplete caches opts es h =
      Sure-ok (All IsComplete) _ es (parse_export_cache-Sure caches opts) h
