-- ===== src/Options/Cache.antt =====
-- pkg/builder/util.go: the options --import-cache and --export-cache.
pub mod Attrs
pub mod Valid
pub mod Print
use envd.Base.{
  ℕ, Bool, true, false, ◌&&◌, Option, none, some, List, [], ◌∷◌, ◌++◌, ◌+◌, ◌<◌, ltb, leb, ◌==◌,
  if◌then◌else◌,
}
use envd.Base.Text.{Text, codes, text_eq}
use envd.Plugin.{cut_first}
use envd.Options.{contains}
use envd.Options.Csv.{read_record}

-- `map[string]string` on text.
abbrev pub Attrs : Type 0
Attrs = List (Text × Text)

unfoldable pub get_attr : Attrs → Text → Option Text
get_attr [] k = none
get_attr ((j, v) ∷ m) k = if text_eq j k then some v else get_attr m k

unfoldable pub put_attr : Attrs → Text → Text → Attrs
put_attr [] k v = (k, v) ∷ []
put_attr ((j, w) ∷ m) k v = if text_eq j k then (j, v) ∷ m else (j, w) ∷ put_attr m k v

unfoldable pub delete_attr : Attrs → Text → Attrs
delete_attr [] k = []
delete_attr ((j, v) ∷ m) k =
    let rest = delete_attr m k in if text_eq j k then rest else (j, v) ∷ rest

-- `_, ok := m[k]`
abbrev pub is_set_attr : Option Text → Bool
is_set_attr none = false
is_set_attr (some _) = true

pub data Error : Type 0 where
  bad_csv invalid_value type_required single_cache_required opt_not_supported : Error
  output_not_supported bad_destination : Error

pub data Result {ℓ} (A : Type ℓ) : Type ℓ where
  ok : A → Result A
  err : Error → Result A

-- `CacheOptionsEntry`; `kind` is its type.
pub record Entry : Type 0 where
  pub kind : Text
  pub attrs : Attrs

abbrev pub type_key : Text
type_key = codes "type"

abbrev pub mode_key : Text
mode_key = codes "mode"

abbrev pub ref_key : Text
ref_key = codes "ref"

abbrev pub registry : Text
registry = codes "registry"

abbrev pub min_mode : Text
min_mode = codes "min"

-- `m["mode"] = "min"` if the key is missing.
abbrev pub with_mode : Option Text → Attrs → Attrs
with_mode none m = put_attr m mode_key min_mode
with_mode (some _) m = m

abbrev pub default_mode : Attrs → Attrs
default_mode m = with_mode (get_attr m mode_key) m

-- `unicode.ToLower`, whose table beyond ASCII is the parameter.
abbrev pub lower_rune : (ℕ → ℕ) → ℕ → ℕ
lower_rune unicode c =
    if leb b'A' c && leb c b'Z' then c + 32 else if ltb c 128 then c else unicode c

abbrev pub checked_kind : Entry → Result Entry
checked_kind e = elim e.kind [ [] ↦ err type_required | _ ∷ _ ↦ ok e ]

abbrev pub bind {ℓ κ} : {A : Type ℓ} {B : Type κ} → Result A → (A → Result B) → Result B
bind (ok a) k = k a
bind (err e) k = err e

abbrev pub csv_fields : Option (List Text) → Result (List Text)
csv_fields none = err bad_csv
csv_fields (some fs) = ok fs

abbrev pub fields_of : Text → Result (List Text)
fields_of s = csv_fields (read_record s)

module _ (unicode : ℕ → ℕ) where
  -- `strings.ToLower`
  unfoldable pub to_lower : Text → Text
  to_lower [] = []
  to_lower (c ∷ cs) = lower_rune unicode c ∷ to_lower cs

  abbrev pub set_field : Entry → Text → Text → Entry
  set_field e key value =
      if text_eq key type_key
      then record e { kind = value }
      else record e { attrs = put_attr e.attrs key value }

  -- The loop over the fields, which the three options share.
  unfoldable pub parse_fields : Entry → List Text → Result Entry
  parse_fields e [] = ok e
  parse_fields e (f ∷ fs) = elim (cut_first b'=' f) [
    | none ↦ err invalid_value
    | some (k, v) ↦ parse_fields (set_field e (to_lower k) v) fs
  ]

  -- `parseImportCacheCSV`
  unfoldable pub parse_import_cache_csv : Text → Result Entry
  parse_import_cache_csv s =
      bind (bind (fields_of s) (parse_fields (record { kind = []; attrs = [] }))) checked_kind

  abbrev pub import_cache : Text → Result Entry
  import_cache s =
      if contains s (codes "type=")
      then parse_import_cache_csv s
      else ok (record { kind = registry; attrs = (ref_key, s) ∷ [] })

  -- `ParseImportCache`
  unfoldable pub parse_import_cache : List Text → Result (List Entry)
  parse_import_cache [] = ok []
  parse_import_cache (s ∷ ss) =
      bind (import_cache s) (λ e. bind (parse_import_cache ss) (λ es. ok (e ∷ es)))

  -- `attrMap`
  unfoldable pub attr_map : Attrs → List Text → Result Attrs
  attr_map m [] = ok m
  attr_map m (v ∷ vs) = elim (cut_first b'=' v) [
    | none ↦ err invalid_value
    | some (k, w) ↦ attr_map (put_attr m k w) vs
  ]

  -- `parseExportCacheCSV`
  unfoldable pub parse_export_cache_csv : Text → Result Entry
  parse_export_cache_csv s =
      bind
        (bind (bind (fields_of s) (parse_fields (record { kind = []; attrs = [] }))) checked_kind)
        (λ e. ok (record e { attrs = default_mode e.attrs }))

  abbrev legacy_entry : Text → Attrs → Entry
  legacy_entry s m = record { kind = registry; attrs = put_attr (default_mode m) ref_key s }

  abbrev pub export_cache : List Text → Text → Result Entry
  export_cache opts s =
      if contains s (codes "type=")
      then elim opts [ [] ↦ parse_export_cache_csv s | _ ∷ _ ↦ err opt_not_supported ]
      else bind (attr_map [] opts) (λ m. ok (legacy_entry s m))

  abbrev pub export_or_skip : List Text → Text → Result (List Entry) → Result (List Entry)
  export_or_skip opts [] rest = rest
  export_or_skip opts (c ∷ cs) rest =
      bind (export_cache opts (c ∷ cs)) (λ e. bind rest (λ es. ok (e ∷ es)))

  unfoldable pub parse_exports : List Text → List Text → Result (List Entry)
  parse_exports opts [] = ok []
  parse_exports opts (s ∷ ss) = export_or_skip opts s (parse_exports opts ss)

  -- `ParseExportCache`
  unfoldable pub parse_export_cache : List Text → List Text → Result (List Entry)
  parse_export_cache caches [] = parse_exports [] caches
  parse_export_cache (s ∷ []) (o ∷ os) = parse_exports (o ∷ os) (s ∷ [])
  parse_export_cache _ (o ∷ os) = err single_cache_required
