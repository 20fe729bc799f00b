-- ===== src/Options/Cache/Print.antt =====
-- An entry written as the value of --import-cache, and read back.
use envd.Base.{
  ℕ, true, false, none, some, List, [], ◌∷◌, ◌++◌, map, ◌≡◌, ◌≢◌, refl, ap, ◌∙◌, All, All-append,
}
use mathlib.Core.List.{append-nil, append_assoc}
use envd.Base.Text.{Text, codes, text_eq}
use envd.Base.Strings.Space.{join, has_prefix}
use envd.Plugin.{cut_first}
use envd.Plugin.RoundTrip.{Lacks, cut_first-append}
use envd.Options.{contains}
use envd.Options.Csv.{read_record}
use envd.Options.Csv.Join.{IsPlain, IsPlainChar, comma, read_record-join}
use envd.Options.Cache.{
  Attrs, get_attr, ok, bind, Entry, type_key, to_lower, set_field, parse_fields, checked_kind,
  csv_fields, parse_import_cache_csv, parse_import_cache,
}
use envd.Options.Cache.Attrs.{put_attr-new}

abbrev pub field_of : Text × Text → Text
field_of (k, v) = k ++ (b'=' ∷ v)

abbrev pub type_prefix : Text
type_prefix = codes "type="

-- `type=<kind>,<key>=<value>,…`
abbrev pub print_entry : Entry → Text
print_entry e = join comma ((type_prefix ++ e.kind) ∷ map field_of e.attrs)

-- No key of the rest is among the attributes or occurs twice.
abbrev pub NewKeys : Attrs → Attrs → Type 0
NewKeys m [] = Unit
NewKeys m ((k, v) ∷ rest) = (get_attr m k ≡ none) × NewKeys (m ++ ((k, v) ∷ [])) rest

module _ (unicode : ℕ → ℕ) where
  -- A key in lower case without "=", other than "type", and both texts plain.
  abbrev pub IsAttr : Text × Text → Type 0
  IsAttr (k, v) =
      (to_lower unicode k ≡ k) × Lacks b'=' k × (text_eq k type_key ≡ false) × IsPlain k × IsPlain v

  abbrev pub IsPrintable : Entry → Type 0
  IsPrintable e = (e.kind ≢ []) × IsPlain e.kind × All IsAttr e.attrs × NewKeys [] e.attrs

  parse_fields-field :
      (e : Entry) (f k v : Text) (fs : List Text)
      → cut_first b'=' f ≡ some (k, v)
      → parse_fields unicode e (f ∷ fs)
        ≡ parse_fields unicode (set_field unicode e (to_lower unicode k) v) fs
  unfolding parse_fields
  parse_fields-field e f k v fs h = rw (h, parse_fields)

  set_field-new :
      (kind : Text) (m : Attrs) (k v : Text)
      → text_eq k type_key ≡ false
      → get_attr m k ≡ none
      → set_field unicode (record { kind = kind; attrs = m }) k v
        ≡ record { kind = kind; attrs = m ++ ((k, v) ∷ []) }
  set_field-new kind m k v h n = rw (h, put_attr-new m k v n)

  parse_fields-attrs :
      (kind : Text) (m rest : Attrs)
      → All IsAttr rest
      → NewKeys m rest
      → parse_fields unicode (record { kind = kind; attrs = m }) (map field_of rest)
        ≡ ok (record { kind = kind; attrs = m ++ rest })
  unfolding parse_fields
  parse_fields-attrs kind m [] h n = rw append-nil
  parse_fields-attrs kind m ((k, v) ∷ rest) h n =
      let e : Entry = record { kind = kind; attrs = m } in
      parse_fields-field e (field_of (k, v)) k v (map field_of rest)
        (cut_first-append b'=' k v h.0.1)
      ∙ ap (λ key. parse_fields unicode (set_field unicode e key v) (map field_of rest)) h.0.0
      ∙ ap (λ f. parse_fields unicode f (map field_of rest)) (set_field-new kind m k v h.0.2 n.0)
      ∙ parse_fields-attrs kind (m ++ ((k, v) ∷ [])) rest h.1 n.1
      ∙ rw append_assoc

  field-IsPlain : (a : Text × Text) → IsAttr a → IsPlain (field_of a)
  field-IsPlain (k, v) h = All-append IsPlainChar k (b'=' ∷ v) h.3 ((refl, refl, refl, refl), h.4)

  fields-IsPlain : (m : Attrs) → All IsAttr m → All IsPlain (map field_of m)
  fields-IsPlain [] h = tt
  fields-IsPlain (a ∷ m) h = (field-IsPlain a h.0, fields-IsPlain m h.1)

  type_prefix-IsPlain : IsPlain type_prefix
  type_prefix-IsPlain =
      let plain : (false ≡ false) × (false ≡ false) × (false ≡ false) × (false ≡ false) =
        (refl, refl, refl, refl) in
      (plain, (plain, (plain, (plain, (plain, tt)))))

  type_field-IsPlain : (kind : Text) → IsPlain kind → IsPlain (type_prefix ++ kind)
  type_field-IsPlain kind h = All-append IsPlainChar type_prefix kind type_prefix-IsPlain h

  parse_fields-type :
      (kind : Text) (fs : List Text)
      → parse_fields unicode (record { kind = []; attrs = [] }) ((type_prefix ++ kind) ∷ fs)
        ≡ parse_fields unicode (record { kind = kind; attrs = [] }) fs
  unfolding parse_fields cut_first text_eq to_lower
  parse_fields-type kind fs = refl

  contains-type :
      (kind : Text) (fs : List Text)
      → contains (join comma ((type_prefix ++ kind) ∷ fs)) type_prefix ≡ true
  unfolding contains has_prefix join
  contains-type kind [] = refl
  contains-type kind (f ∷ fs) = refl

  csv_of :
      (s : Text) (fs : List Text) (c : ℕ) (kind : Text) (m : Attrs)
      → read_record s ≡ some fs
      → parse_fields unicode (record { kind = []; attrs = [] }) fs
        ≡ ok (record { kind = c ∷ kind; attrs = m })
      → parse_import_cache_csv unicode s ≡ ok (record { kind = c ∷ kind; attrs = m })
  unfolding parse_import_cache_csv
  csv_of s fs c kind m h k =
      ap
        (λ o.
          bind (bind (csv_fields o) (parse_fields unicode (record { kind = []; attrs = [] })))
            checked_kind)
        h
      ∙ ap (λ r. bind r checked_kind) k

  print_entry-csv :
      (kind : Text) (m : Attrs)
      → kind ≢ []
      → IsPlain kind
      → All IsAttr m
      → NewKeys [] m
      → parse_import_cache_csv unicode (print_entry (record { kind = kind; attrs = m }))
        ≡ ok (record { kind = kind; attrs = m })
  print_entry-csv [] m h p k n = absurd (h refl)
  print_entry-csv (c ∷ kind) m h p k n =
      csv_of _ ((type_prefix ++ (c ∷ kind)) ∷ map field_of m) c kind m
        (read_record-join b't' (codes "ype=" ++ (c ∷ kind)) (map field_of m)
          (type_field-IsPlain (c ∷ kind) p) (fields-IsPlain m k))
        (parse_fields-type (c ∷ kind) (map field_of m) ∙ parse_fields-attrs (c ∷ kind) [] m k n)

  -- An entry with a type, and attributes with distinct keys in lower case, of characters other
  -- than commas, quotes and line breaks (and no "=" in a key), is read back from the value of
  -- --import-cache that names its type and its attributes.
  pub parse_import_cache-print_entry :
      (e : Entry) → IsPrintable e → parse_import_cache unicode (print_entry e ∷ []) ≡ ok (e ∷ [])
  unfolding parse_import_cache
  parse_import_cache-print_entry e h =
      rw (
        contains-type e.kind (map field_of e.attrs),
        print_entry-csv e.kind e.attrs h.0 h.1 h.2 h.3,
      )
