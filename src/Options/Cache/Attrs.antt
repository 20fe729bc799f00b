-- ===== src/Options/Cache/Attrs.antt =====
-- Laws of the attributes of an entry.
use envd.Base.{
  false, none, some, [], ◌∷◌, ◌++◌, ◌≡◌, refl, ap, arith, inl, inr, Bool-cases, if◌then◌else◌,
}
use envd.Base.Text.{Text, text_eq, text_eq_iff}
use envd.Options.Cache.{Attrs, get_attr, put_attr, delete_attr}

pub get_attr-put_attr :
    (m : Attrs) (k j v : Text)
    → get_attr (put_attr m k v) j ≡ (if text_eq k j then some v else get_attr m j)
unfolding get_attr put_attr
get_attr-put_attr [] k j v = refl
get_attr-put_attr ((i, w) ∷ m) k j v =
    ground (arith, get_attr-put_attr m k j v, text_eq_iff i k, text_eq_iff i j, text_eq_iff k j)

pub get_attr-delete_attr : (m : Attrs) (k : Text) → get_attr (delete_attr m k) k ≡ none
unfolding get_attr delete_attr
get_attr-delete_attr [] k = refl
get_attr-delete_attr ((j, v) ∷ m) k = ground (arith, get_attr-delete_attr m k)

pub get_attr-delete_attr_other :
    (m : Attrs) (k j : Text) → text_eq k j ≡ false → get_attr (delete_attr m k) j ≡ get_attr m j
unfolding get_attr delete_attr
get_attr-delete_attr_other [] k j h = refl
get_attr-delete_attr_other ((i, v) ∷ m) k j h =
    ground
      (arith, get_attr-delete_attr_other m k j h, text_eq_iff i k, text_eq_iff i j, text_eq_iff k j)

-- A key that is not there is put last.
pub put_attr-new :
    (m : Attrs) (k v : Text) → get_attr m k ≡ none → put_attr m k v ≡ m ++ ((k, v) ∷ [])
unfolding get_attr put_attr
put_attr-new [] k v h = refl
put_attr-new ((j, w) ∷ m) k v h = elim (Bool-cases (text_eq j k)) [
  | inl e ↦ ground (arith, e, h)
  | inr e ↦ rw e (ap (λ r. (j, w) ∷ r) (put_attr-new m k v (ground (arith, e, h))))
]

pub get_attr-append :
    (m : Attrs) (k v j : Text)
    → get_attr m j ≡ none
    → text_eq k j ≡ false
    → get_attr (m ++ ((k, v) ∷ [])) j ≡ none
unfolding get_attr
get_attr-append [] k v j h e = rw e
get_attr-append ((i, w) ∷ m) k v j h e = ground (arith, get_attr-append m k v j)
