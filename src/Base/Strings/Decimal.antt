-- ===== src/Base/Strings/Decimal.antt =====
-- `strconv.Itoa` and `strconv.Atoi` on 64-bit integers.
use Prim.Native.Nat.{ℕ, zero, suc, ◌+◌, ◌-◌, ◌*◌, ◌/◌, ◌%◌, ◌^◌, ◌<◌}
use mathlib.Core.Bool.{Bool, true, false, ◌&&◌}
use mathlib.Core.List.{[], ◌∷◌, ◌++◌}
use mathlib.Core.Option.{Option, none, some}
use mathlib.Core.Path.{◌≡◌, refl, ap, ◌∙◌}
use mathlib.Core.Logic.{inl, inr}
use native.Mathlib.Omega.{arith}
use envd.Base.Tests.{ltb, leb, ◌==◌, if◌then◌else◌, Bool-cases}
use envd.Base.Text.{Text}
use envd.Base.Lists.{All, All-append}
use envd.Base.Strings.Space.{is_space, IsSolid, IsWord}

-- `negsuc n` is -(n + 1).
pub data ℤ : Type 0 where
  pos : ℕ → ℤ
  negsuc : ℕ → ℤ

-- The digits of `n`, most significant first; `n` itself is fuel enough.
unfoldable pub digits_of : ℕ → ℕ → Text
digits_of zero n = []
digits_of (suc f) n =
    let high = digits_of f (n / 10) in
    if ltb n 10 then (48 + n) ∷ [] else high ++ ((48 + n % 10) ∷ [])

unfoldable pub itoa : ℤ → Text
unfolding digits_of
itoa (pos n) = digits_of (suc n) n
itoa (negsuc n) = b'-' ∷ digits_of (suc (suc n)) (suc n)

abbrev pub is_digit : ℕ → Bool
is_digit c = leb 48 c && leb c 57

-- Reads digits behind the value `acc`.
unfoldable pub digits_value : ℕ → Text → Option ℕ
digits_value acc [] = some acc
digits_value acc (c ∷ cs) =
    let rest = digits_value (acc * 10 + (c - 48)) cs in if is_digit c then rest else none

abbrev unsigned : Text → Option ℕ
unsigned [] = none
unsigned (c ∷ cs) = digits_value 0 (c ∷ cs)

abbrev positive : Option ℕ → Option ℤ
positive none = none
positive (some n) = if ltb n (2 ^ 63) then some (pos n) else none

abbrev negative : Option ℕ → Option ℤ
negative none = none
negative (some zero) = some (pos 0)
negative (some (suc n)) = if ltb n (2 ^ 63) then some (negsuc n) else none

-- `none` is an error of syntax or of range.
unfoldable pub atoi : Text → Option ℤ
atoi [] = none
atoi (c ∷ cs) =
    if c == b'-'
    then negative (unsigned cs)
    else if c == b'+'
    then positive (unsigned cs)
    else positive (unsigned (c ∷ cs))

digits_value-append :
    (acc m d : ℕ) (cs : Text)
    → d < 10
    → digits_value acc cs ≡ some m
    → digits_value acc (cs ++ ((48 + d) ∷ [])) ≡ some (m * 10 + d)
unfolding digits_value
digits_value-append acc m d [] h e = ground arith
digits_value-append acc m d (c ∷ cs) h e =
    ground (arith, digits_value-append (acc * 10 + (c - 48)) m d cs h)

digits_value-digits_of : (f n : ℕ) → n < f → digits_value 0 (digits_of f n) ≡ some n
unfolding digits_of
digits_value-digits_of zero n h = absurd (omega arith)
digits_value-digits_of (suc f) n h = elim (Bool-cases (ltb n 10)) [
  | inl e ↦ rw e (unfold digits_value in ground arith)
  | inr e ↦ rw e (
      digits_value-append 0 (n / 10) (n % 10) (digits_of f (n / 10)) (omega arith)
        (digits_value-digits_of f (n / 10) (ground arith))
      ∙ ap some (omega arith))
]

-- Every character of a printed number is a digit.
pub digits_of-digits : (f n : ℕ) → All (λ c. is_digit c ≡ true) (digits_of f n)
unfolding digits_of
digits_of-digits zero n = tt
digits_of-digits (suc f) n = elim (Bool-cases (ltb n 10)) [
  | inl e ↦ rw e (ground arith, tt)
  | inr e ↦ rw e (
      All-append (λ c. is_digit c ≡ true) (digits_of f (n / 10)) _ (digits_of-digits f (n / 10))
        (ground arith, tt))
]

-- The integers of 64 bits.
abbrev pub FitsInt64 : ℤ → Type 0
FitsInt64 (pos n) = n < 2 ^ 63
FitsInt64 (negsuc n) = n < 2 ^ 63

-- A printed number begins with a digit.
digits_of-cases :
    (f n : ℕ) → n < f → (c : ℕ) × (cs : Text) × (digits_of f n ≡ c ∷ cs) × (is_digit c ≡ true)
unfolding digits_of
digits_of-cases zero n h = absurd (omega arith)
digits_of-cases (suc f) n h = elim (Bool-cases (ltb n 10)) [
  | inl e ↦ (48 + n, [], rw e, ground arith)
  | inr e ↦
      let (c, cs, p, d) = digits_of-cases f (n / 10) (ground arith) in
      (c, cs ++ ((48 + n % 10) ∷ []), rw (e, p), d)
]

atoi-digits :
    (c : ℕ) (cs : Text) (n : ℕ)
    → is_digit c ≡ true
    → digits_value 0 (c ∷ cs) ≡ some n
    → n < 2 ^ 63
    → atoi (c ∷ cs) ≡ some (pos n)
unfolding atoi
atoi-digits c cs n d e h = ground arith

atoi-minus :
    (c : ℕ) (cs : Text) (n : ℕ)
    → digits_value 0 (c ∷ cs) ≡ some (suc n)
    → n < 2 ^ 63
    → atoi (b'-' ∷ c ∷ cs) ≡ some (negsuc n)
unfolding atoi
atoi-minus c cs n e h = ground arith

-- `Atoi` reads back what `Itoa` prints, for every 64-bit integer.
pub atoi-itoa : (z : ℤ) → FitsInt64 z → atoi (itoa z) ≡ some z
unfolding itoa
atoi-itoa (pos n) h =
    let (c, cs, p, d) = digits_of-cases (suc n) n (omega arith) in
    rw p (atoi-digits c cs n d (rw p at (digits_value-digits_of (suc n) n (omega arith))) h)
atoi-itoa (negsuc n) h =
    let (c, cs, p, d) = digits_of-cases (suc (suc n)) (suc n) (omega arith) in
    rw p
      (atoi-minus c cs n (rw p at (digits_value-digits_of (suc (suc n)) (suc n) (omega arith))) h)

is_digit-solid : (c : ℕ) → is_digit c ≡ true → is_space c ≡ false
unfolding is_space
is_digit-solid c h = ground arith

digits-IsSolid : (t : Text) → All (λ c. is_digit c ≡ true) t → IsSolid t
digits-IsSolid [] h = tt
digits-IsSolid (c ∷ cs) h = (is_digit-solid c h.0, digits-IsSolid cs h.1)

minus-solid : is_space b'-' ≡ false
unfolding is_space
minus-solid = refl

pub itoa-IsWord : (z : ℤ) → IsWord (itoa z)
unfolding itoa
itoa-IsWord (pos n) =
    let (c, cs, p, d) = digits_of-cases (suc n) n (omega arith) in
    rw p (digits-IsSolid (c ∷ cs) (rw p at (digits_of-digits (suc n) n)))
itoa-IsWord (negsuc n) = (minus-solid, digits-IsSolid _ (digits_of-digits (suc (suc n)) (suc n)))
