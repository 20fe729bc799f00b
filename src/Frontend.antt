-- ===== src/Frontend.antt =====
-- pkg/lang/frontend/starlark/v1: the functions that a build file calls. Here are starlark's values,
-- what the functions ask of starlark and of the system, and how a call ends.
pub mod Install
pub mod Config
pub mod Runtime
pub mod Universe
pub mod Builtins
pub mod Sound
pub mod Interpreter
use envd.Base.{ℕ, zero, suc, ◌^◌, ◌<◌, ◌&&◌, ltb, leb}
use envd.Base.{Bool, true, false, String, Option, none, some, List, [], ◌∷◌, ◌++◌}
use envd.Base.Strings.Decimal.{ℤ}
use envd.Graph.{Graph}
use envd.Graph.Rules.{Error, Outcome, done, failed, panicked}

-- `starlark.Value`. A source is a `DataSourceValue` by its name, and a function is one of
-- a file, by a number.
mutual
  pub data Value : Type 0 where
    none_value other : Value
    flag : Bool → Value
    int : ℤ → Value
    str : String → Value
    list : Values → Value
    mapping : Tuples → Value
    data_source : String → Value
    function : ℕ → Value

  pub data Values : Type 0 where
    nil : Values
    cons : Value → Values → Values

  pub data Tuples : Type 0 where
    end : Tuples
    tuple : Values → Tuples → Tuples

-- The type of the variable that a parameter is unpacked into.
pub data Kind : Type 0 where
  text boolean go_int big_int list_kind mapping_kind any : Kind

-- A parameter as it stands in the call of `UnpackArgs`: a name that ends in "?" is optional.
pub record Param : Type 0 where
  pub name : String
  pub kind : Kind

pub record Args : Type 0 where
  pub positional : List Value
  pub keywords : List (String × Value)

-- `unpack` is `starlark.UnpackArgs`: `none` for its error, else what it stores for each parameter, in
-- order, where `none` leaves the variable as it is. `unpack_positional` is `UnpackPositionalArgs`.
-- `home_dir` is that of `user.Current`, and `none` is its error. `is_missing` is `os.IsNotExist` of
-- `os.Stat`, and `mkdir_all` tells whether `os.MkdirAll` succeeds.
pub record Host : Type 0 where
  pub unpack : String → List Param → Args → Option (List (Option Value))
  pub unpack_positional : String → ℕ → Args → Option (List (Option Value))
  pub parse_digest : String → Option String
  pub is_ip : String → Bool
  pub home_dir : Option String
  pub cache_dir : String
  pub is_missing : String → Bool
  pub mkdir_all : String → Bool

pub data FrontError : Type 0 where
  bad_arguments not_a_string files_exclude_names bad_port bad_owner bad_command : FrontError
  bad_envd_port bad_host_port bad_address bad_source no_data_dir : FrontError
  of_rule : Error → FrontError

-- How a call ends: with a value, an error, or a panic of Go.
pub data Reply : Type 0 where
  returned : Value → Reply
  raised : FrontError → Reply
  crashed : Reply

abbrev pub Step : Type 0
Step = Graph → Graph × Reply

-- What a part of a call gives that does not touch the graph.
pub data Got {ℓ} (A : Type ℓ) : Type ℓ where
  got : A → Got A
  refused : FrontError → Got A
  broken : Got A

infixl 5 ◌>>=◌ ◌>>◌
-- Shut, so that a proof about a chain goes by its steps.
unfoldable pub ◌>>=◌ {ℓ} : {A : Type ℓ} → Got A → (A → Step) → Step
got a >>= k = k a
refused e >>= k = λ g. (g, raised e)
broken >>= k = λ g. (g, crashed)

abbrev pub ◌>>◌ : Got (Unit {0}) → Step → Step
m >> k = m >>= λ _. k

abbrev pub require : Bool → FrontError → Got (Unit {0})
require true e = got tt
require false e = refused e

-- `if err != nil { return nil, err }`
abbrev pub or_refuse {ℓ} : {A : Type ℓ} → FrontError → Option A → Got A
or_refuse e none = refused e
or_refuse e (some a) = got a

-- A call of a function of pkg/lang/ir/v1/interface.go, after which the call returns None or its error.
abbrev pub as_reply : Outcome → Reply
as_reply done = returned none_value
as_reply (failed e) = raised (of_rule e)
as_reply panicked = crashed

abbrev pub ir : (Graph → Graph × Outcome) → Step
ir rule g = let (g', o) = rule g in (g', as_reply o)

-- The call that does nothing.
abbrev pub return : Value → Step
return v g = (g, returned v)

-- What is stored for the parameter at a place.
abbrev pub stored : ℕ → List (Option Value) → Option Value
stored n [] = none
stored zero (v ∷ vs) = v
stored (suc n) (v ∷ vs) = stored n vs

-- The variable behind a parameter, from what it holds before.
abbrev pub text_or : String → Option Value → String
text_or d (some (str s)) = s
text_or d _ = d

abbrev pub flag_or : Bool → Option Value → Bool
flag_or d (some (flag b)) = b
flag_or d _ = d

abbrev pub int_or : ℤ → Option Value → ℤ
int_or d (some (int z)) = z
int_or d _ = d

-- `none` is a nil pointer.
abbrev pub list_or_nil : Option Value → Option Values
list_or_nil (some (list vs)) = some vs
list_or_nil _ = none

abbrev pub mapping_or_nil : Option Value → Option Tuples
mapping_or_nil (some (mapping ts)) = some ts
mapping_or_nil _ = none

push_string : Value → Option (List String) → Option (List String)
push_string (str s) (some ss) = some (s ∷ ss)
push_string _ _ = none

unfoldable pub strings_of : Values → Option (List String)
unfolding push_string
strings_of nil = some []
strings_of (cons v vs) = push_string v (strings_of vs)

abbrev strings_or_empty : Option Values → Option (List String)
strings_or_empty none = some []
strings_or_empty (some vs) = strings_of vs

-- `ToStringSlice` of pkg/util/starlarkutil: a nil list is empty, an item that is no string an error.
unfoldable pub to_string_slice : Option Values → Got (List String)
unfolding strings_of
to_string_slice vs = or_refuse not_a_string (strings_or_empty vs)

-- `tuple[0].(starlark.String)`, a type assertion, which panics.
abbrev pub assert_string : Value → Got String
assert_string (str s) = got s
assert_string _ = broken

-- The ports, and the numbers of users and groups, that fit in 16 bits.
abbrev pub Within16 : ℤ → Type 0
Within16 (ℤ.pos n) = n < 65536
Within16 (ℤ.negsuc n) = ⊥

-- `Int64` of a `starlark.Int`: whether it fits.
abbrev pub is_int64 : ℤ → Bool
is_int64 (ℤ.pos n) = ltb n (2 ^ 63)
is_int64 (ℤ.negsuc n) = ltb n (2 ^ 63)

-- `lo <= z && z <= 65535`, for a lo of 0 or 1.
abbrev pub is_between : ℕ → ℤ → Bool
is_between lo (ℤ.pos n) = leb lo n && leb n 65535
is_between lo (ℤ.negsuc n) = false
