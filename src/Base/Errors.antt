-- ===== src/Base/Errors.antt =====
-- Byte strings, exceptions as values, and the two monads that the code is translated into.
use Prim.Native.Nat.{ℕ}
use Prim.Native.Char.{code}
use Prim.Native.String.{String}
use mathlib.Core.Path.{◌≡◌, refl, ap}
use mathlib.Core.Logic.{◌⊎◌, inl, inr}
use mathlib.Core.Bool.{Bool, true, false}
use mathlib.Core.List.{List, [], ◌∷◌}
use mathlib.Core.Option.{Option, none, some}

-- A `std::string` is the list of its bytes.
abbrev pub Bytes : Type 0
Bytes = List ℕ

-- The bytes of a string literal of the source.
unfoldable pub text : String → Bytes
text String.[] = []
text (String.◌∷◌ c s) = code c ∷ text s

-- The exceptions that the code throws, with their `what()`.
pub data Error : Type 0 where
  invalid_argument runtime_error logic_error system_error : Bytes → Error

unfoldable pub what : Error → Bytes
what (invalid_argument s) = s
what (runtime_error s) = s
what (logic_error s) = s
what (system_error s) = s

pub data Result {ℓ} (A : Type ℓ) : Type ℓ where
  ok : A → Result A
  err : Error → Result A

-- `if (!b) throw error;`
abbrev pub guard : Bool → Error → Result (Unit {0})
guard false error = err error
guard true error = ok tt

-- An absent value becomes the exception.
abbrev pub or_throw {ℓ} : {A : Type ℓ} → Option A → Error → Result A
or_throw (some value) error = ok value
or_throw none error = err error

-- An exception leaves the rest out.
abbrev pub ◌>>=◌ {ℓ κ} : {A : Type ℓ} {B : Type κ} → Result A → (A → Result B) → Result B
err error >>= rest = err error
ok value >>= rest = rest value

abbrev pub ◌>>◌ {ℓ} : {B : Type ℓ} → Result (Unit {0}) → Result B → Result B
err error >> rest = err error
ok done >> rest = rest

infixl 5 ◌>>=◌ ◌>>◌
pub Result-cases {ℓ} :
    {A : Type ℓ} (r : Result A)
    → ((value : A) × (r ≡ ok value)) ⊎ ((error : Error) × (r ≡ err error))
Result-cases (err error) = inr (error, refl)
Result-cases (ok value) = inl (value, refl)

ok_or {ℓ} : {A : Type ℓ} → A → Result A → A
ok_or a (ok b) = b
ok_or a (err e) = a

pub ok-injective {ℓ} : {A : Type ℓ} {a b : A} → ok a ≡ ok b → a ≡ b
unfolding ok_or
ok-injective {a} h = ap (ok_or a) h
