-- ===== src/Prelude/Results.antt =====
-- What a call may raise, and the chain of calls that stops at the first that does.
use Prim.Native.String.{String}
use mathlib.Core.Path.{◌≡◌, refl}
use mathlib.Core.Bool.{Bool, true, false}

pub data Exception : Type 0 where
  value_error : String → Exception
  type_error key_error attribute_error os_error file_exists_error file_not_found_error : Exception

pub data Result {ℓ} (A : Type ℓ) : Type ℓ where
  ok : A → Result A
  raise : Exception → Result A

infixl 5 ◌>>=◌
abbrev pub ◌>>=◌ {ℓ κ} : {A : Type ℓ} {B : Type κ} → Result A → (A → Result B) → Result B
ok a >>= f = f a
raise e >>= f = raise e

-- `if b: raise e`, before the rest
abbrev pub raise_if {ℓ} : {A : Type ℓ} → Bool → Exception → Result A → Result A
raise_if true e rest = raise e
raise_if false e rest = rest

pub raise_if_ok {ℓ} :
    {A : Type ℓ} (b : Bool) (e : Exception) (m : Result A) {a : A}
    → raise_if b e m ≡ ok a
    → (b ≡ false) × (m ≡ ok a)
raise_if_ok true e m h = cc
raise_if_ok false e m h = (refl, h)

pub ok_inj {ℓ} : {A : Type ℓ} {a b : A} → ok a ≡ ok b → a ≡ b
ok_inj h = cc

-- A chain that ends well went well at each call.
pub bind_ok {ℓ κ} :
    {A : Type ℓ} {B : Type κ} (call : Result A) (rest : A → Result B) (end : B)
    → (call >>= rest) ≡ ok end
    → (value : A) × ((call ≡ ok value) × (rest value ≡ ok end))
bind_ok (ok a) rest end h = (a, (refl, h))
bind_ok (raise e) rest end h = cc
