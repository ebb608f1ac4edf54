-- ===== src/Common/Results.antt =====
-- The result of a Python call: the value that it returns, or the exception that it raises.
use mathlib.Core.Path.{◌≡◌, refl}
use mathlib.Core.Bool.{Bool, true, false}
use mathlib.Core.Logic.{◌⊎◌, inl, inr}

pub data Result {ℓ κ} (Exn : Type ℓ) (Value : Type κ) : Type (ℓ ⊔ κ) where
  err : Exn → Result Exn Value
  ok : Value → Result Exn Value

infixl 5 ◌>>=◌ ◌>>◌
-- What follows a call runs on the value that it returned.
abbrev pub ◌>>=◌ {ℓ κ μ} :
    {Exn : Type ℓ} {Value : Type κ} {Next : Type μ}
    → Result Exn Value
    → (Value → Result Exn Next)
    → Result Exn Next
err raised >>= next = err raised
ok value >>= next = next value

abbrev pub ◌>>◌ {ℓ κ} :
    {Exn : Type ℓ} {Value : Type κ} → Result Exn (Unit {0}) → Result Exn Value → Result Exn Value
call >> rest = call >>= λ done. rest

-- A sequence of calls that returned is two calls that did.
module _ {ℓ κ μ} {Exn : Type ℓ} {Value : Type κ} {Next : Type μ} where
  pub >>=-eq-ok :
      (call : Result Exn Value) (next : Value → Result Exn Next) {result : Next}
      → (call >>= next) ≡ ok result
      → (value : Value) × (call ≡ ok value) × (next value ≡ ok result)
  >>=-eq-ok (err raised) next returned = cc
  >>=-eq-ok (ok value) next returned = (value, refl, returned)

module _ {ℓ κ μ} {Exn : Type ℓ} {Value : Type κ} {Next : Type μ} where
  -- A chain raises what its first call raises, or what the rest does.
  pub >>=-eq-err :
      (call : Result Exn Value) (next : Value → Result Exn Next) {exn : Exn}
      → (call >>= next) ≡ err exn
      → (call ≡ err exn) ⊎ ((value : Value) × (next value ≡ err exn))
  >>=-eq-err (err exn) next raised = inl (cc)
  >>=-eq-err (ok value) next raised = inr (value, raised)

pub ok-injective {ℓ κ} :
    {Exn : Type ℓ} {Value : Type κ} {value value' : Value}
    → ◌≡◌ {A = Result Exn Value} (ok value) (ok value')
    → value ≡ value'
ok-injective returned = cc

-- `if test: raise exn`
abbrev pub raise_if {ℓ} : {Exn : Type ℓ} → Bool → Exn → Result Exn (Unit {0})
raise_if false exn = ok tt
raise_if true exn = err exn
