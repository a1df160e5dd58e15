-- ===== src/Base/Errors.antt =====
-- `anyhow::Result`: a value, or an error with its message.
use Prim.Native.String.{String}
use mathlib.Core.Path.{◌≡◌, refl}
use mathlib.Core.Bool.{Bool, true, false}
use mathlib.Core.Logic.{◌⊎◌, inl, inr}
use mathlib.Core.Option.{Option, none, some}
use stratum_bee.Base.Texts.{Text, codes}

pub data Result {ℓ} (A : Type ℓ) : Type ℓ where
  ok : (value : A) → Result A
  err : (message : Text) → Result A

-- `Err(anyhow!(message))`.
abbrev pub bail {ℓ} : {A : Type ℓ} → String → Result A
bail message = err (codes message)

-- `option.ok_or_else(|| anyhow!(message))`.
abbrev pub ok_or {ℓ} : {A : Type ℓ} → Option A → String → Result A
ok_or none message = bail message
ok_or (some a) message = ok a

-- `if !test { return Err(anyhow!(message)) }`.
abbrev pub ensure : Bool → String → Result (Unit {0})
ensure true message = ok tt
ensure false message = bail message

abbrev pub is_ok {ℓ} : {A : Type ℓ} → Result A → Bool
is_ok (ok a) = true
is_ok (err message) = false

-- The operator `?`, for `do`: the rest of the function runs on a value, and a message is returned.
module _ {ℓ κ} {A : Type ℓ} {B : Type κ} where
  infixl 5 ◌>>=◌
  abbrev pub ◌>>=◌ : Result A → (A → Result B) → Result B
  ok value >>= rest = rest value
  err message >>= rest = err message

  -- Where the function returns a value, the step returned one too.
  pub >>=-eq-ok :
      (step : Result A) (rest : A → Result B) {b : B}
      → (step >>= rest) ≡ ok b
      → (value : A) × (step ≡ ok value) × (rest value ≡ ok b)
  >>=-eq-ok (ok value) rest e = (value, refl, e)
  >>=-eq-ok (err message) rest e = cc

infixl 5 ◌>>◌
abbrev pub ◌>>◌ {κ} : {B : Type κ} → Result (Unit {0}) → Result B → Result B
step >> rest = step >>= (λ done. rest)

pub ok-injective {ℓ} : {A : Type ℓ} {a b : A} → ok a ≡ ok b → a ≡ b
ok-injective e = cc

pub ok_or-eq-ok {ℓ} :
    {A : Type ℓ} (o : Option A) (message : String) {a : A} → ok_or o message ≡ ok a → o ≡ some a
ok_or-eq-ok none message e = cc
ok_or-eq-ok (some b) message e = cc

pub ensure-eq-ok :
    (test : Bool) (message : String) {u : Unit {0}} → ensure test message ≡ ok u → test ≡ true
ensure-eq-ok true message e = refl
ensure-eq-ok false message e = cc

pub Result-cases {ℓ} :
    {A : Type ℓ} (r : Result A) → ((e : Text) × (r ≡ err e)) ⊎ ((a : A) × (r ≡ ok a))
Result-cases (ok a) = inr (a, refl)
Result-cases (err e) = inl (e, refl)
