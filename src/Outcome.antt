-- ===== src/Outcome.antt =====
-- `Error` and `Result` of src/lib.rs, and methods that change their object and may fail: what such
-- a method wrote before it failed stays written, so the object comes back beside the error too.
use libwing.Prelude.{ap, ℕ, ◌≡◌, refl, ◌⊎◌, inl, inr, Option, none, some}

-- The payload of `Io` is the operating system's.
pub data Error : Type 0 where
  io invalid_data invalid_input connection_error discovery_error : Error
  meter_not_initialized timeout reconnecting : Error
  meter_frame_length : ℕ → ℕ → Error

pub data Result {ℓ} (A : Type ℓ) : Type ℓ where
  ok : A → Result A
  err : Error → Result A

abbrev pub bind {ℓ κ} : {A : Type ℓ} {B : Type κ} → Result A → (A → Result B) → Result B
bind (ok a) f = f a
bind (err e) f = err e

-- `ok_or`.
abbrev pub ok_or {ℓ} : {A : Type ℓ} → Error → Option A → Result A
ok_or e none = err e
ok_or e (some a) = ok a

abbrev pub Exec {ℓ} : Type ℓ → Type ℓ → Type ℓ
Exec S A = S → Result A × S

abbrev pub continue {ℓ} : {S A B : Type ℓ} → Result A → (A → Exec S B) → Exec S B
continue (ok a) f s = f a s
continue (err e) f s = (err e, s)

-- `m?` and then the rest.
abbrev pub and_then {ℓ} : {S A B : Type ℓ} → Result A × S → (A → Exec S B) → Result B × S
and_then (r, s) f = continue r f s

pub Result-cases {ℓ} :
    {A : Type ℓ} (r : Result A) → ((a : A) × (r ≡ ok a)) ⊎ ((e : Error) × (r ≡ err e))
Result-cases (ok a) = inl (a, refl)
Result-cases (err e) = inr (e, refl)

module _ {ℓ} {A : Type ℓ} where
  value_or : A → Result A → A
  value_or d (ok a) = a
  value_or d (err e) = d

  pub ok-injective : {a b : A} → ok a ≡ ok b → a ≡ b
  unfolding value_or
  ok-injective {a} p = ap (value_or a) p

  pub err-ne-ok : {e : Error} {a : A} → err e ≡ ok a → ⊥
  err-ne-ok p = cc

-- The parts of a bind that succeeds.
pub bind-eq-ok {ℓ κ} :
    {A : Type ℓ} {B : Type κ} (m : Result A) (f : A → Result B) {b : B}
    → bind m f ≡ ok b
    → (a : A) × (m ≡ ok a) × (f a ≡ ok b)
bind-eq-ok (ok a) f h = (a, refl, h)
bind-eq-ok (err e) f h = absurd (err-ne-ok h)

pub ok_or-eq-ok {ℓ} :
    {A : Type ℓ} (e : Error) (o : Option A) {a : A} → ok_or e o ≡ ok a → o ≡ some a
ok_or-eq-ok e none h = absurd (err-ne-ok h)
ok_or-eq-ok e (some x) h = ap some (ok-injective h)
