-- ===== src/Base/Outcome.antt =====
-- The outcome of code that may stop: RTOS_ASSERT and a violated contract trap, and a loop that
-- runs on fuel may run out of it.
use mathlib.Core.Path.{◌≡◌, ap, sym, ◌∙◌, subst}

pub data Run {ℓ} (A : Type ℓ) : Type ℓ where
  ok : A → Run A
  trap : Run A
  out_of_fuel : Run A

infixl 5 ◌>>=◌ ◌>>◌
abbrev pub ◌>>=◌ {ℓ κ} : {A : Type ℓ} {B : Type κ} → Run A → (A → Run B) → Run B
ok a >>= f = f a
trap >>= f = trap
out_of_fuel >>= f = out_of_fuel

abbrev pub ◌>>◌ {ℓ} : {B : Type ℓ} → Run (Unit {0}) → Run B → Run B
m >> k = m >>= λ _. k

-- Total correctness of an outcome: it is `ok`, and its value satisfies `P`.
abbrev pub Returns {ℓ κ} : {A : Type ℓ} → (A → Type κ) → Run A → Type (ℓ ⊔ κ)
Returns {A} P r = (a : A) × (r ≡ ok a) × P a

abbrev pub value_or {ℓ} : {A : Type ℓ} → A → Run A → A
value_or d (ok a) = a
value_or d trap = d
value_or d out_of_fuel = d

pub ok_inj {ℓ} : {A : Type ℓ} {a b : A} → ok a ≡ ok b → a ≡ b
ok_inj {A} {a} {b} e = ap (value_or a) e

pub trap_ok {ℓ} : {A : Type ℓ} {a : A} → trap ≡ ok a → ⊥
trap_ok e = cc

-- What is known of the value of an outcome holds of any value that it is known to have.
pub Returns-ok {ℓ κ} :
    {A : Type ℓ} {P : A → Type κ} {r : Run A} (a : A) → Returns P r → r ≡ ok a → P a
Returns-ok {A} {P} {r} a p e = subst P (ok_inj (sym p.1 ∙ e)) p.2
