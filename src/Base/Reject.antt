-- ===== src/Base/Reject.antt =====
-- Lists without the entries that pass a test.
use Prim.Native.Nat.{ℕ}
use mathlib.Core.Path.{◌≡◌, refl, ap}
use mathlib.Core.Logic.{inl, inr}
use mathlib.Core.Bool.{Bool, true, false, not, ◌&&◌, ◌||◌}
use mathlib.Core.List.{List, [], ◌∷◌}
use native.Mathlib.Omega.{arith}
use coo_rtos.Base.Tests.{◌==◌, if◌then◌else◌, Bool-cases, ==→eq}
use coo_rtos.Base.Lists.{has, remove}

-- The entries of a list that fail a test, in order.
abbrev pub reject : (ℕ → Bool) → List ℕ → List ℕ
reject p [] = []
reject p (x ∷ xs) = if p x then reject p xs else x ∷ reject p xs

pub has-reject :
    (p : ℕ → Bool) (w : ℕ) (xs : List ℕ) → has w (reject p xs) ≡ (has w xs && not (p w))
has-reject p w [] = refl
has-reject p w (x ∷ xs) = elim (Bool-cases (w == x)) [
  | inl e ↦ ground (arith, has-reject p w xs, ap p (==→eq w x e))
  | inr e ↦ ground (arith, has-reject p w xs)
]

pub reject_none :
    (p : ℕ → Bool) (xs : List ℕ) → ((c : ℕ) → has c xs ≡ true → p c ≡ false) → reject p xs ≡ xs
reject_none p [] h = refl
reject_none p (x ∷ xs) h = ground (arith, h x, reject_none p xs λ c i. h c (ground arith))

pub reject-cong :
    (p q : ℕ → Bool) (xs : List ℕ)
    → ((c : ℕ) → has c xs ≡ true → p c ≡ q c)
    → reject p xs ≡ reject q xs
reject-cong p q [] h = refl
reject-cong p q (x ∷ xs) h = ground (arith, h x, reject-cong p q xs λ c i. h c (ground arith))

pub reject-reject :
    (p q : ℕ → Bool) (xs : List ℕ) → reject p (reject q xs) ≡ reject (λ x. q x || p x) xs
reject-reject p q [] = refl
reject-reject p q (x ∷ xs) = ground (arith, reject-reject p q xs)

pub reject-remove : (w : ℕ) (xs : List ℕ) → remove w xs ≡ reject (λ x. x == w) xs
reject-remove w [] = refl
reject-remove w (x ∷ xs) = ground (arith, reject-remove w xs)
