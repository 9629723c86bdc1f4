-- ===== src/System/Undisturbed.antt =====
-- What a step of the system does to the objects that it is no call of.
use coo_rtos.Base.{ℕ, ◌≡◌, ◌≢◌, refl, ap, sym, ◌∙◌, true, false, Option, some, arith, ◌==◌}
use coo_rtos.Kernel.Thins.{Thins}
use coo_rtos.System.{Object, semaphore, mutex, group, queue, uses, System, Step}
use coo_rtos.System.Sound.{Good}
use coo_rtos.System.Steps.{touched, Effect, quiet, calls, Step-Effect}

pub some_inj : {a b : ℕ} → some a ≡ some b → a ≡ b
some_inj e = cc

module _ {T : Type 0} where
  -- A step leaves an object alone, and takes from its wait lists at most.
  pub record Undisturbed (i : ℕ) (s s' : System T) : Type 0 where
    pub same : s'.objects i ≡ s.objects i
    pub thins : (l : ℕ) → uses (s.objects i) l ≡ true → Thins l s.kernel s'.kernel

  module _ (s s' : System T) (g : Good s) (i : ℕ) where
    Effect-Undisturbed : (o : Option ℕ) → Effect s s' o → o ≢ some i → Undisturbed i s s'
    Effect-Undisturbed _ (quiet e a) ne = record {
      same = ap (λ (os : ℕ → Object T). os i) e;
      thins = λ l u. a.thins l;
    }
    Effect-Undisturbed _ (calls j o' k' a z) ne =
        let d : i ≢ j = λ e. ne (ap some (sym e)) in
        let n : (i == j) ≡ false = ground (arith, d) in
        rw z (record { same = rw n refl; thins = λ l u. a.others l (g.apart i j d l u) })

    pub Step-Undisturbed : (a : Step s s') → touched a ≢ some i → Undisturbed i s s'
    Step-Undisturbed a ne = Effect-Undisturbed (touched a) (Step-Effect s s' g a) ne

  abbrev pub kind : Object T → ℕ
  kind (semaphore s) = 0
  kind (mutex m) = 1
  kind (group g) = 2
  kind (queue q) = 3

  -- Objects of different kinds are not the same.
  pub other_kind :
      (s : System T) (i j : ℕ) (o o' : Object T)
      → s.objects i ≡ o
      → s.objects j ≡ o'
      → (kind o == kind o') ≡ false
      → some j ≢ some i
  other_kind s i j o o' e f ne = λ h.
      let same : kind o ≡ kind o' =
        ap kind (sym e) ∙ ap (λ n. kind (s.objects n)) (some_inj (sym h)) ∙ ap kind f in
      absurd (ground (arith, same))
