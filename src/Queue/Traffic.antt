-- ===== src/Queue/Traffic.antt =====
-- A queue in service: any number of calls by tasks and interrupts, with the rest of the system at
-- work between them.
use coo_rtos.Base.{ℕ, ◌+◌, ◌≡◌, List, [], ◌++◌, length}
use coo_rtos.Kernel.{Kernel}
use coo_rtos.Kernel.Invariant.{Inv}
use coo_rtos.Kernel.Delay.{Timely}
use coo_rtos.Kernel.Calm.{Calm}
use coo_rtos.Kernel.Thins.{Thins}
use coo_rtos.Queue.{Queue}
use coo_rtos.Queue.Backlog.{Sound}
use coo_rtos.Queue.Omits.{Omits}
use coo_rtos.Queue.Calls.{Calls, sent_by, received_by}

module _ {ℓ} {T : Type ℓ} where
  -- A step of the rest of the system, after which `gone` of the blocked senders do not wait any more.
  pub record Elsewhere (q : Queue T) (k : Kernel) (gone : ℕ) (k' : Kernel) : Type 0 where
    pub inv : Inv k'
    pub timely : Timely k'
    pub receivers : Thins q.receivers k k'
    pub senders : Thins q.senders k k'
    pub counted : length (k'.wait_lists q.senders) + gone ≡ length (k.wait_lists q.senders)

  -- The clock and the scheduler are such steps.
  pub Calm-Elsewhere :
      (q : Queue T) (k k' : Kernel) (gone : ℕ)
      → Calm k k'
      → length (k'.wait_lists q.senders) + gone ≡ length (k.wait_lists q.senders)
      → Elsewhere q k gone k'
  Calm-Elsewhere q k k' gone a e = record {
    inv = a.inv;
    timely = a.timely;
    receivers = a.thins q.receivers;
    senders = a.thins q.senders;
    counted = e;
  }

  -- A step with the values that it takes in, the values that it hands to receivers, and the number
  -- of values that are withdrawn.
  pub data Step (q : Queue T) (k : Kernel) : List T → List T → ℕ → Queue T → Kernel → Type ℓ where
    calls :
        (q' : Queue T) (k' : Kernel) (c : Calls q k q' k')
        → Step q k (sent_by c) (received_by c) 0 q' k'
    elsewhere : (gone : ℕ) (k' : Kernel) → Elsewhere q k gone k' → Step q k [] [] gone q k'

  -- A history: a sequence of steps, with all that came, all that went and the number of values that
  -- were withdrawn.
  pub data Traffic (q : Queue T) (k : Kernel)
      : List T → List T → ℕ → Queue T → Kernel → Type ℓ where
    idle : Traffic q k [] [] 0 q k
    then_step :
        (came went : List T) (lost : ℕ) (q₁ : Queue T) (k₁ : Kernel) (more out : List T) (gone : ℕ)
        (q' : Queue T) (k' : Kernel)
        → Traffic q k came went lost q₁ k₁
        → Step q₁ k₁ more out gone q' k'
        → Traffic q k (came ++ more) (went ++ out) (gone + lost) q' k'

  -- From the backlog `xs ++ vs`, the values that went out and those that are left are those that
  -- were there and those that came, in that order and less `lost` of them.
  pub record Carried (xs vs came went : List T) (lost : ℕ) (q' : Queue T) (k' : Kernel)
      : Type ℓ where
    pub values : List T
    pub offers : List T
    pub sound : Sound q' k' values offers
    pub order : Omits lost (went ++ (values ++ offers)) ((xs ++ vs) ++ came)
