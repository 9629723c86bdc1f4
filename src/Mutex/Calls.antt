-- ===== src/Mutex/Calls.antt =====
-- The calls of a mutex. A call that returns is one by a task that may make it.
use coo_rtos.Base.{
  ℕ, ◌≡◌, refl, ap, sym, ◌∙◌, ◌≢◌, ◌⊎◌, inl, inr, Bool, true, false, Option, none, some, ok, ◌==◌,
  Returns-ok, subst, arith, Bool-cases, ==→eq, trap_ok,
}
use coo_rtos.Kernel.{Kernel}
use coo_rtos.Kernel.Link.{Unlinked}
use coo_rtos.Kernel.Thins.{Thins, Thins-eq, Wakes-Thins, Blocks-Thins, Acts}
use coo_rtos.Mutex.{Mutex, lock_suspend, try_lock, unlock}
use coo_rtos.Mutex.Handover.{
  Sound, Locks, lock_suspend-Locks, lock_twice, try_lock_lem, Unlocks, frees, hands, unlock-Unlocks,
  unlock_trap,
}

pub data Calls (m : Mutex) (k : Kernel) (m' : Mutex) (k' : Kernel) : Type 0 where
  locks :
      (t w h : ℕ) (b : Bool) → Acts t w k → lock_suspend m w h k ≡ ok (b, m', k') → Calls m k m' k'
  tries :
      (t : ℕ) (b : Bool) → k.current ≡ some t → try_lock m k ≡ ok (b, m') → k' ≡ k → Calls m k m' k'
  unlocks : unlock m k ≡ ok (m', k') → Calls m k m' k'

-- What a call leaves behind.
pub record Kept (m : Mutex) (k : Kernel) (m' : Mutex) (k' : Kernel) : Type 0 where
  pub sound : Sound m' k'
  pub same_list : m'.waiters ≡ m.waiters
  pub others : (l : ℕ) → (l == m.waiters) ≡ false → Thins l k k'

pub owner_or :
    (c o : Option ℕ) → ((t : ℕ) × (c ≡ some t) × (o ≡ some t)) ⊎ ((t : ℕ) → c ≡ some t → o ≢ some t)
owner_or none o = inr λ t e. absurd (ground arith)
owner_or (some t) none = inr λ s e d. ground arith
owner_or (some t) (some o) = elim (Bool-cases (o == t)) [
  | inl q ↦ inl (t, refl, ap some (==→eq o t q))
  | inr q ↦ inr λ s e d. ground arith
]

module _ (m : Mutex) (k : Kernel) (v : Sound m k) (m' : Mutex) (k' : Kernel) where
  Locks-Kept :
      (t w h : ℕ) (b : Bool) → Unlinked k w → Sound m' k' → Locks t w h m k b m' k' → Kept m k m' k'
  Locks-Kept t w h b u n (inl a) = record {
    sound = n;
    same_list = a.3;
    others = λ l ne. Thins-eq l k k' a.4;
  }
  Locks-Kept t w h b u n (inr a) = record {
    sound = n;
    same_list = ap (λ (x : Mutex). x.waiters) a.2;
    others = λ l ne. Blocks-Thins l w k u t h (some m.waiters) none k' ne a.3;
  }

  Unlocks-Kept : Sound m' k' → Unlocks m k m' k' → Kept m k m' k'
  Unlocks-Kept n (frees z q r) = record {
    sound = n;
    same_list = ap (λ (x : Mutex). x.waiters) q;
    others = λ l ne. Thins-eq l k k' r;
  }
  Unlocks-Kept n (hands w s ws e own q a r) = record {
    sound = n;
    same_list = ap (λ (x : Mutex). x.waiters) q;
    others = λ l ne. Wakes-Thins l k k' w s false a;
  }

  Tries-Kept :
      (t : ℕ) (b : Bool)
      → k' ≡ k
      → Sound m' k
      → ((b ≡ true) × (m.owner ≡ none) × (m'.owner ≡ some t) × (m'.waiters ≡ m.waiters))
        ⊎ ((b ≡ false) × (m.owner ≢ none) × (m' ≡ m))
      → Kept m k m' k'
  Tries-Kept t b z n (inl a) = record {
    sound = subst (Sound m') (sym z) n;
    same_list = a.3;
    others = λ l ne. Thins-eq l k k' z;
  }
  Tries-Kept t b z n (inr a) = record {
    sound = subst (Sound m') (sym z) n;
    same_list = ap (λ (x : Mutex). x.waiters) a.2;
    others = λ l ne. Thins-eq l k k' z;
  }

  pub Calls-Kept : Calls m k m' k' → Kept m k m' k'
  Calls-Kept (locks t w h b a e) = elim (owner_or (some t) m.owner) [
    | inl q ↦
        absurd (trap_ok (sym (lock_twice m k v t a.current w h a.runs a.fresh (q.2 ∙ sym q.1)) ∙ e))
    | inr ne ↦
        let r =
          Returns-ok (b, m', k')
            (lock_suspend-Locks m k v t a.current w h a.runs a.fresh (ne t refl)) e in
        Locks-Kept t w h b a.fresh r.0 r.1
  ]
  Calls-Kept (tries t b c e z) =
      let r = Returns-ok (b, m') (try_lock_lem m k v t c) e in Tries-Kept t b z r.0 r.1
  Calls-Kept (unlocks e) = elim (owner_or k.current m.owner) [
    | inl q ↦
        let r = Returns-ok (m', k') (unlock-Unlocks m k v q.0 q.1 q.2) e in Unlocks-Kept r.0 r.1
    | inr ne ↦ absurd (trap_ok (sym (unlock_trap m k v ne) ∙ e))
  ]
