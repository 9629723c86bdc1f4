-- ===== src/Mutex/Handover.antt =====
-- The mutex hands its ownership from task to task in the order of the wait list.
use coo_rtos.Base.{
  ℕ, ◌≡◌, refl, ap, ap₂, ◌∙◌, ◌≢◌, ◌⊎◌, inl, inr, Bool, true, false, Option, none, some, List, [],
  ◌∷◌, arith, ◌==◌, Bool-cases, front, ok, trap, Returns, ◌>>=◌, ==→eq, ==_refl,
}
use coo_rtos.Kernel.{running, Kernel}
use coo_rtos.Kernel.Invariant.{Inv}
use coo_rtos.Kernel.Wake.{Wakes}
use coo_rtos.Kernel.Delay.{Timely}
use coo_rtos.Kernel.Link.{Unlinked}
use coo_rtos.Kernel.Block.{Blocks, block_current-Blocks}
use coo_rtos.Kernel.Handoff.{pop_wake-Wakes, Wakes-Timely}
use coo_rtos.Mutex.{
  Mutex, same_task, lock_suspend, lock_owned, try_lock, try_lock_by, unlock, unlock_to, owns,
}

-- A mutex that nobody owns has no waiters.
pub record Sound (m : Mutex) (k : Kernel) : Type 0 where
  pub inv : Inv k
  pub timely : Timely k
  pub fair : m.owner ≡ none → k.wait_lists m.waiters ≡ []

-- The task gets a free mutex at once, or goes to the end of the wait list of a taken one.
abbrev pub Locks : ℕ → ℕ → ℕ → Mutex → Kernel → Bool → Mutex → Kernel → Type 0
Locks t w h m k suspended m' k' =
    ((suspended ≡ false)
      × (m.owner ≡ none)
      × (m'.owner ≡ some t)
      × (m'.waiters ≡ m.waiters)
      × (k' ≡ k))
    ⊎ ((suspended ≡ true) × (m.owner ≢ none) × (m' ≡ m) × Blocks t w (some m.waiters) h none k k')

module _ (m : Mutex) (k : Kernel) (v : Sound m k) (t : ℕ) (e : k.current ≡ some t) where
  module _ (w h : ℕ) (run : (k.tasks t).state ≡ running) (u : Unlinked k w) where
    lock_owned-Locks :
        (o : Option ℕ)
        → m.owner ≡ o
        → o ≢ some t
        → Returns (λ r. Sound r.1 r.2 × Locks t w h m k r.0 r.1 r.2) (lock_owned o m w h k)
    unfolding lock_owned
    lock_owned-Locks none q ne = (
      (false, record m { owner = k.current }, k),
      refl,
      (
        record { inv = v.inv; timely = v.timely; fair = λ z. v.fair q },
        inl (refl, q, e, refl, refl),
      ),
    )
    lock_owned-Locks (some o) q ne =
        let other : (o == t) ≡ false = ground arith in
        let c : same_task (some o) k.current ≡ false = rw e other in
        let (k', r, b) =
          block_current-Blocks k w t (some m.waiters) h none v.inv v.timely e run u tt in
        (
          (true, m, k'),
          rw c (ap (λ x. x >>= λ j. ok (true, m, j)) r),
          (
            record { inv = b.0; timely = b.1; fair = λ z. absurd (ground arith) },
            inr (refl, ground arith, refl, b.2),
          ),
        )

    -- A task that does not own the mutex can lock it: it owns a free mutex at once, and waits in
    -- turn for a taken one.
    pub lock_suspend-Locks :
        m.owner ≢ some t
        → Returns (λ r. Sound r.1 r.2 × Locks t w h m k r.0 r.1 r.2) (lock_suspend m w h k)
    unfolding lock_suspend
    lock_suspend-Locks ne = lock_owned-Locks m.owner refl ne

    -- The owner that locks again traps.
    pub lock_twice : m.owner ≡ some t → lock_suspend m w h k ≡ trap
    unfolding lock_suspend lock_owned
    lock_twice q =
        let c : same_task (some t) k.current ≡ true = rw e (==_refl t) in
        ap (λ o. lock_owned o m w h k) q ∙ rw c refl

  -- `try_lock` gives the task a free mutex, and leaves a taken one alone.
  pub try_lock_lem :
      Returns
        (λ r.
          Sound r.1 k
          × (((r.0 ≡ true) × (m.owner ≡ none) × (r.1.owner ≡ some t) × (r.1.waiters ≡ m.waiters))
              ⊎ ((r.0 ≡ false) × (m.owner ≢ none) × (r.1 ≡ m))))
        (try_lock m k)
  unfolding try_lock
  try_lock_lem = go m.owner refl
    where
      go :
          (o : Option ℕ)
          → m.owner ≡ o
          → Returns
              (λ r.
                Sound r.1 k
                × (((r.0 ≡ true)
                      × (m.owner ≡ none)
                      × (r.1.owner ≡ some t)
                      × (r.1.waiters ≡ m.waiters))
                    ⊎ ((r.0 ≡ false) × (m.owner ≢ none) × (r.1 ≡ m))))
              (try_lock_by k.current m.owner m)
      go none q = (
        (true, record m { owner = some t }),
        ap₂ (λ c o. try_lock_by c o m) e q,
        (record { inv = v.inv; timely = v.timely; fair = λ z. cc }, inl (refl, q, refl, refl)),
      )
      go (some o) q =
          ((false, m), ap₂ (λ c o. try_lock_by c o m) e q, (v, inr (refl, ground arith, refl)))

-- The two ends of `unlock`.
pub data Unlocks (m : Mutex) (k : Kernel) (m' : Mutex) (k' : Kernel) : Type 0 where
  frees : k.wait_lists m.waiters ≡ [] → m' ≡ record m { owner = none } → k' ≡ k → Unlocks m k m' k'
  hands :
      (w s : ℕ) (ws : List ℕ)
      → k.wait_lists m.waiters ≡ w ∷ ws
      → (k.nodes w).task ≡ some s
      → m' ≡ record m { owner = some s }
      → Wakes w false s k k'
      → k'.wait_lists m.waiters ≡ ws
      → Unlocks m k m' k'

foreign : (c o : Option ℕ) → ((t : ℕ) → c ≡ some t → o ≢ some t) → owns c o ≡ false
foreign none o ne = refl
foreign (some t) none ne = refl
foreign (some t) (some u) ne = elim (Bool-cases (u == t)) [
  | inl q ↦ absurd (ne t refl (ap some (==→eq u t q)))
  | inr q ↦ q
]

module _ (m : Mutex) (k : Kernel) (v : Sound m k) where
  unlock_to-Unlocks :
      (xs : List ℕ)
      → k.wait_lists m.waiters ≡ xs
      → Returns (λ r. Sound r.0 r.1 × Unlocks m k r.0 r.1) (unlock_to (front xs) m k)
  unfolding unlock_to
  unlock_to-Unlocks [] e = (
    (record m { owner = none }, k),
    refl,
    (record { inv = v.inv; timely = v.timely; fair = λ z. e }, frees e refl refl),
  )
  unlock_to-Unlocks (w ∷ ws) e =
      let (s, own, woke) = pop_wake-Wakes k m.waiters w ws v.inv e in
      let (k', r, a) = woke in
      let same : record m { owner = (k.nodes w).task } ≡ record m { owner = some s } =
        ap (λ o. record m { owner = o }) own in
      (
        (record m { owner = (k.nodes w).task }, k'),
        ap (λ x. x >>= λ j. ok (record m { owner = (k.nodes w).task }, j)) r,
        (
          record {
            inv = a.0;
            timely = Wakes-Timely k k' w s false v.timely a.1;
            fair = λ z. absurd (ground arith);
          },
          hands w s ws e own same a.1 a.2,
        ),
      )

  -- The owner's `unlock` does not trap. With waiters the mutex is never free in between: the task
  -- of the first one owns it and is ready, and the others wait on in their order. With none it is
  -- free.
  pub unlock-Unlocks :
      (t : ℕ)
      → k.current ≡ some t
      → m.owner ≡ some t
      → Returns (λ r. Sound r.0 r.1 × Unlocks m k r.0 r.1) (unlock m k)
  unfolding unlock
  unlock-Unlocks t e o =
      let c : owns k.current m.owner ≡ true = rw (e, o) (==_refl t) in
      rw c (unlock_to-Unlocks (k.wait_lists m.waiters) refl)

  -- A task that is not the owner, and code that is no task, cannot unlock: it traps.
  pub unlock_trap : ((t : ℕ) → k.current ≡ some t → m.owner ≢ some t) → unlock m k ≡ trap
  unfolding unlock
  unlock_trap ne = rw (foreign k.current m.owner ne) refl
