-- ===== src/Semaphore/Release.antt =====
-- `CountingSemaphore::release` and `try_acquire`, and what a timeout and a release make of one
-- waiter between them.
use coo_rtos.Base.{
  ℕ, ◌+◌, ◌-◌, ◌<◌, ◌≡◌, refl, ap, ◌≢◌, ◌⊎◌, inl, inr, Bool, true, false, some, List, [], ◌∷◌,
  arith, ltb, ltb→lt, Bool-cases, front, ok, Returns, ◌>>=◌,
}
use coo_rtos.Kernel.{Kernel}
use coo_rtos.Kernel.Wake.{Wakes}
use coo_rtos.Kernel.Handoff.{pop_wake-Wakes, Wakes-Timely}
use coo_rtos.Semaphore.{Semaphore, try_acquire, release, release_to, increment}
use coo_rtos.Semaphore.Grant.{Sound, Takes, Takes-Sound, taken}

-- The three ends of `release`: the unit goes to the first waiter, or to the counter, or is lost at
-- the maximum.
pub data Releases (s : Semaphore) (k : Kernel) (done : Bool) (s' : Semaphore) (k' : Kernel)
    : Type 0 where
  hands :
      (w t : ℕ) (ws : List ℕ)
      → k.wait_lists s.waiters ≡ w ∷ ws
      → (k.nodes w).task ≡ some t
      → done ≡ true
      → s' ≡ s
      → Wakes w false t k k'
      → k'.wait_lists s.waiters ≡ ws
      → Releases s k done s' k'
  counts :
      k.wait_lists s.waiters ≡ []
      → s.count < s.max
      → done ≡ true
      → s' ≡ record s { count = s.count + 1 }
      → k' ≡ k
      → Releases s k done s' k'
  loses :
      k.wait_lists s.waiters ≡ []
      → s.count ≡ s.max
      → done ≡ false
      → s' ≡ s
      → k' ≡ k
      → Releases s k done s' k'

module _ (s : Semaphore) (k : Kernel) (v : Sound s k) where
  release_to-Releases :
      (xs : List ℕ)
      → k.wait_lists s.waiters ≡ xs
      → Returns (λ r. Sound r.1 r.2 × Releases s k r.0 r.1 r.2) (release_to (front xs) s k)
  release_to-Releases (w ∷ ws) e =
      let (t, own, woke) = pop_wake-Wakes k s.waiters w ws v.inv e in
      let (k', r, a) = woke in
      let z : s.count ≢ 0 → ⊥ = λ ne. ground (arith, ap front (v.fair ne)) in
      (
        (true, s, k'),
        ap (λ m. m >>= λ j. ok (true, s, j)) r,
        (
          record {
            inv = a.0;
            timely = Wakes-Timely k k' w t false v.timely a.1;
            bounded = v.bounded;
            width = v.width;
            fair = λ ne. absurd (z ne);
          },
          hands w t ws e own refl refl a.1 a.2,
        ),
      )
  release_to-Releases [] e = elim (Bool-cases (ltb s.count s.max)) [
    | inl c ↦
        let room = ltb→lt s.count s.max c in
        let n : increment s.count ≡ s.count + 1 = omega (arith, v.width) in
        (
          (true, record s { count = s.count + 1 }, k),
          rw (c, n) refl,
          (
            record {
              inv = v.inv;
              timely = v.timely;
              bounded = omega arith;
              width = v.width;
              fair = λ ne. e;
            },
            counts e room refl refl refl,
          ),
        )
    | inr c ↦
        let top : s.count ≡ s.max = ground (arith, v.bounded) in
        ((false, s, k), rw c refl, (v, loses e top refl refl refl))
  ]

  -- `release` never traps. It wakes the first waiter if there is one, and the counter keeps its
  -- value; with no waiter the counter grows by one, or at its maximum stays, and `false` says so.
  pub release-Releases : Returns (λ r. Sound r.1 r.2 × Releases s k r.0 r.1 r.2) (release s k)
  unfolding release
  release-Releases = release_to-Releases (k.wait_lists s.waiters) refl

  -- `try_acquire` takes a unit exactly when there is one, and so never takes one from under a
  -- waiter.
  pub try_acquire-Takes :
      let r = try_acquire s in
      Sound r.1 k
      × (((r.0 ≡ true) × Takes s r.1 × (k.wait_lists s.waiters ≡ []))
          ⊎ ((r.0 ≡ false) × (s.count ≡ 0) × (r.1 ≡ s)))
  unfolding try_acquire
  try_acquire-Takes = elim (Bool-cases (ltb 0 s.count)) [
    | inl c ↦
        let h = ltb→lt 0 s.count c in
        let a = taken s h in
        rw c (
          Takes-Sound s (record s { count = s.count - 1 }) k v a,
          inl (refl, a, v.fair (omega arith)),
        )
    | inr c ↦ rw c (v, inr (refl, ground arith, refl))
  ]
