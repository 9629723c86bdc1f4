-- ===== src/EventGroup/Calls.antt =====
-- The calls of an event group, as they reach it from tasks and interrupts.
use coo_rtos.Base.{
  arith, true, ℕ, ◌<◌, ◌≡◌, refl, ap, sym, ◌∙◌, Bool, false, Option, none, some, ok, ◌==◌,
  Returns-ok, subst,
}
use coo_rtos.Tick.{half_range, add_tick}
use coo_rtos.Kernel.{Kernel}
use coo_rtos.Kernel.Link.{Unlinked}
use coo_rtos.Kernel.Thins.{Thins, Thins-eq, Thins-trans, pointed-Thins, Acts}
use coo_rtos.EventGroup.Bits.{mask_off-Fewer, Fewer-unmet}
use coo_rtos.EventGroup.Frame.{cleared-Sound}
use coo_rtos.EventGroup.{
  mask_off, WaitInfo, EventGroup, set_info, set, clear_bits, wait_suspend, wait_for_suspend,
  sync_suspend,
}
use coo_rtos.EventGroup.Set.{Sound, Sets, set-Sets}
use coo_rtos.EventGroup.Wait.{Waits, goes_on, waits, wait_suspend-Waits, wait_for_suspend-Waits}
use coo_rtos.EventGroup.Sync.{Syncs, goes_on, waits, sync_suspend-Syncs}

-- An awaiter is made with its block, `info`, just before its task waits.
pub data Calls (g : EventGroup) (k : Kernel) (g' : EventGroup) (k' : Kernel) : Type 0 where
  sets : (bits : ℕ) → set bits g k ≡ ok (g', k') → Calls g k g' k'
  clears : (bits before : ℕ) → clear_bits bits g ≡ (before, g') → k' ≡ k → Calls g k g' k'
  waits_on :
      (info : WaitInfo) (t w h : ℕ) (b : Bool)
      → Acts t w k
      → wait_suspend w h (set_info w info g) k ≡ ok (b, g', k')
      → Calls g k g' k'
  waits_for :
      (info : WaitInfo) (timeout t w h : ℕ) (b : Bool)
      → timeout < half_range
      → Acts t w k
      → wait_for_suspend timeout w h (set_info w info g) k ≡ ok (b, g', k')
      → Calls g k g' k'
  syncs :
      (info : WaitInfo) (bits t w h : ℕ) (b : Bool)
      → Acts t w k
      → info.all ≡ true
      → sync_suspend bits w h (set_info w info g) k ≡ ok (b, g', k')
      → Calls g k g' k'

-- What a call leaves behind.
pub record Kept (g : EventGroup) (k : Kernel) (g' : EventGroup) (k' : Kernel) : Type 0 where
  pub sound : Sound g' k'
  pub same_list : g'.waiters ≡ g.waiters
  pub others : (l : ℕ) → (l == g.waiters) ≡ false → Thins l k k'

pub fresh-Sound :
    (w : ℕ) (info : WaitInfo) (g : EventGroup) (k : Kernel)
    → Sound g k
    → Unlinked k w
    → Sound (set_info w info g) k
fresh-Sound w info g k v u = cleared-Sound g k w info g.bits v u λ i. omega arith

updated : (g : EventGroup) (w : ℕ) (info : WaitInfo) → (set_info w info g).infos w ≡ info
updated g w info = ground arith

clear_bits-Sound :
    (g : EventGroup) (k : Kernel)
    → Sound g k
    → (bits : ℕ) → let r = clear_bits bits g in Sound r.1 k × (r.1.waiters ≡ g.waiters)
unfolding clear_bits
clear_bits-Sound g k v bits =
    let few = mask_off-Fewer g.bits bits in
    (
      record {
        inv = v.inv;
        timely = v.timely;
        addressed = v.addressed;
        unmet = λ w i. Fewer-unmet (g.infos w) (mask_off g.bits bits) g.bits few (v.unmet w i);
      },
      refl,
    )

module _ (g : EventGroup) (k : Kernel) (g' : EventGroup) (k' : Kernel) where
  Waits-others :
      (t w h : ℕ) (deadline : Option ℕ) (b : Bool)
      → Unlinked k w
      → Waits t w h deadline g k b g' k'
      → (g'.waiters ≡ g.waiters) × ((l : ℕ) → (l == g.waiters) ≡ false → Thins l k k')
  Waits-others t w h deadline b u (goes_on y s q r z n) = (n, λ l ne. Thins-eq l k k' q)
  Waits-others t w h deadline b u (waits y s q a) = (
    ap (λ (x : EventGroup). x.waiters) q,
    λ l ne. pointed-Thins l w k u t h g.waiters deadline k' ne a,
  )

  Syncs-others :
      (t w h bits : ℕ) (g₁ : EventGroup) (k₁ : Kernel) (b : Bool)
      → Unlinked k w
      → Sets bits g k g₁ k₁
      → Syncs t w h bits g g₁ k₁ b g' k'
      → (g'.waiters ≡ g.waiters) × ((l : ℕ) → (l == g.waiters) ≡ false → Thins l k k')
  Syncs-others t w h bits g₁ k₁ b u a (goes_on y s q r z n) =
      (n ∙ a.same_list, λ l ne. Thins-trans l k k₁ k' (a.thins l) (Thins-eq l k₁ k' q))
  Syncs-others t w h bits g₁ k₁ b u a (waits y s q d) = (
    ap (λ (x : EventGroup). x.waiters) q ∙ a.same_list,
    λ l ne. Thins-trans l k k₁ k' (a.thins l) (
        pointed-Thins l w k₁ (a.absent w u) t h g₁.waiters none k'
          (ap (λ m. l == m) a.same_list ∙ ne) d),
  )

  made_with :
      (w : ℕ) (info : WaitInfo)
      → Sound g' k'
      → (g'.waiters ≡ (set_info w info g).waiters)
        × ((l : ℕ) → (l == (set_info w info g).waiters) ≡ false → Thins l k k')
      → Kept g k g' k'
  made_with w info n o = record { sound = n; same_list = o.0; others = o.1 }

pub Calls-Kept :
    (g : EventGroup) (k : Kernel)
    → Sound g k
    → (g' : EventGroup) (k' : Kernel) → Calls g k g' k'
    → Kept g k g' k'
Calls-Kept g k v g' k' (sets bits e) =
    let a = Returns-ok (g', k') (set-Sets g k v bits) e in
    record { sound = a.sound; same_list = a.same_list; others = λ l ne. a.thins l }
Calls-Kept g k v g' k' (clears bits before e z) =
    let r =
      subst (λ (x : ℕ × EventGroup). Sound x.1 k × (x.1.waiters ≡ g.waiters)) e
        (clear_bits-Sound g k v bits) in
    record {
      sound = subst (Sound g') (sym z) r.0;
      same_list = r.1;
      others = λ l ne. Thins-eq l k k' z;
    }
Calls-Kept g k v g' k' (waits_on info t w h b a e) =
    let f = set_info w info g in
    let r =
      Returns-ok (b, g', k')
        (wait_suspend-Waits f k (fresh-Sound w info g k v a.fresh) t w h a.current a.runs a.fresh)
        e in
    made_with g k g' k' w info r.0 (Waits-others f k g' k' t w h none b a.fresh r.1)
Calls-Kept g k v g' k' (waits_for info timeout t w h b short a e) =
    let f = set_info w info g in
    let r =
      Returns-ok (b, g', k')
        (wait_for_suspend-Waits f k (fresh-Sound w info g k v a.fresh) t w h a.current a.runs
          a.fresh timeout short)
        e in
    made_with g k g' k' w info r.0
      (Waits-others f k g' k' t w h (some (add_tick k.tick_count timeout)) b a.fresh r.1)
Calls-Kept g k v g' k' (syncs info bits t w h b a all e) =
    let f = set_info w info g in
    let r =
      Returns-ok (b, g', k')
        (sync_suspend-Syncs f k (fresh-Sound w info g k v a.fresh) t w h a.current a.runs a.fresh
          (ap (λ (i : WaitInfo). i.all) (updated g w info) ∙ all) bits)
        e in
    let (s, q, (n, o, z)) = r in
    made_with g k g' k' w info o (Syncs-others f k g' k' t w h bits s.0 s.1 b a.fresh n z)
