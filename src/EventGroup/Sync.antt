-- ===== src/EventGroup/Sync.antt =====
-- The rendezvous `EventGroup::sync`.
use Prim.Native.Nat.{bit_and, bit_or}
use coo_rtos.Base.{
  ℕ, ◌≡◌, refl, ap, sym, ◌∙◌, ◌&&◌, has, subst, inl, inr, Bool, true, false, none, some, arith,
  ◌==◌, Bool-cases, Returns, ◌>>=◌,
}
use coo_rtos.Kernel.{running, TaskPromise, Kernel, set_payload}
use coo_rtos.Kernel.Link.{Unlinked}
use coo_rtos.Kernel.Block.{Blocks}
use coo_rtos.Kernel.Payload.{pointed-Blocks}
use coo_rtos.EventGroup.Bits.{Fewer, mask_off-Fewer, Fewer-unmet}
use coo_rtos.EventGroup.Frame.{cleared-Sound}
use coo_rtos.EventGroup.Visit.{holds_for, gather}
use coo_rtos.EventGroup.{
  met, WaitInfo, EventGroup, set_info, mask_off, set, wait_after, sync_after, sync_suspend,
}
use coo_rtos.EventGroup.Set.{Sound, Sets, set-Sets}
use coo_rtos.EventGroup.Wait.{blocked-Sound}

-- All the bits that the awaiter `w` waits for are among `candidate`.
abbrev pub complete : EventGroup → ℕ → ℕ → Bool
complete g w candidate = bit_and candidate (g.infos w).want == (g.infos w).want

-- After `set` has made `g₁` and `k₁`, the last participant goes on, and any other waits.
pub data Syncs (t w h bits : ℕ) (g : EventGroup) (g₁ : EventGroup) (k₁ : Kernel) (suspended : Bool)
    (g' : EventGroup) (k' : Kernel) : Type 0 where
  goes_on :
      complete g₁ w (bit_or g.bits bits) ≡ true
      → suspended ≡ false
      → k' ≡ k₁
      → (g'.infos w).result ≡ bit_or g.bits bits
      → g'.bits ≡ mask_off g₁.bits (g₁.infos w).want
      → g'.waiters ≡ g₁.waiters
      → Syncs t w h bits g g₁ k₁ suspended g' k'
  waits :
      complete g₁ w (bit_or g.bits bits) ≡ false
      → suspended ≡ true
      → g' ≡ g₁
      → Blocks t w (some g₁.waiters) h none (set_payload w k₁) k'
      → Syncs t w h bits g g₁ k₁ suspended g' k'

module _ (g : EventGroup) (k : Kernel) (v : Sound g k) (t w h : ℕ) (e : k.current ≡ some t)
    (run : (k.tasks t).state ≡ running) (u : Unlinked k w) (all : (g.infos w).all ≡ true) where
  incomplete-unmet :
      (bits : ℕ) (g₁ : EventGroup) (k₁ : Kernel)
      → Sets bits g k g₁ k₁
      → complete g₁ w (bit_or g.bits bits) ≡ false
      → holds_for g₁ w ≡ false
  unfolding met
  incomplete-unmet bits g₁ k₁ a d =
      let c = bit_or g.bits bits in
      let out : (has w (k.wait_lists g.waiters) && holds_for (record g { bits = c }) w) ≡ false =
        ground (arith, u.not_waiting g.waiters) in
      let all₁ : (g₁.infos w).all ≡ true = ap (λ (i : WaitInfo). i.all) (a.kept w out).0 ∙ all in
      let few : Fewer g₁.bits c =
        subst (λ b. Fewer b c) (sym a.left)
          (mask_off-Fewer c (gather (record g { bits = c }) 0 (k.wait_lists g.waiters))) in
      Fewer-unmet (g₁.infos w) g₁.bits c few (rw all₁ d)

  sync_after-Syncs :
      (bits : ℕ) (g₁ : EventGroup) (k₁ : Kernel)
      → Sets bits g k g₁ k₁
      → Returns
          (λ r. Sound r.1 r.2 × Syncs t w h bits g g₁ k₁ r.0 r.1 r.2)
          (sync_after (bit_or g.bits bits) w h (g₁, k₁))
  unfolding sync_after wait_after
  sync_after-Syncs bits g₁ k₁ a =
      let e₁ = a.runs ∙ e in
      let same = a.awake t (λ b. absurd (ground arith)) in
      let run₁ : (k₁.tasks t).state ≡ running = ap (λ (p : TaskPromise). p.state) same ∙ run in
      let u₁ = a.absent w u in
      let c = bit_or g.bits bits in
      let info = g₁.infos w in
      elim (Bool-cases (complete g₁ w c)) [
        | inl d ↦
            let g' : EventGroup = record (set_info w (record info { result = c }) g₁) {
              bits = mask_off g₁.bits info.want;
            } in
            (
              (false, g', k₁),
              rw d refl,
              (
                cleared-Sound g₁ k₁ w (record info { result = c }) (mask_off g₁.bits info.want)
                    a.sound u₁ (mask_off-Fewer g₁.bits info.want),
                goes_on d refl refl (ground arith) refl refl,
              ),
            )
        | inr d ↦
            let (k', r, b) =
              pointed-Blocks k₁ a.sound.inv a.sound.timely t w h none e₁ run₁ u₁ tt g₁.waiters in
            (
              (true, g₁, k'),
              rw (d, r) refl,
              (
                blocked-Sound g₁ k₁ a.sound t w h e₁ run₁ u₁ none k' b.0 b.1 b.2
                    (incomplete-unmet bits g₁ k₁ a d),
                waits d refl refl b.2,
              ),
            )
      ]

  -- `sync` of a running task sets its bits like `set`, waking the participants whose set is complete.
  -- By the bits before any of them is cleared it goes on itself if its own set is complete, and else
  -- waits. It does not trap.
  pub sync_suspend-Syncs :
      (bits : ℕ)
      → Returns
          (λ r.
            Returns
              (λ s. Sets bits g k s.0 s.1 × Sound r.1 r.2 × Syncs t w h bits g s.0 s.1 r.0 r.1 r.2)
              (set bits g k))
          (sync_suspend bits w h g k)
  unfolding sync_suspend
  sync_suspend-Syncs bits =
      let (s, q, a) = set-Sets g k v bits in
      let (r, p, b) = sync_after-Syncs bits s.0 s.1 a in
      (r, ap (λ x. x >>= sync_after (bit_or g.bits bits) w h) q ∙ p, (s, q, (a, b.0, b.1)))
