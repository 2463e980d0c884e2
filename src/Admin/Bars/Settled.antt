-- ===== src/Admin/Bars/Settled.antt =====
-- The rounds of `nvmev_proc_bars` take up every change.
use nvme_virt.Prelude.{
  ℕ, zero, suc, ◌≤◌, ◌≡◌, inl, inr, refl, sym, ◌∙◌, ap, List, true, false, Option, some,
  Option-cases, ◌>>=◌, Returns, returns, Returns-bind, Returns-mono, arith,
}
use nvme_virt.Worker.Doorbell.{Completion}
use nvme_virt.Admin.State.{AdminCommand}
use nvme_virt.Admin.Bars.{BarState, is_some, nvmev_proc_bars}
use nvme_virt.Admin.Bars.Round.{
  pending, IsLive, rdy_after, SameRegisters, same_word, queue_after, live-Taken,
}

module _ (host_sq : ℕ → ℕ → List AdminCommand) (host_cq : ℕ → ℕ → List Completion) where
  -- `n` rounds of the dispatcher
  pub rounds : ℕ → BarState → Option BarState
  rounds zero s = some s
  rounds (suc n) s = do s' ← nvmev_proc_bars host_sq host_cq s; rounds n s'

  rounds-settle :
      (n : ℕ) (s : BarState)
      → IsLive s
      → pending s ≤ n
      → Returns
          (λ (s' : BarState).
            (pending s' ≡ 0)
            × SameRegisters s.bar s'.bar
            × (rdy_after s' ≡ rdy_after s)
            × (is_some s'.admin_q ≡ true)
            × (queue_after host_sq host_cq s' ≡ queue_after host_sq host_cq s))
          (rounds n s)
  unfolding rounds
  rounds-settle zero s (inl e) h =
      returns (omega (arith, h), (refl, refl, refl, refl), refl, e, refl)
  rounds-settle zero s (inr e) h = absurd (ground (arith, e, h))
  rounds-settle (suc n) s l h = Returns-bind (live-Taken host_sq host_cq s l) λ s' t.
      let fewer : pending s' ≤ n = elim t.3 [
        | inl z ↦ omega (arith, z)
        | inr less ↦ omega (arith, less, h)
      ] in
      Returns-mono (rounds-settle n s' (inl t.0) fewer)
        λ s'' (none_left, same, rdy, some_queue, queues). (
          none_left,
          (same.0 ∙ t.1.0, same.1 ∙ t.1.1, same.2 ∙ t.1.2, same.3 ∙ t.1.3),
          rdy ∙ t.2,
          some_queue,
          queues ∙ t.4,
        )

  all_taken :
      (s : BarState)
      → is_some s.admin_q ≡ true
      → s.old_aqa ≡ s.bar.u_aqa
      → s.old_asq ≡ s.bar.u_asq
      → s.old_acq ≡ s.bar.u_acq
      → s.old_cc ≡ s.bar.u_cc
      → s.admin_q ≡ some (queue_after host_sq host_cq s)
  all_taken s e a b c d = elim (Option-cases (s.admin_q)) [
    | inl n ↦ absurd (let clash : false ≡ true = (sym (ap is_some n)) ∙ e in cc)
    | inr (queue, q) ↦
        rw
          (
            q,
            a,
            b,
            c,
            d,
            same_word s.bar.u_aqa,
            same_word s.bar.u_asq,
            same_word s.bar.u_acq,
            same_word s.bar.u_cc,
          )
          refl
  ]

  -- Four rounds take up every change that the host has made to the registers, and leave those as the host
  -- wrote them. The device then has an admin queue: its entries are those of the page that a changed
  -- address names, its depths those of `aqa` if that or the address was changed, its head and phase
  -- are reset as the changes ask, and all else is as before. `csts.rdy` is the enable bit, if `cc` was
  -- changed, or as before, if it was not. Condition: there is an admin queue, or a change of `aqa`.
  pub nvmev_proc_bars-settles :
      (s : BarState)
      → IsLive s
      → Returns
          (λ (s' : BarState).
            (s'.old_aqa ≡ s.bar.u_aqa)
            × (s'.old_asq ≡ s.bar.u_asq)
            × (s'.old_acq ≡ s.bar.u_acq)
            × (s'.old_cc ≡ s.bar.u_cc)
            × SameRegisters s.bar s'.bar
            × (s'.bar.rdy ≡ rdy_after s)
            × (s'.admin_q ≡ some (queue_after host_sq host_cq s)))
          (rounds 4 s)
  nvmev_proc_bars-settles s l =
      Returns-mono (rounds-settle 4 s l (ground arith))
        λ s' (none_left, same, rdy, some_queue, queues).
          let a : s'.old_aqa ≡ s'.bar.u_aqa = ground (arith, none_left) in
          let b : s'.old_asq ≡ s'.bar.u_asq = ground (arith, none_left) in
          let c : s'.old_acq ≡ s'.bar.u_acq = ground (arith, none_left) in
          let d : s'.old_cc ≡ s'.bar.u_cc = ground (arith, none_left) in
          let settled : rdy_after s' ≡ s'.bar.rdy = ground (arith, d) in
          (
            a ∙ same.0,
            b ∙ same.1,
            c ∙ same.2,
            d ∙ same.3,
            same,
            sym settled ∙ rdy,
            all_taken s' some_queue a b c d ∙ ap some queues,
          )
