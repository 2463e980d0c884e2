-- ===== src/Admin/Bars/Round.antt =====
-- One round of `nvmev_proc_bars`: it takes up one change, and keeps what all of them lead to.
use nvme_virt.Prelude.{
  ℕ, ◌+◌, ◌<◌, ◌≡◌, ◌≢◌, ◌⊎◌, inl, inr, refl, sym, subst, ◌∙◌, ap, List, true, false, not, some,
  one_if, ◌==◌, if◌then◌else◌, Bool-cases, Option-cases, Returns, returns, Returns-if, arith,
}
use nvme_virt.Worker.Doorbell.{Completion}
use nvme_virt.Admin.State.{AdminCommand, AdminQueue}
use nvme_virt.Admin.Bars.{
  Bar, BarState, is_some, or_new, asqs, acqs, cc_en, cc_shn, take_aqa, take_asq, take_acq, take_cc,
  nvmev_proc_bars,
}

-- the changes that are not taken up
abbrev pub pending : BarState → ℕ
pending s =
    one_if (not (s.old_aqa == s.bar.u_aqa))
    + one_if (not (s.old_asq == s.bar.u_asq))
    + one_if (not (s.old_acq == s.bar.u_acq))
    + one_if (not (s.old_cc == s.bar.u_cc))

-- There is an admin queue, or a change of `aqa` that will make one.
abbrev pub IsLive : BarState → Type 0
IsLive s = (is_some s.admin_q ≡ true) ⊎ (s.old_aqa ≢ s.bar.u_aqa)

-- `csts.rdy` follows the enable bit if the change of `cc` was taken up.
abbrev pub rdy_after : BarState → ℕ
rdy_after s = if s.old_cc == s.bar.u_cc then s.bar.rdy else if cc_en s.bar.u_cc == 1 then 1 else 0

abbrev pub SameRegisters : Bar → Bar → Type 0
SameRegisters b b' =
    (b'.u_aqa ≡ b.u_aqa) × (b'.u_asq ≡ b.u_asq) × (b'.u_acq ≡ b.u_acq) × (b'.u_cc ≡ b.u_cc)

pub same_word : (x : ℕ) → (x == x) ≡ true
same_word x = ground arith

module _ (host_sq : ℕ → ℕ → List AdminCommand) (host_cq : ℕ → ℕ → List Completion) where
  -- The admin queue behind all changes: a changed address brings the entries of its pages, a change
  -- of `aqa` or of an address the depths, and the head of the completion queue goes back to its start
  -- at a change of `aqa` or `acq` and at a shutdown.
  abbrev pub queue_after : BarState → AdminQueue
  queue_after s =
      let old = or_new s.admin_q in
      let sqs = asqs s.bar.u_aqa + 1 in
      let cqs = acqs s.bar.u_aqa + 1 in
      let head =
        if s.old_acq == s.bar.u_acq
        then (if s.old_aqa == s.bar.u_aqa then old.cq_head else 0)
        else 0 in
      record {
        phase = if s.old_aqa == s.bar.u_aqa then old.phase else 1;
        sq_depth =
            if s.old_asq == s.bar.u_asq
            then (if s.old_aqa == s.bar.u_aqa then old.sq_depth else sqs)
            else sqs;
        cq_depth =
            if s.old_acq == s.bar.u_acq
            then (if s.old_aqa == s.bar.u_aqa then old.cq_depth else cqs)
            else cqs;
        cq_head =
            if s.old_cc == s.bar.u_cc then head else if cc_shn s.bar.u_cc == 1 then 0 else head;
        nvme_sq = if s.old_asq == s.bar.u_asq then old.nvme_sq else host_sq s.bar.u_asq sqs;
        nvme_cq = if s.old_acq == s.bar.u_acq then old.nvme_cq else host_cq s.bar.u_acq cqs;
      }

  -- one round
  abbrev pub Taken : BarState → BarState → Type 0
  Taken s s' =
      (is_some s'.admin_q ≡ true)
      × SameRegisters s.bar s'.bar
      × (rdy_after s' ≡ rdy_after s)
      × ((pending s' ≡ 0) ⊎ (pending s' < pending s))
      × (queue_after s' ≡ queue_after s)

  aqa-Taken : (s : BarState) → (s.old_aqa == s.bar.u_aqa) ≡ false → Taken s (take_aqa s)
  unfolding take_aqa
  aqa-Taken s q = (
    refl,
    (refl, refl, refl, refl),
    refl,
    inr (ground (arith, q)),
    rw (q, same_word s.bar.u_aqa) refl,
  )

  abbrev holding : BarState → AdminQueue → BarState
  holding s queue = record s { admin_q = some queue }

  asq-Taken :
      (s : BarState) (queue : AdminQueue)
      → (s.old_aqa == s.bar.u_aqa) ≡ true
      → (s.old_asq == s.bar.u_asq) ≡ false
      → Taken (holding s queue) (take_asq host_sq host_cq (some queue) (holding s queue))
  unfolding take_asq
  asq-Taken s queue a q = (
    refl,
    (refl, refl, refl, refl),
    refl,
    inr (ground (arith, q)),
    rw (a, q, same_word s.bar.u_asq) refl,
  )

  acq-Taken :
      (s : BarState) (queue : AdminQueue)
      → (s.old_aqa == s.bar.u_aqa) ≡ true
      → (s.old_acq == s.bar.u_acq) ≡ false
      → Taken (holding s queue) (take_acq host_sq host_cq (some queue) (holding s queue))
  unfolding take_acq
  acq-Taken s queue a q = (
    refl,
    (refl, refl, refl, refl),
    refl,
    inr (ground (arith, q)),
    rw (a, q, same_word s.bar.u_acq) refl,
  )

  cc-Taken :
      (s : BarState) (queue : AdminQueue)
      → (s.old_aqa == s.bar.u_aqa) ≡ true
      → (s.old_acq == s.bar.u_acq) ≡ true
      → (s.old_cc == s.bar.u_cc) ≡ false
      → Returns (Taken (holding s queue)) (take_cc host_sq host_cq (holding s queue))
  unfolding take_cc
  cc-Taken s queue a b q =
      Returns-if (cc_shn s.bar.u_cc == 1)
        (λ w. returns (
          refl,
          (refl, refl, refl, refl),
          ground (arith, q),
          inr (ground (arith, q)),
          rw (a, b, q, w, same_word s.bar.u_cc) refl,
        ))
        (λ w. returns (
          refl,
          (refl, refl, refl, refl),
          ground (arith, q),
          inr (ground (arith, q)),
          rw (a, b, q, w, same_word s.bar.u_cc) refl,
        ))

  round-Taken :
      (s : BarState) (queue : AdminQueue)
      → Returns (Taken (holding s queue)) (nvmev_proc_bars host_sq host_cq (holding s queue))
  unfolding nvmev_proc_bars take_acq take_asq
  round-Taken s queue = elim (Bool-cases (s.old_aqa == s.bar.u_aqa)) [
    | inr q ↦ rw q (returns (aqa-Taken (holding s queue) q))
    | inl a ↦ elim (Bool-cases (s.old_asq == s.bar.u_asq)) [
      | inr q ↦ rw (a, q) (returns (asq-Taken s queue a q))
      | inl b ↦ elim (Bool-cases (s.old_acq == s.bar.u_acq)) [
        | inr q ↦ rw (a, b, q) (returns (acq-Taken s queue a q))
        | inl c ↦ elim (Bool-cases (s.old_cc == s.bar.u_cc)) [
          | inr q ↦ rw (a, b, c, q) (cc-Taken s queue a c q)
          | inl d ↦
              rw (a, b, c, d)
                (returns (refl, (refl, refl, refl, refl), refl, inl (rw (a, b, c, d) refl), refl))
        ]
      ]
    ]
  ]

  pub live-Taken : (s : BarState) → IsLive s → Returns (Taken s) (nvmev_proc_bars host_sq host_cq s)
  live-Taken s (inl e) = elim (Option-cases (s.admin_q)) [
    | inl n ↦ absurd (let clash : false ≡ true = (sym (ap is_some n)) ∙ e in cc)
    | inr (queue, q) ↦
        subst
          (λ o.
            Returns (Taken (record s { admin_q = o }))
              (nvmev_proc_bars host_sq host_cq (record s { admin_q = o })))
          (sym q) (round-Taken s queue)
  ]
  live-Taken s (inr e) =
      let q : (s.old_aqa == s.bar.u_aqa) ≡ false = ground (arith, e) in
      unfold nvmev_proc_bars in (rw q (returns (aqa-Taken s q)))
