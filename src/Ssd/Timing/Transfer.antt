-- ===== src/Ssd/Timing/Transfer.antt =====
-- The transfers of a read: they end, each starts where the one before ended, and an overlapped one
-- is complete no sooner than its part on the NAND channel.
use nvme_virt.Prelude.{
  ℕ, zero, suc, ◌+◌, ◌-◌, ◌*◌, ◌^◌, ◌≤◌, ◌<◌, Bool, true, false, ◌==◌, arith, min_of, Returns,
  returns, Returns-bind, Returns-if, Returns-mono,
}
use nvme_virt.Channel.Window.{IsValid}
use nvme_virt.Channel.Request.{max_latency, chmodel_request-Answered}
use nvme_virt.Ssd.Timing.{Lanes, Progress, transfer_one, transfer}

pub record LanesValid (l : Lanes) : Type 0 where
  pub chnl : IsValid l.chnl
  pub pcie : IsValid l.pcie

-- From a start time, in at most `rounds` requests to the channel.
pub record Transferred (stime rounds : ℕ) (p : Progress) : Type 0 where
  pub no_sooner : stime ≤ p.chnl_etime
  pub no_later : p.chnl_etime ≤ stime + rounds * max_latency
  pub channel_first : p.chnl_etime ≤ p.completed_time
  pub soon : p.completed_time ≤ p.chnl_etime + max_latency
  pub valid : LanesValid p.lanes

-- One more request in front.
Transferred-trans :
    {stime rounds : ℕ} {p q : Progress}
    → Transferred stime 1 p
    → Transferred p.chnl_etime rounds q
    → Transferred stime (suc rounds) q
Transferred-trans a b = record {
  no_sooner = omega (arith, a.no_sooner, b.no_sooner);
  no_later = omega (arith, a.no_later, b.no_later);
  channel_first = b.channel_first;
  soon = b.soon;
  valid = b.valid;
}

Transferred-more :
    {stime : ℕ} {p : Progress} (rounds : ℕ)
    → Transferred stime 1 p
    → Transferred stime (suc rounds) p
Transferred-more rounds a = record {
  no_sooner = a.no_sooner;
  no_later = omega (arith, a.no_later);
  channel_first = a.channel_first;
  soon = a.soon;
  valid = a.valid;
}

module _ (clock : ℕ → ℕ) where
  transfer_one-Transferred :
      (dma : Bool) (lanes : Lanes) (stime size : ℕ)
      → LanesValid lanes
      → stime + 2 * max_latency ≤ 2 ^ 64
      → Returns (Transferred stime 1) (transfer_one clock dma lanes stime size)
  unfolding transfer_one
  transfer_one-Transferred true lanes stime size v small =
      Returns-bind
        (chmodel_request-Answered (clock lanes.ticks) lanes.chnl stime size v.chnl (omega arith))
        λ (t, chnl) a.
          Returns-bind
            (chmodel_request-Answered (clock (lanes.ticks + 1)) lanes.pcie t size v.pcie
              (omega (arith, a.no_later)))
            λ (done, pcie) b. returns (record {
              no_sooner = a.no_sooner;
              no_later = omega (arith, a.no_later);
              channel_first = b.no_sooner;
              soon = omega (arith, b.no_later);
              valid = record { chnl = a.valid; pcie = b.valid };
            })
  transfer_one-Transferred false lanes stime size v small =
      Returns-bind
        (chmodel_request-Answered (clock lanes.ticks) lanes.chnl stime size v.chnl (omega arith))
        λ (t, chnl) a. returns (record {
          no_sooner = a.no_sooner;
          no_later = omega (arith, a.no_later);
          channel_first = omega arith;
          soon = omega arith;
          valid = record { chnl = a.valid; pcie = v.pcie };
        })

  -- The loop that moves a page in pieces ends within as many rounds as it has bytes: the channel is
  -- done no sooner than it starts and at most the latency of one request later for each round, the
  -- host no sooner than the channel, and the models stay valid. Condition: the pieces are not empty,
  -- something is to be moved, and the 64-bit clock does not overflow.
  pub transfer-Transferred :
      (fuel : ℕ) (dma : Bool) (max_size : ℕ) (lanes : Lanes) (stime remaining : ℕ)
      → LanesValid lanes
      → 0 < max_size
      → 0 < remaining
      → remaining ≤ fuel
      → stime + (fuel + 1) * max_latency ≤ 2 ^ 64
      → Returns (Transferred stime fuel) (transfer clock fuel dma max_size lanes stime remaining)
  unfolding transfer
  transfer-Transferred zero dma max_size lanes stime remaining v m r f small = absurd (omega arith)
  transfer-Transferred (suc fuel) dma max_size lanes stime remaining v m r f small =
      let size = min_of remaining max_size in
      Returns-bind (transfer_one-Transferred dma lanes stime size v (omega arith)) λ p a.
        Returns-if (remaining - size == 0) (λ _. returns (Transferred-more fuel a))
          (λ more.
            Returns-mono
              (transfer-Transferred fuel dma max_size p.lanes p.chnl_etime (remaining - size)
                a.valid m (ground arith) (ground arith) (omega (arith, a.no_later)))
              λ q b. Transferred-trans a b)
