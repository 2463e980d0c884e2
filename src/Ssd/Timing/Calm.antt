-- ===== src/Ssd/Timing/Calm.antt =====
-- A bound on the times of all LUNs, and how a program moves it.
use nvme_virt.Prelude.{
  ℕ, ◌/◌, ◌%◌, ◌+◌, ◌*◌, ◌^◌, ◌≤◌, ◌<◌, ◌≡◌, ◌≢◌, ◌⊎◌, inl, inr, refl, subst, ◌∙◌, some, ◌==◌,
  ==_iff, Bool-cases, Option-cases, Returns, returns, Returns-mono, Returns-bind, u64, div_round_up,
  arith,
}
use nvme_virt.Buffer.{Buffer}
use nvme_virt.Channel.{ChannelModel}
use nvme_virt.Channel.Window.{IsValid}
use nvme_virt.Channel.Request.{max_latency, chmodel_request-Answered}
use nvme_virt.Ssd.Params.{SsdParams}
use nvme_virt.Ssd.Layout.{
  Ppa, ppa_word, unmapped_word, NandLun, SsdChannel, Ssd, get_ch, get_lun, get_cell, get_cell,
}
use nvme_virt.Ssd.Timing.{
  NandCmd, ssd_advance_nand, ssd_advance_pcie, ssd_advance_write_buffer, cmd_stime,
}
use nvme_virt.Ssd.Timing.Advance.{
  array_time, Transfers, SsdValid, Advanced, ssd_advance_nand-Advanced,
}

-- The channel models are valid, every LUN of the geometry exists, and none is busy beyond `by`.
pub record Calm (spp : SsdParams) (by : ℕ) (ssd : Ssd) : Type 0 where
  pub valid : SsdValid ssd
  pub params : ssd.sp ≡ spp
  pub luns :
      (q : Ppa)
      → q.ch < spp.nchs
      → q.lun < spp.luns_per_ch
      → (lun : NandLun) × (get_lun ssd q ≡ some lun) × (lun.next_lun_avail_time ≤ by)

pub Calm-mono : {spp : SsdParams} {t u : ℕ} {ssd : Ssd} → t ≤ u → Calm spp t ssd → Calm spp u ssd
Calm-mono h c = record {
  valid = c.valid;
  params = c.params;
  luns = λ q i j. let (x, e, le) = c.luns q i j in (x, e, omega (arith, le, h));
}

-- `get_cell`
abbrev pub cell_of : SsdParams → Ppa → ℕ
cell_of spp ppa = (ppa.pg / spp.pgs_per_flashpg) % (spp.cell_mode + 1)

-- The time that a command takes at most, besides its wait: on the NAND array and for its transfers.
abbrev pub op_cost : ℕ → ℕ → ℕ
op_cost lat xfer_size = lat + (xfer_size + 2) * max_latency

abbrev pub write_cost : SsdParams → ℕ → ℕ
write_cost spp xfer_size = op_cost spp.pg_wr_lat xfer_size

get_ch-get_lun :
    (ssd : Ssd) (q : Ppa) {lun : NandLun}
    → get_lun ssd q ≡ some lun
    → (ch : SsdChannel) × (get_ch ssd q ≡ some ch)
unfolding get_lun
get_ch-get_lun ssd q h = elim (Option-cases (get_ch ssd q)) [
  | inl e ↦ absurd (ground arith)
  | inr r ↦ r
]

get_lun_cong : (ssd : Ssd) (p q : Ppa) → p.ch ≡ q.ch → p.lun ≡ q.lun → get_lun ssd p ≡ get_lun ssd q
unfolding get_lun get_ch
get_lun_cong ssd p q c l = rw c (rw l refl)

module _ (spp : SsdParams) (by : ℕ) (ssd : Ssd) (ncmd : NandCmd) (calm : Calm spp by ssd) (lat : ℕ)
    (takes : array_time ncmd.cmd spp (cell_of spp ncmd.ppa) ncmd ≡ some lat)
    (x : Transfers ncmd.cmd spp ncmd) (ch : ncmd.ppa.ch < spp.nchs)
    (lun : ncmd.ppa.lun < spp.luns_per_ch) (mapped : ppa_word ncmd.ppa ≢ unmapped_word)
    (soon : ncmd.stime ≤ by) (later : 0 < ncmd.stime)
    (clear : by + op_cost lat ncmd.xfer_size ≤ 2 ^ 64) where
  Advanced-Calm :
      (old : NandLun) (r : ℕ × Ssd)
      → old.next_lun_avail_time ≤ by
      → Advanced ssd ncmd ncmd.stime lat old r
      → Calm spp (by + op_cost lat ncmd.xfer_size) r.1
  Advanced-Calm old r b a = record {
    valid = a.valid;
    params = a.params ∙ calm.params;
    luns = λ q c l.
        let other : (q.ch ≢ ncmd.ppa.ch) ⊎ (q.lun ≢ ncmd.ppa.lun)
            → (x : NandLun) × (get_lun r.1 q ≡ some x)
              × (x.next_lun_avail_time ≤ by + op_cost lat ncmd.xfer_size) =
          λ n. let (x, e, le) = calm.luns q c l in (x, a.others q n ∙ e, omega (arith, le)) in
        elim (Bool-cases (q.ch == ncmd.ppa.ch)) [
          | inl ec ↦ elim (Bool-cases (q.lun == ncmd.ppa.lun)) [
            | inl el ↦ (
              a.lun,
              get_lun_cong r.1 q ncmd.ppa ((==_iff _ _).0 ec) ((==_iff _ _).0 el) ∙ a.at,
              grind (arith, a.complete, a.no_later, b, soon),
            )
            | inr nl ↦ other (inr (ground arith))
          ]
          | inr nc ↦ other (inl (ground arith))
        ];
  }

  -- A command that starts before `by` ends and leaves every LUN idle within its cost of `by`.
  pub ssd_advance_nand-Calm :
      (clock : ℕ → ℕ)
      → Returns
          (λ (r : ℕ × Ssd).
            Calm spp (by + op_cost lat ncmd.xfer_size) r.1
            × (ncmd.stime ≤ r.0)
            × (r.0 ≤ by + op_cost lat ncmd.xfer_size))
          (ssd_advance_nand clock ssd ncmd)
  unfolding get_cell
  ssd_advance_nand-Calm clock =
      let (old, there, le) = calm.luns ncmd.ppa ch lun in
      let (c, at) = get_ch-get_lun ssd ncmd.ppa there in
      let start : cmd_stime clock ssd ncmd ≡ ncmd.stime = ground (arith, later) in
      Returns-mono
        (ssd_advance_nand-Advanced clock ssd ncmd c old lat mapped at there calm.valid
          (rw calm.params takes) (rw calm.params x) (rw start (grind (arith, le, soon, clear))))
        λ r a.
          let a' : Advanced ssd ncmd ncmd.stime lat old r =
            subst (λ t. Advanced ssd ncmd t lat old r) start a in
          (
            Advanced-Calm old r le a',
            grind (arith, a'.occupied, a'.complete),
            grind (arith, a'.no_later, le, soon),
          )

-- The time at which a transfer to the write buffer starts.
abbrev pub buffered_at : SsdParams → ℕ → ℕ → ℕ
buffered_at spp nsecs_start bytes =
    nsecs_start + spp.fw_wbuf_lat0 + spp.fw_wbuf_lat1 * div_round_up bytes 4096

-- The LUNs do not see the link, the clock and the write buffer.
pub Calm-link :
    {spp : SsdParams} {by : ℕ} {ssd : Ssd} (pcie : ChannelModel) (ticks : ℕ) (b : Buffer)
    → Calm spp by ssd
    → IsValid pcie
    → Calm spp by (record ssd { pcie = pcie; ticks = ticks; write_buffer = b })
unfolding get_lun get_ch
Calm-link pcie ticks b c v = record {
  valid = record { pcie = v; chs = c.valid.chs };
  params = c.params;
  luns = c.luns;
}

pub ssd_advance_pcie-Calm :
    (clock : ℕ → ℕ) (spp : SsdParams) (by : ℕ) (ssd : Ssd) (t bytes : ℕ)
    → Calm spp by ssd
    → t + max_latency ≤ 2 ^ 64
    → Returns
        (λ (r : ℕ × Ssd). Calm spp by r.1 × (t ≤ r.0) × (r.0 ≤ t + max_latency))
        (ssd_advance_pcie clock ssd t bytes)
unfolding ssd_advance_pcie
ssd_advance_pcie-Calm clock spp by ssd t bytes c small =
    Returns-bind (chmodel_request-Answered (clock ssd.ticks) ssd.pcie t bytes c.valid.pcie small)
      λ (u, pcie) a. returns (
        Calm-link pcie (ssd.ticks + 1) ssd.write_buffer c a.valid,
        omega (arith, a.no_sooner),
        omega (arith, a.no_later),
      )

pub ssd_advance_write_buffer-Calm :
    (clock : ℕ → ℕ) (spp : SsdParams) (by : ℕ) (ssd : Ssd) (t bytes : ℕ)
    → Calm spp by ssd
    → buffered_at spp t bytes + max_latency ≤ 2 ^ 64
    → Returns
        (λ (r : ℕ × Ssd).
          Calm spp by r.1 × (t ≤ r.0) × (r.0 ≤ buffered_at spp t bytes + max_latency))
        (ssd_advance_write_buffer clock ssd t bytes)
unfolding ssd_advance_write_buffer
ssd_advance_write_buffer-Calm clock spp by ssd t bytes c small =
    let at = u64 (u64 (t + ssd.sp.fw_wbuf_lat0) + ssd.sp.fw_wbuf_lat1 * div_round_up bytes 4096) in
    let e : at ≡ buffered_at spp t bytes = rw c.params (omega (arith, small)) in
    Returns-mono (ssd_advance_pcie-Calm clock spp by ssd at bytes c (rw e small))
      λ r q. (q.0, omega (arith, q.1, e), omega (arith, q.2, e))
