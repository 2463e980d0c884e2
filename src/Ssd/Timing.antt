-- ===== src/Ssd/Timing.antt =====
-- The latency model of ssd.c. `clock i` is the i-th reading of the CPU clock; a state counts its
-- readings in `ticks`. A result `none` is a fault: an index outside an array, an assertion of the
-- channel model, or a time that was never assigned (a read of no bytes).
pub mod Transfer
pub mod Advance
pub mod Calm
pub mod Idle
pub mod Init
use nvme_virt.Prelude.{
  ℕ, zero, suc, ◌+◌, ◌-◌, ◌*◌, List, [], ◌∷◌, Bool, true, false, Option, some, none, ◌==◌, not,
  if◌then◌else◌, get_elem?, u64, div_round_up, min_of, max_of, ◌>>=◌,
}
use nvme_virt.Channel.{ChannelModel, chmodel_request}
use nvme_virt.Ssd.Layout.{
  Ppa, ppa_word, unmapped_word, NandLun, SsdChannel, Ssd, get_ch, get_lun, get_cell, put_lun,
}

-- `int cmd`: the enumerated commands and any other value.
pub data NandOp : Type 0 where
  nand_read nand_write nand_erase nand_nop : NandOp
  unsupported : ℕ → NandOp

pub data IoType : Type 0 where
  user_io gc_io : IoType

pub record NandCmd : Type 0 where
  pub type : IoType
  pub cmd : NandOp
  pub xfer_size : ℕ
  pub stime : ℕ
  pub interleave_pci_dma : Bool
  pub ppa : Ppa

-- What a data transfer changes: the two channel models and the number of clock readings.
pub record Lanes : Type 0 where
  pub chnl : ChannelModel
  pub pcie : ChannelModel
  pub ticks : ℕ

-- What the loop of a read assigns.
pub record Progress : Type 0 where
  pub completed_time : ℕ
  pub chnl_etime : ℕ
  pub lanes : Lanes

-- NAND_ERASE and NAND_NOP: only the LUN's time advances.
pub occupy : Ssd → NandCmd → ℕ → SsdChannel → NandLun → ℕ → Option (ℕ × Ssd)
occupy ssd ncmd cmd_stime ch lun lat =
    let nand_etime = u64 (max_of lun.next_lun_avail_time cmd_stime + lat) in
    some (nand_etime, put_lun ssd ncmd.ppa ch (record lun { next_lun_avail_time = nand_etime }))

-- The two loops of `ssd_next_idle_time`, over the first `n` entries.
pub latest_lun : ℕ → List NandLun → ℕ → Option ℕ
latest_lun zero luns latest = some latest
latest_lun (suc n) [] latest = none
latest_lun (suc n) (lun ∷ luns) latest = latest_lun n luns (max_of latest lun.next_lun_avail_time)

pub latest_ch : ℕ → ℕ → List SsdChannel → ℕ → Option ℕ
latest_ch luns_per_ch zero chs latest = some latest
latest_ch luns_per_ch (suc n) [] latest = none
latest_ch luns_per_ch (suc n) (ch ∷ chs) latest =
    latest_lun luns_per_ch ch.lun latest >>= latest_ch luns_per_ch n chs

module _ (clock : ℕ → ℕ) where
  -- one round: the NAND channel, then the PCIe link if the transfers overlap
  pub transfer_one : Bool → Lanes → ℕ → ℕ → Option Progress
  transfer_one true lanes chnl_stime xfer_size = do
    (chnl_etime, chnl) ← chmodel_request (clock lanes.ticks) lanes.chnl chnl_stime xfer_size
    (completed, pcie) ← chmodel_request (clock (lanes.ticks + 1)) lanes.pcie chnl_etime xfer_size
    some (record {
      completed_time = completed;
      chnl_etime = chnl_etime;
      lanes = record { chnl = chnl; pcie = pcie; ticks = lanes.ticks + 2 };
    })
  transfer_one false lanes chnl_stime xfer_size = do
    (chnl_etime, chnl) ← chmodel_request (clock lanes.ticks) lanes.chnl chnl_stime xfer_size
    some (record {
      completed_time = chnl_etime;
      chnl_etime = chnl_etime;
      lanes = record { chnl = chnl; pcie = lanes.pcie; ticks = lanes.ticks + 1 };
    })

  -- `while (remaining)`, entered with something remaining
  pub transfer : ℕ → Bool → ℕ → Lanes → ℕ → ℕ → Option Progress
  transfer zero dma max_size lanes chnl_stime remaining = none
  transfer (suc fuel) dma max_size lanes chnl_stime remaining = do
    let xfer_size = min_of remaining max_size
    p ← transfer_one dma lanes chnl_stime xfer_size
    let rest = transfer fuel dma max_size p.lanes p.chnl_etime (remaining - xfer_size)
    if remaining - xfer_size == 0 then some p else rest

  pub ssd_advance_pcie : Ssd → ℕ → ℕ → Option (ℕ × Ssd)
  ssd_advance_pcie ssd request_time length = do
    (t, pcie) ← chmodel_request (clock ssd.ticks) ssd.pcie request_time length
    some (t, record ssd { pcie = pcie; ticks = ssd.ticks + 1 })

  pub ssd_advance_write_buffer : Ssd → ℕ → ℕ → Option (ℕ × Ssd)
  ssd_advance_write_buffer ssd request_time length =
      let t0 = u64 (request_time + ssd.sp.fw_wbuf_lat0) in
      let t1 = u64 (t0 + ssd.sp.fw_wbuf_lat1 * div_round_up length 4096) in
      ssd_advance_pcie ssd t1 length

  -- NAND_READ: the sensing time, then the transfers, whose last end frees the LUN.
  pub advance_read : Ssd → NandCmd → ℕ → SsdChannel → NandLun → Option (ℕ × Ssd)
  advance_read ssd ncmd cmd_stime ch lun = do
    let nand_stime = max_of lun.next_lun_avail_time cmd_stime
    let lats = if ncmd.xfer_size == 4096 then ssd.sp.pg_4kb_rd_lat else ssd.sp.pg_rd_lat
    lat ← get_elem? lats (get_cell ssd ncmd.ppa)
    let chnl_stime = u64 (nand_stime + lat)
    let lanes : Lanes = record { chnl = ch.perf_model; pcie = ssd.pcie; ticks = ssd.ticks }
    p ←
        if ncmd.xfer_size == 0
        then none
        else transfer ncmd.xfer_size ncmd.interleave_pci_dma ssd.sp.max_ch_xfer_size lanes
            chnl_stime ncmd.xfer_size
    let ssd' = record ssd { pcie = p.lanes.pcie; ticks = p.lanes.ticks }
    some (
      p.completed_time,
      put_lun ssd' ncmd.ppa (record ch { perf_model = p.lanes.chnl })
          (record lun { next_lun_avail_time = p.chnl_etime }),
    )

  -- NAND_WRITE: the transfer, then the programming time.
  pub advance_write : Ssd → NandCmd → ℕ → SsdChannel → NandLun → Option (ℕ × Ssd)
  advance_write ssd ncmd cmd_stime ch lun = do
    let chnl_stime = max_of lun.next_lun_avail_time cmd_stime
    (chnl_etime, chnl) ← chmodel_request (clock ssd.ticks) ch.perf_model chnl_stime ncmd.xfer_size
    let nand_etime = u64 (chnl_etime + ssd.sp.pg_wr_lat)
    some (
      nand_etime,
      put_lun (record ssd { ticks = ssd.ticks + 1 }) ncmd.ppa (record ch { perf_model = chnl })
          (record lun { next_lun_avail_time = nand_etime }),
    )

  pub advance_op : NandOp → Ssd → NandCmd → ℕ → SsdChannel → NandLun → Option (ℕ × Ssd)
  advance_op nand_read ssd ncmd cmd_stime ch lun = advance_read ssd ncmd cmd_stime ch lun
  advance_op nand_write ssd ncmd cmd_stime ch lun = advance_write ssd ncmd cmd_stime ch lun
  advance_op nand_erase ssd ncmd cmd_stime ch lun =
      occupy ssd ncmd cmd_stime ch lun ssd.sp.blk_er_lat
  advance_op nand_nop ssd ncmd cmd_stime ch lun = occupy ssd ncmd cmd_stime ch lun 0
  advance_op (unsupported c) ssd ncmd cmd_stime ch lun = some (0, ssd)

  -- A start time of 0 stands for the time on the clock.
  abbrev pub cmd_stime : Ssd → NandCmd → ℕ
  cmd_stime ssd ncmd = if ncmd.stime == 0 then clock ssd.ticks else ncmd.stime

  abbrev pub ticks_after : Ssd → NandCmd → ℕ
  ticks_after ssd ncmd = if ncmd.stime == 0 then ssd.ticks + 1 else ssd.ticks

  -- `ssd_advance_nand` from the test for UNMAPPED_PPA on.
  pub issue : Ssd → NandCmd → ℕ → Option (ℕ × Ssd)
  issue ssd ncmd start =
      let run = do
        lun ← get_lun ssd ncmd.ppa
        ch ← get_ch ssd ncmd.ppa
        advance_op ncmd.cmd ssd ncmd start ch lun
      in if ppa_word ncmd.ppa == unmapped_word then some (start, ssd) else run

  pub ssd_advance_nand : Ssd → NandCmd → Option (ℕ × Ssd)
  ssd_advance_nand ssd ncmd =
      issue (record ssd { ticks = ticks_after ssd ncmd }) ncmd (cmd_stime ssd ncmd)

  pub ssd_next_idle_time : Ssd → Option (ℕ × Ssd)
  ssd_next_idle_time ssd = do
    latest ← latest_ch ssd.sp.luns_per_ch ssd.sp.nchs ssd.ch (clock ssd.ticks)
    some (latest, record ssd { ticks = ssd.ticks + 1 })
