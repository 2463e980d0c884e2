-- ===== src/Ssd/Timing/Advance.antt =====
-- What a NAND command does to the time of its LUN, and that it leaves the other LUNs alone.
use nvme_virt.Prelude.{
  ℕ, ◌+◌, ◌*◌, ◌^◌, ◌≤◌, ◌<◌, ◌≡◌, ◌≢◌, ◌⊎◌, inl, inr, refl, sym, subst, some_inj, ◌∙◌, Option,
  some, none, ◌==◌, ==_iff, Bool-cases, if◌then◌else◌, get_elem?, set, arith, max_of, u64, Returns,
  returns, Returns-bind, Returns-if, Returns-mono, get_elem?-set_self, get_elem?-set_ne,
  get_elem?_bound,
}
use nvme_virt.Channel.{ChannelModel}
use nvme_virt.Channel.Window.{IsValid}
use nvme_virt.Channel.Request.{max_latency, chmodel_request-Answered}
use nvme_virt.Ssd.Params.{SsdParams}
use nvme_virt.Ssd.Layout.{
  Ppa, ppa_word, unmapped_word, NandLun, SsdChannel, Ssd, get_ch, get_lun, get_cell, put_lun,
}
use nvme_virt.Ssd.Layout.Access.{get_lun-put_self, get_lun-put_ne}
use nvme_virt.Ssd.Timing.{
  NandOp, nand_read, nand_write, nand_erase, nand_nop, unsupported, NandCmd, Lanes, advance_read,
  advance_write, occupy, advance_op, cmd_stime, ticks_after, issue, ssd_advance_nand,
}
use nvme_virt.Ssd.Timing.Transfer.{transfer-Transferred}

pub record SsdValid (ssd : Ssd) : Type 0 where
  pub pcie : IsValid ssd.pcie
  pub chs : (i : ℕ) (c : SsdChannel) → get_elem? ssd.ch i ≡ some c → IsValid c.perf_model

-- The time for which a command occupies the NAND array, transfers aside.
abbrev pub array_time : NandOp → SsdParams → ℕ → NandCmd → Option ℕ
array_time nand_read spp cell ncmd =
    get_elem? (if ncmd.xfer_size == 4096 then spp.pg_4kb_rd_lat else spp.pg_rd_lat) cell
array_time nand_write spp cell ncmd = some spp.pg_wr_lat
array_time nand_erase spp cell ncmd = some spp.blk_er_lat
array_time nand_nop spp cell ncmd = some 0
array_time (unsupported c) spp cell ncmd = none

-- A command issued at `start` on a LUN that was `old`, with result `r`.
pub record Advanced (ssd : Ssd) (ncmd : NandCmd) (start lat : ℕ) (old : NandLun) (r : ℕ × Ssd)
    : Type 0 where
  pub lun : NandLun
  pub at : get_lun r.1 ncmd.ppa ≡ some lun
  pub occupied : max_of old.next_lun_avail_time start + lat ≤ lun.next_lun_avail_time
  pub complete : lun.next_lun_avail_time ≤ r.0
  pub others :
      (q : Ppa) → (q.ch ≢ ncmd.ppa.ch) ⊎ (q.lun ≢ ncmd.ppa.lun) → get_lun r.1 q ≡ get_lun ssd q
  pub valid : SsdValid r.1
  pub no_later :
      r.0 ≤ max_of old.next_lun_avail_time start + lat + (ncmd.xfer_size + 2) * max_latency
  pub params : r.1.sp ≡ ssd.sp

-- The 64-bit clock does not overflow during the command.
abbrev pub Clear : NandCmd → NandLun → ℕ → ℕ → Type 0
Clear ncmd old start lat =
    max_of old.next_lun_avail_time start + lat + (ncmd.xfer_size + 2) * max_latency ≤ 2 ^ 64

put_lun-SsdValid :
    (ssd : Ssd) (ppa : Ppa) (old_ch ch : SsdChannel) (lun : NandLun)
    → get_elem? ssd.ch ppa.ch ≡ some old_ch
    → SsdValid ssd
    → IsValid ch.perf_model
    → SsdValid (put_lun ssd ppa ch lun)
unfolding put_lun
put_lun-SsdValid ssd ppa old_ch ch lun at v w = record {
  pcie = v.pcie;
  chs = λ i c h.
      let new : SsdChannel = record ch { lun = set ch.lun ppa.lun lun } in
      elim (Bool-cases (ppa.ch == i)) [
        | inl e ↦
            let here : get_elem? (set ssd.ch ppa.ch new) i ≡ some new =
              subst (λ k. get_elem? (set ssd.ch ppa.ch new) k ≡ some new) ((==_iff ppa.ch i).0 e)
                (get_elem?-set_self ssd.ch ppa.ch new (get_elem?_bound ssd.ch ppa.ch at)) in
            subst (λ (d : SsdChannel). IsValid d.perf_model) (some_inj (sym here ∙ h)) w
        | inr e ↦ v.chs i c (sym (get_elem?-set_ne ssd.ch ppa.ch i new (ground arith)) ∙ h)
      ];
}

module _ (ssd : Ssd) (ncmd : NandCmd) (ch : SsdChannel) (old : NandLun) (start lat : ℕ)
    (at : get_ch ssd ncmd.ppa ≡ some ch) (there : get_lun ssd ncmd.ppa ≡ some old)
    (v : SsdValid ssd) where
  in_ch : get_elem? ch.lun ncmd.ppa.lun ≡ some old
  unfolding get_ch get_lun
  in_ch = rw at at there

  perf_model-IsValid : IsValid ch.perf_model
  unfolding get_ch
  perf_model-IsValid = v.chs ncmd.ppa.ch ch at

  -- The state with the LUN written back.
  put_lun-Advanced :
      (pcie chnl : ChannelModel) (ticks : ℕ) (lun : NandLun) (t : ℕ)
      → IsValid pcie
      → IsValid chnl
      → max_of old.next_lun_avail_time start + lat ≤ lun.next_lun_avail_time
      → lun.next_lun_avail_time ≤ t
      → t ≤ max_of old.next_lun_avail_time start + lat + (ncmd.xfer_size + 2) * max_latency
      → Advanced ssd ncmd start lat old (
        t,
        put_lun
            (record ssd { pcie = pcie; ticks = ticks })
            ncmd.ppa
            (record ch { perf_model = chnl })
            lun,
      )
  unfolding get_ch get_lun put_lun
  put_lun-Advanced pcie chnl ticks lun t wp wc occ done late =
      let ssd' : Ssd = record ssd { pcie = pcie; ticks = ticks } in
      let ch' : SsdChannel = record ch { perf_model = chnl } in
      record {
        lun = lun;
        at = get_lun-put_self ssd' ncmd.ppa ch ch' old lun at in_ch refl;
        occupied = occ;
        complete = done;
        others = get_lun-put_ne ssd' ncmd.ppa ch ch' old lun at in_ch refl;
        valid = put_lun-SsdValid ssd' ncmd.ppa ch ch' lun at (record { pcie = wp; chs = v.chs }) wc;
        no_later = late;
        params = refl;
      }

  occupy-Advanced :
      (dur : ℕ)
      → dur ≡ lat
      → Clear ncmd old start lat
      → Returns (Advanced ssd ncmd start lat old) (occupy ssd ncmd start ch old dur)
  unfolding occupy
  occupy-Advanced dur e c = returns (
      put_lun-Advanced ssd.pcie ch.perf_model ssd.ticks _ _ v.pcie perf_model-IsValid (omega arith)
        (omega arith) (omega arith))

  module _ (clock : ℕ → ℕ) where
    advance_write-Advanced :
        lat ≡ ssd.sp.pg_wr_lat
        → Clear ncmd old start lat
        → Returns (Advanced ssd ncmd start lat old) (advance_write clock ssd ncmd start ch old)
    unfolding advance_write
    advance_write-Advanced e c =
        Returns-bind
          (chmodel_request-Answered (clock ssd.ticks) ch.perf_model
            (max_of old.next_lun_avail_time start) ncmd.xfer_size perf_model-IsValid (omega arith))
          λ (t, chnl) a. returns (
            put_lun-Advanced ssd.pcie chnl (ssd.ticks + 1) _ _ v.pcie a.valid
              (omega (arith, a.no_sooner, a.no_later)) (omega arith)
              (omega (arith, a.no_sooner, a.no_later)))

    advance_read-Advanced :
        array_time nand_read ssd.sp (get_cell ssd ncmd.ppa) ncmd ≡ some lat
        → 0 < ncmd.xfer_size
        → 0 < ssd.sp.max_ch_xfer_size
        → Clear ncmd old start lat
        → Returns (Advanced ssd ncmd start lat old) (advance_read clock ssd ncmd start ch old)
    unfolding advance_read
    advance_read-Advanced e x m c =
        let lanes : Lanes = record { chnl = ch.perf_model; pcie = ssd.pcie; ticks = ssd.ticks } in
        let stime = u64 (max_of old.next_lun_avail_time start + lat) in
        rw e (
          Returns-bind
            (Returns-if (ncmd.xfer_size == 0) (λ z. absurd (ground arith))
              λ _.
                transfer-Transferred clock ncmd.xfer_size ncmd.interleave_pci_dma
                  ssd.sp.max_ch_xfer_size lanes stime ncmd.xfer_size
                  (record { chnl = perf_model-IsValid; pcie = v.pcie }) m x (omega arith)
                  (omega arith))
            λ p a. returns (
              put_lun-Advanced p.lanes.pcie p.lanes.chnl p.lanes.ticks _ _ a.valid.pcie a.valid.chnl
                (omega (arith, a.no_sooner)) a.channel_first (omega (arith, a.no_later, a.soon))))

-- What a read needs besides: bytes to transfer, in pieces that are not empty.
abbrev pub Transfers : NandOp → SsdParams → NandCmd → Type 0
Transfers nand_read spp ncmd = (0 < ncmd.xfer_size) × (0 < spp.max_ch_xfer_size)
Transfers _ spp ncmd = Unit {0}

advance_op-Advanced :
    (clock : ℕ → ℕ) (op : NandOp) (ssd : Ssd) (ncmd : NandCmd) (ch : SsdChannel) (old : NandLun)
    (start lat : ℕ)
    → get_ch ssd ncmd.ppa ≡ some ch
    → get_lun ssd ncmd.ppa ≡ some old
    → SsdValid ssd
    → array_time op ssd.sp (get_cell ssd ncmd.ppa) ncmd ≡ some lat
    → Transfers op ssd.sp ncmd
    → Clear ncmd old start lat
    → Returns (Advanced ssd ncmd start lat old) (advance_op clock op ssd ncmd start ch old)
unfolding advance_op
advance_op-Advanced clock nand_read ssd ncmd ch old start lat at there v e x c =
    advance_read-Advanced ssd ncmd ch old start lat at there v clock e x.0 x.1 c
advance_op-Advanced clock nand_write ssd ncmd ch old start lat at there v e x c =
    advance_write-Advanced ssd ncmd ch old start lat at there v clock (sym (some_inj e)) c
advance_op-Advanced clock nand_erase ssd ncmd ch old start lat at there v e x c =
    occupy-Advanced ssd ncmd ch old start lat at there v _ (some_inj e) c
advance_op-Advanced clock nand_nop ssd ncmd ch old start lat at there v e x c =
    occupy-Advanced ssd ncmd ch old start lat at there v _ (some_inj e) c
advance_op-Advanced clock (unsupported k) ssd ncmd ch old start lat at there v e x c = absurd (cc)

Advanced-ticks :
    (ssd : Ssd) (ticks : ℕ) (ncmd : NandCmd) (start lat : ℕ) (old : NandLun) (r : ℕ × Ssd)
    → Advanced (record ssd { ticks = ticks }) ncmd start lat old r
    → Advanced ssd ncmd start lat old r
unfolding get_lun get_ch
Advanced-ticks ssd ticks ncmd start lat old r a = record {
  lun = a.lun;
  at = a.at;
  occupied = a.occupied;
  complete = a.complete;
  others = a.others;
  valid = a.valid;
  no_later = a.no_later;
  params = a.params;
}

module _ (clock : ℕ → ℕ) (ssd : Ssd) (ncmd : NandCmd) (ch : SsdChannel) (old : NandLun) (lat : ℕ)
    (mapped : ppa_word ncmd.ppa ≢ unmapped_word) (at : get_ch ssd ncmd.ppa ≡ some ch)
    (there : get_lun ssd ncmd.ppa ≡ some old) (v : SsdValid ssd)
    (takes : array_time ncmd.cmd ssd.sp (get_cell ssd ncmd.ppa) ncmd ≡ some lat)
    (x : Transfers ncmd.cmd ssd.sp ncmd) (c : Clear ncmd old (cmd_stime clock ssd ncmd) lat) where
  -- A command to a mapped page on an existing LUN completes. It starts when both the LUN and the
  -- request are ready and then occupies the LUN at least for its time on the NAND array; it reports
  -- completion no sooner than the LUN is free again, and within
  -- the latency of the transfers; every other LUN keeps its time, and the channel
  -- models stay valid. Condition: the 64-bit clock does not overflow, and a read has bytes to move.
  pub ssd_advance_nand-Advanced :
      Returns
        (Advanced ssd ncmd (cmd_stime clock ssd ncmd) lat old)
        (ssd_advance_nand clock ssd ncmd)
  unfolding ssd_advance_nand issue get_ch get_lun get_cell
  ssd_advance_nand-Advanced =
      let ticks = ticks_after clock ssd ncmd in
      let ssd' : Ssd = record ssd { ticks = ticks } in
      let start = cmd_stime clock ssd ncmd in
      Returns-if (ppa_word ncmd.ppa == unmapped_word) (λ e. absurd (mapped ((==_iff _ _).0 e)))
        λ _.
          rw (there, at)
            (Returns-mono
              (advance_op-Advanced clock ncmd.cmd ssd' ncmd ch old start lat at there
                (record { pcie = v.pcie; chs = v.chs }) takes x c)
              (λ r. Advanced-ticks ssd ticks ncmd start lat old r))
