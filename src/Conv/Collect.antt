-- ===== src/Conv/Collect.antt =====
-- Garbage collection in conv_ftl.c: a victim line is chosen, its pages in use move to the line of the
-- write pointer for collection, and its blocks are erased. `none` is a fault of one of the parts.
pub mod Stuck
use nvme_virt.Prelude.{
  ℕ, zero, suc, ◌+◌, ◌-◌, ◌*◌, ◌/◌, ◌%◌, ◌^◌, Bool, true, false, Option, some, none, ◌==◌, ◌&&◌,
  not, ltb, leb, if◌then◌else◌, get_elem?, set, u32, sub32, u64, ◌>>=◌, ◌>>◌, assert,
}
use nvme_virt.Ssd.Layout.{Ppa, Ssd, get_lun, get_ch, put_lun, get_pg}
use nvme_virt.Ssd.Params.{SsdParams}
use nvme_virt.Ssd.Timing.{
  NandCmd, NandOp, gc_io, nand_read, nand_write, nand_nop, nand_erase, ssd_advance_nand,
}
use nvme_virt.Conv.State.{ConvFtl, Line, VictimQueue}
use nvme_virt.Conv.Tables.{last_pg_in_wordline, get_rmap_ent, set_rmap_ent, set_maptbl_ent}
use nvme_virt.Conv.Lines.{get_new_page, advance_write_pointer}
use nvme_virt.Conv.Pages.{is_free, is_valid, mark_page_valid, mark_block_free, mark_line_free}

abbrev pub gc_cmd : NandOp → ℕ → Ppa → NandCmd
gc_cmd op xfer_size ppa = record {
  type = gc_io;
  cmd = op;
  xfer_size = xfer_size;
  stime = 0;
  interleave_pci_dma = false;
  ppa = ppa;
}

-- `g.pg` has 16 bits
abbrev pub next_pg : Ppa → Ppa
next_pg ppa = record ppa { pg = (ppa.pg + 1) % 2 ^ 16 }

-- How the loop of `conv_proc_nvme_io_cmd` stands after some rounds: it has ended, or goes on.
pub data GcLoop (Q : Type 0) : Type 0 where
  ended running : ConvFtl Q → GcLoop Q

module _ {Q : Type 0} where
  abbrev pub should_gc_high : ConvFtl Q → Bool
  should_gc_high ftl = leb ftl.lm.free_line_cnt ftl.cp.gc_thres_lines_high

  -- the first loop of `clean_one_flashpg`
  pub count_valid : ℕ → ConvFtl Q → Ppa → Option ℕ
  count_valid zero ftl ppa = some 0
  count_valid (suc n) ftl ppa = do
    page ← get_pg ftl.ssd ppa
    assert (not (is_free page.status))
    cnt ← count_valid n ftl (next_pg ppa)
    some (if is_valid page.status then cnt + 1 else cnt)

  -- `lunp->gc_endtime = lunp->next_lun_avail_time`
  unfoldable pub end_gc : ConvFtl Q → Ppa → Option (ConvFtl Q)
  end_gc ftl ppa = do
    ch ← get_ch ftl.ssd ppa
    lun ← get_lun ftl.ssd ppa
    some (record ftl {
      ssd = put_lun ftl.ssd ppa ch (record lun { gc_endtime = some lun.next_lun_avail_time });
    })

module _ {Q : Type 0} (pq : VictimQueue Q) where
  -- The line in front of the queue, unless nothing forces its collection and it has too many pages in
  -- use; the inner `none` is the null pointer.
  unfoldable pub take_victim : ConvFtl Q → Bool → ℕ → Option (Option (ℕ × ConvFtl Q))
  take_victim ftl force l = do
    line ← get_elem? ftl.lm.lines l
    let (q, lines) = pq.pqueue_pop ftl.lm.victim_line_pq ftl.lm.lines
    popped ← get_elem? lines l
    let lm = record (ftl.lm) {
      victim_line_pq = q;
      lines = set lines l (record popped { pos = 0 });
      victim_line_cnt = sub32 ftl.lm.victim_line_cnt 1;
    }
    some (
        if not force && ltb (ftl.ssd.sp.pgs_per_line / 8) line.vpc
        then none
        else some (l, record ftl { lm = lm }))

  unfoldable pub select_victim_line : ConvFtl Q → Bool → Option (Option (ℕ × ConvFtl Q))
  select_victim_line ftl force = elim (pq.pqueue_peek ftl.lm.victim_line_pq) [
    | none ↦ some none
    | some l ↦ take_victim ftl force l
  ]

module _ (clock : ℕ → ℕ) {Q : Type 0} (pq : VictimQueue Q) where
  -- A flash command that takes its time only when the delay of collection is modelled.
  abbrev pub delayed : ConvFtl Q → NandCmd → Option (ConvFtl Q)
  delayed ftl ncmd = do
    let run = do (t, ssd) ← ssd_advance_nand clock ftl.ssd ncmd; some (record ftl { ssd = ssd })
    if ftl.cp.enable_gc_delay then run else some ftl

  unfoldable pub gc_write_page : ConvFtl Q → Ppa → Option (ConvFtl Q)
  gc_write_page ftl old_ppa = do
    let spp = ftl.ssd.sp
    lpn ← get_rmap_ent ftl old_ppa
    assert (ltb lpn spp.tt_pgs)
    new_ppa ← get_new_page ftl gc_io
    ftl1 ← set_maptbl_ent ftl lpn new_ppa
    ftl2 ← set_rmap_ent ftl1 lpn new_ppa
    ftl3 ← mark_page_valid ftl2 new_ppa
    ftl4 ← advance_write_pointer pq ftl3 gc_io
    delayed ftl4 (
        if last_pg_in_wordline spp new_ppa
        then gc_cmd nand_write (u64 (spp.pgsz * spp.pgs_per_oneshotpg)) new_ppa
        else gc_cmd nand_nop 0 new_ppa)

  -- the second loop of `clean_one_flashpg`
  pub move_valid : ℕ → ConvFtl Q → Ppa → Option (ConvFtl Q)
  move_valid zero ftl ppa = some ftl
  move_valid (suc n) ftl ppa = do
    page ← get_pg ftl.ssd ppa
    moved ← if is_valid page.status then gc_write_page ftl ppa else some ftl
    move_valid n moved (next_pg ppa)

  unfoldable pub clean_one_flashpg : ConvFtl Q → Ppa → Option (ConvFtl Q)
  clean_one_flashpg ftl ppa = do
    let spp = ftl.ssd.sp
    cnt ← count_valid spp.pgs_per_flashpg ftl ppa
    let move = do
      read ← delayed ftl (gc_cmd nand_read (u64 (spp.pgsz * cnt)) ppa)
      move_valid spp.pgs_per_flashpg read ppa
    if cnt == 0 then some ftl else move

  -- the body of the loop over the LUNs; behind the last flash page the block is erased
  unfoldable pub clean_lun : ConvFtl Q → ℕ → Ppa → Option (ConvFtl Q)
  clean_lun ftl flashpg ppa = do
    cleaned ← clean_one_flashpg ftl ppa
    let erase = do
      freed ← mark_block_free cleaned ppa
      erased ← delayed freed (gc_cmd nand_erase 0 ppa)
      end_gc erased ppa
    if flashpg + 1 == ftl.ssd.sp.flashpgs_per_blk then erase else some cleaned

  -- the loops over the LUNs, the channels and the flash pages, each with what is left of it
  pub clean_luns : ℕ → ℕ → ConvFtl Q → ℕ → Ppa → Option (ConvFtl Q)
  clean_luns zero lun ftl flashpg ppa = some ftl
  clean_luns (suc n) lun ftl flashpg ppa = do
    ftl' ← clean_lun ftl flashpg (record ppa { lun = lun % 2 ^ 8 })
    clean_luns n (lun + 1) ftl' flashpg ppa

  pub clean_chs : ℕ → ℕ → ConvFtl Q → ℕ → Ppa → Option (ConvFtl Q)
  clean_chs zero ch ftl flashpg ppa = some ftl
  clean_chs (suc n) ch ftl flashpg ppa = do
    ftl' ← clean_luns ftl.ssd.sp.luns_per_ch 0 ftl flashpg (record ppa { ch = ch % 2 ^ 8 })
    clean_chs n (ch + 1) ftl' flashpg ppa

  pub clean_flashpgs : ℕ → ℕ → ConvFtl Q → Ppa → Option (ConvFtl Q)
  clean_flashpgs zero flashpg ftl ppa = some ftl
  clean_flashpgs (suc n) flashpg ftl ppa = do
    let pg = flashpg * ftl.ssd.sp.pgs_per_flashpg % 2 ^ 16
    ftl' ← clean_chs ftl.ssd.sp.nchs 0 ftl flashpg (record ppa { pg = pg })
    clean_flashpgs n (flashpg + 1) ftl' ppa

  -- the address that the loops fill; its unused bits are never assigned and never read
  abbrev pub victim_ppa : ℕ → Ppa
  victim_ppa id = record { pg = 0; blk = id % 2 ^ 16; pl = 0; lun = 0; ch = 0; rsv = 0 }

  -- from the victim `l` on
  unfoldable pub collect_line : ConvFtl Q → ℕ → Option (ConvFtl Q)
  collect_line ftl l = do
    line ← get_elem? ftl.lm.lines l
    ftl' ←
        clean_flashpgs ftl.ssd.sp.flashpgs_per_blk 0
          (record ftl {
            gc_cnt = ftl.gc_cnt + 1;
            wfc = record (ftl.wfc) { credits_to_refill = u32 line.ipc };
          })
          (victim_ppa line.id)
    mark_line_free ftl' (victim_ppa line.id)

  -- `do_gc`: without a victim the result is -1, which no caller reads, and the state stays.
  abbrev pub collect_victim : ConvFtl Q → Option (ℕ × ConvFtl Q) → Option (ConvFtl Q)
  collect_victim ftl none = some ftl
  collect_victim ftl (some (l, taken)) = collect_line taken l

  unfoldable pub do_gc : ConvFtl Q → Bool → Option (ConvFtl Q)
  do_gc ftl force = select_victim_line pq ftl force >>= collect_victim ftl

  -- `while (should_gc_high(conv_ftl)) do_gc(conv_ftl, true)` for some rounds; `none` is a fault.
  pub gc_while_high : ℕ → ConvFtl Q → Option (GcLoop Q)
  gc_while_high zero ftl = some (if should_gc_high ftl then running ftl else ended ftl)
  gc_while_high (suc fuel) ftl =
      let rest = do_gc ftl true >>= gc_while_high fuel in
      if should_gc_high ftl then rest else some (ended ftl)
