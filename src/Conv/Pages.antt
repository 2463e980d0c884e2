-- ===== src/Conv/Pages.antt =====
-- The state of flash pages, blocks and lines in conv_ftl.c. `none` is an assertion that fails or an
-- index outside an array.
use nvme_virt.Prelude.{
  ℕ, ◌+◌, ◌-◌, List, [], ◌∷◌, ◌++◌, Bool, true, false, Option, some, ◌==◌, ◌&&◌, not, ltb, leb,
  ◌||◌, if◌then◌else◌, get_elem?, set, u32, sub32, ◌>>=◌, ◌>>◌, assert,
}
use nvme_virt.Ssd.Layout.{
  Ppa, PageStatus, pg_free, pg_invalid, pg_valid, NandPage, NandBlock, Ssd, get_ch, get_lun, get_pl,
  get_blk, get_pg, put_lun,
}
use nvme_virt.Conv.State.{ConvFtl, LineMgmt, Line, VictimQueue}

abbrev pub is_free : PageStatus → Bool
is_free pg_free = true
is_free _ = false

abbrev pub is_valid : PageStatus → Bool
is_valid pg_valid = true
is_valid _ = false

-- A write through the pointer that `get_blk` returns.
unfoldable pub put_blk : Ssd → Ppa → NandBlock → Option Ssd
put_blk ssd ppa blk = do
  ch ← get_ch ssd ppa
  lun ← get_lun ssd ppa
  pl ← get_pl ssd ppa
  some (
      put_lun ssd ppa ch
        (record lun { pl = set lun.pl ppa.pl (record pl { blk = set pl.blk ppa.blk blk }) }))

-- the block with the status of one of its pages assigned
abbrev pub set_status : NandBlock → ℕ → NandPage → PageStatus → NandBlock
set_status blk i page status = record blk { pg = set blk.pg i (record page { status = status }) }

-- `list_del_init` on the list of full lines
abbrev pub del_line : List ℕ → ℕ → List ℕ
del_line [] l = []
del_line (x ∷ xs) l = if x == l then xs else x ∷ del_line xs l

-- `mark_block_free`, the loop over the pages that are left
pub free_pages : ℕ → List NandPage → Option (List NandPage)
free_pages secs_per_pg [] = some []
free_pages secs_per_pg (page ∷ rest) = do
  assert (page.nsecs == secs_per_pg)
  rest' ← free_pages secs_per_pg rest
  some (record page { status = pg_free } ∷ rest')

module _ {Q : Type 0} where
  unfoldable pub mark_page_valid : ConvFtl Q → Ppa → Option (ConvFtl Q)
  mark_page_valid ftl ppa = do
    let spp = ftl.ssd.sp
    page ← get_pg ftl.ssd ppa
    assert (is_free page.status)
    blk ← get_blk ftl.ssd ppa
    assert (ltb blk.vpc spp.pgs_per_blk)
    ssd ← put_blk ftl.ssd ppa (record (set_status blk ppa.pg page pg_valid) { vpc = blk.vpc + 1 })
    line ← get_elem? ftl.lm.lines ppa.blk
    assert (ltb line.vpc spp.pgs_per_line)
    some (record ftl {
      ssd = ssd;
      lm = record (ftl.lm) {
        lines = set ftl.lm.lines ppa.blk (record line { vpc = line.vpc + 1 });
      };
    })

  unfoldable pub mark_block_free : ConvFtl Q → Ppa → Option (ConvFtl Q)
  mark_block_free ftl ppa = do
    blk ← get_blk ftl.ssd ppa
    pages ← free_pages ftl.ssd.sp.secs_per_pg blk.pg
    assert (blk.npgs == ftl.ssd.sp.pgs_per_blk)
    ssd ←
        put_blk ftl.ssd ppa
          (record blk { pg = pages; ipc = 0; vpc = 0; erase_cnt = blk.erase_cnt + 1 })
    some (record ftl { ssd = ssd })

  unfoldable pub mark_line_free : ConvFtl Q → Ppa → Option (ConvFtl Q)
  mark_line_free ftl ppa = do
    line ← get_elem? ftl.lm.lines ppa.blk
    some (record ftl {
      lm = record (ftl.lm) {
        lines = set ftl.lm.lines ppa.blk (record line { ipc = 0; vpc = 0 });
        free_line_list = ftl.lm.free_line_list ++ (ppa.blk ∷ []);
        free_line_cnt = u32 (ftl.lm.free_line_cnt + 1);
      };
    })

module _ {Q : Type 0} (pq : VictimQueue Q) where
  -- `line->vpc` falls by one: through the queue when the line stands in it.
  unfoldable pub lower_vpc : LineMgmt Q → ℕ → Line → LineMgmt Q
  lower_vpc lm l line =
      let lines = set lm.lines l (record line { ipc = line.ipc + 1 }) in
      let (q, lines') = pq.pqueue_change_priority lm.victim_line_pq lines (line.vpc - 1) l in
      if line.pos == 0
      then record lm {
        lines = set lm.lines l (record line { ipc = line.ipc + 1; vpc = line.vpc - 1 });
      }
      else record lm { lines = lines'; victim_line_pq = q }

  -- full line to victim line
  unfoldable pub full_to_victim : LineMgmt Q → ℕ → LineMgmt Q
  full_to_victim lm l =
      let (q, lines) = pq.pqueue_insert lm.victim_line_pq lm.lines l in
      record lm {
        full_line_list = del_line lm.full_line_list l;
        full_line_cnt = sub32 lm.full_line_cnt 1;
        lines = lines;
        victim_line_pq = q;
        victim_line_cnt = u32 (lm.victim_line_cnt + 1);
      }

  unfoldable pub mark_page_invalid : ConvFtl Q → Ppa → Option (ConvFtl Q)
  mark_page_invalid ftl ppa = do
    let spp = ftl.ssd.sp
    page ← get_pg ftl.ssd ppa
    assert (is_valid page.status)
    blk ← get_blk ftl.ssd ppa
    assert (ltb blk.ipc spp.pgs_per_blk)
    assert (ltb 0 blk.vpc && leb blk.vpc spp.pgs_per_blk)
    ssd ←
        put_blk ftl.ssd ppa
          (record (set_status blk ppa.pg page pg_invalid) { ipc = blk.ipc + 1; vpc = blk.vpc - 1 })
    line ← get_elem? ftl.lm.lines ppa.blk
    assert (ltb line.ipc spp.pgs_per_line)
    let was_full = line.vpc == spp.pgs_per_line
    assert (not was_full || line.ipc == 0)
    assert (ltb 0 line.vpc && leb line.vpc spp.pgs_per_line)
    let lm = lower_vpc ftl.lm ppa.blk line
    some (record ftl { ssd = ssd; lm = if was_full then full_to_victim lm ppa.blk else lm })
