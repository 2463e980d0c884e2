-- ===== src/Conv/Lines.antt =====
-- The write pointers of conv_ftl.c: the pages of a line in the order in which they are written, and
-- what becomes of a line that is used up. `none` is an assertion that fails, or the null pointer that
-- stands for the next line when no line is free.
pub mod Order
pub mod Place
use nvme_virt.Prelude.{
  ℕ, ◌+◌, ◌-◌, ◌%◌, ◌^◌, List, [], ◌∷◌, ◌++◌, Bool, true, false, Option, some, none, ◌==◌, ◌&&◌,
  not, ltb, leb, if◌then◌else◌, get_elem?, u32, sub32, ◌>>=◌, ◌>>◌, assert,
}
use nvme_virt.Ssd.Layout.{Ppa}
use nvme_virt.Ssd.Params.{SsdParams}
use nvme_virt.Ssd.Timing.{IoType, user_io, gc_io}
use nvme_virt.Conv.State.{ConvFtl, LineMgmt, WritePointer, VictimQueue, get_next_free_line, Line}

-- the row of a one-shot page is through: on to the next row, or around
abbrev pub next_row : SsdParams → WritePointer → ℕ → WritePointer × Bool
next_row spp wp pg =
    if pg == spp.pgs_per_blk
    then (record wp { pg = 0; ch = 0; lun = 0 }, true)
    else (record wp { pg = pg; ch = 0; lun = 0 }, false)

-- the channels are through
abbrev pub next_lun : SsdParams → WritePointer → ℕ → Option (WritePointer × Bool)
next_lun spp wp back = do
  assert (ltb wp.lun spp.luns_per_ch)
  let lun = u32 (wp.lun + 1)
  let row = next_row spp wp (u32 (back + spp.pgs_per_oneshotpg))
  some (if lun == spp.luns_per_ch then row else (record wp { pg = back; ch = 0; lun = lun }, false))

-- the one-shot page is through
abbrev pub next_ch : SsdParams → WritePointer → ℕ → Option (WritePointer × Bool)
next_ch spp wp back = do
  assert (ltb wp.ch spp.nchs)
  let ch = u32 (wp.ch + 1)
  let lun = next_lun spp wp back
  if ch == spp.nchs then lun else some (record wp { pg = back; ch = ch }, false)

-- One page on in the order of a line; `true` when the pointer has gone around the line.
unfoldable pub step_wp : SsdParams → WritePointer → Option (WritePointer × Bool)
step_wp spp wp = do
  assert (ltb wp.pg spp.pgs_per_blk)
  let pg = u32 (wp.pg + 1)
  let ch = next_ch spp wp (sub32 pg spp.pgs_per_oneshotpg)
  if pg % spp.pgs_per_oneshotpg == 0 then ch else some (record wp { pg = pg }, false)

module _ {Q : Type 0} where
  abbrev pub get_wp : ConvFtl Q → IoType → WritePointer
  get_wp ftl user_io = ftl.wp
  get_wp ftl gc_io = ftl.gc_wp

  abbrev pub put_wp : ConvFtl Q → IoType → WritePointer → ConvFtl Q
  put_wp ftl user_io wp = record ftl { wp = wp }
  put_wp ftl gc_io wp = record ftl { gc_wp = wp }

  -- The fields `g.ch` and `g.lun` have 8 bits, `g.blk` and `g.pg` 16.
  unfoldable pub get_new_page : ConvFtl Q → IoType → Option Ppa
  get_new_page ftl io_type = do
    let wp = get_wp ftl io_type
    assert (wp.pl % 2 ^ 8 == 0)
    some (record {
      pg = wp.pg % 2 ^ 16;
      blk = wp.blk % 2 ^ 16;
      pl = wp.pl % 2 ^ 8;
      lun = wp.lun % 2 ^ 8;
      ch = wp.ch % 2 ^ 8;
      rsv = 0;
    })

module _ {Q : Type 0} (pq : VictimQueue Q) where
  -- A line whose pages are all in use goes to the full lines, any other to the victims.
  unfoldable pub retire_line : SsdParams → LineMgmt Q → ℕ → Line → Option (LineMgmt Q)
  retire_line spp lm l line =
      let (q, lines) = pq.pqueue_insert lm.victim_line_pq lm.lines l in
      let to_full = do
        assert (line.ipc == 0)
        some (record lm {
          full_line_list = lm.full_line_list ++ (l ∷ []);
          full_line_cnt = u32 (lm.full_line_cnt + 1);
        })
      in let to_victim = do
        assert (ltb line.vpc spp.pgs_per_line)
        assert (ltb 0 line.ipc)
        some (record lm {
          victim_line_pq = q;
          lines = lines;
          victim_line_cnt = u32 (lm.victim_line_cnt + 1);
        })
        in if line.vpc == spp.pgs_per_line then to_full else to_victim

  -- from `wpp->pg = 0` on
  unfoldable pub next_line : ConvFtl Q → WritePointer → Option (WritePointer × LineMgmt Q)
  next_line ftl wp = do
    line ← get_elem? ftl.lm.lines wp.curline
    lm ← retire_line ftl.ssd.sp ftl.lm wp.curline line
    assert (ltb wp.blk ftl.ssd.sp.blks_per_pl)
    (l, lm') ← get_next_free_line lm
    new ← get_elem? lm'.lines l
    assert (ltb new.id ftl.ssd.sp.blks_per_pl)
    assert (wp.pl == 0)
    some (record wp { curline = l; blk = new.id }, lm')

  unfoldable pub advance_write_pointer : ConvFtl Q → IoType → Option (ConvFtl Q)
  advance_write_pointer ftl io_type = do
    (wp, around) ← step_wp ftl.ssd.sp (get_wp ftl io_type)
    let renew = do (wp', lm) ← next_line ftl wp; some (record (put_wp ftl io_type wp') { lm = lm })
    if around then renew else some (put_wp ftl io_type wp)
