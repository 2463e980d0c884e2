-- ===== src/Conv/Lines/Place.antt =====
-- The place of a page in its line, in the order of the write pointer.
use nvme_virt.Prelude.{
  ℕ, ◌+◌, ◌*◌, ◌/◌, ◌%◌, ◌^◌, ◌<◌, ◌≡◌, mod_lt, div_lt, digit_lt, digit_inj, arith,
}
use nvme_virt.Ssd.Params.{SsdParams}
use nvme_virt.Conv.State.{WritePointer}

-- The place of a page in its line: by row of one-shot pages, then LUN, then channel, then page.
abbrev pub line_index : SsdParams → WritePointer → ℕ
line_index spp wp =
    let n = spp.pgs_per_oneshotpg in
    wp.pg / n * (n * spp.nchs * spp.luns_per_ch) + wp.lun * (n * spp.nchs) + wp.ch * n + wp.pg % n

-- The sizes of a line: its blocks are whole rows.
pub record Rows (spp : SsdParams) : Type 0 where
  pub some_page : 0 < spp.pgs_per_oneshotpg
  pub rows : ℕ
  pub whole : spp.pgs_per_blk ≡ rows * spp.pgs_per_oneshotpg
  pub some_ch : 0 < spp.nchs
  pub some_lun : 0 < spp.luns_per_ch
  pub line : spp.pgs_per_line ≡ spp.pgs_per_blk * spp.nchs * spp.luns_per_ch
  pub pgs_small : spp.pgs_per_blk < 2 ^ 31
  pub chs_small : spp.nchs < 2 ^ 31
  pub luns_small : spp.luns_per_ch < 2 ^ 31

pub record InLine (spp : SsdParams) (wp : WritePointer) : Type 0 where
  pub ch : wp.ch < spp.nchs
  pub lun : wp.lun < spp.luns_per_ch
  pub pg : wp.pg < spp.pgs_per_blk

pub line_index-lt :
    (spp : SsdParams) (wp : WritePointer)
    → Rows spp
    → InLine spp wp
    → line_index spp wp < spp.pgs_per_line
line_index-lt spp wp s i =
    let n = spp.pgs_per_oneshotpg in
    let r : wp.pg % n < n = mod_lt wp.pg n s.some_page in
    let q : wp.pg / n < s.rows = div_lt wp.pg s.rows n s.some_page (omega (arith, s.whole, i.pg)) in
    let in_ch : wp.ch * n + wp.pg % n < spp.nchs * n =
      digit_lt wp.ch (wp.pg % n) spp.nchs n i.ch r in
    let in_lun : wp.lun * (n * spp.nchs) + (wp.ch * n + wp.pg % n)
        < spp.luns_per_ch * (n * spp.nchs) =
      digit_lt wp.lun (wp.ch * n + wp.pg % n) spp.luns_per_ch (n * spp.nchs) i.lun
        (omega (arith, in_ch)) in
    let in_row =
      digit_lt (wp.pg / n) (wp.lun * (n * spp.nchs) + (wp.ch * n + wp.pg % n)) s.rows
        (spp.luns_per_ch * (n * spp.nchs)) q in_lun in
    rw (s.line, s.whole) (omega (arith, in_row))

-- Different pages have different places in the line. Condition: both are in a line of whole rows.
pub line_index-inj :
    (spp : SsdParams) (a b : WritePointer)
    → Rows spp
    → InLine spp a
    → InLine spp b
    → line_index spp a ≡ line_index spp b
    → (a.ch ≡ b.ch) × (a.lun ≡ b.lun) × (a.pg ≡ b.pg)
line_index-inj spp a b s i j e =
    let n = spp.pgs_per_oneshotpg in
    let ra : a.pg % n < n = mod_lt a.pg n s.some_page in
    let rb : b.pg % n < n = mod_lt b.pg n s.some_page in
    let ca : a.ch * n + a.pg % n < spp.nchs * n = digit_lt a.ch (a.pg % n) spp.nchs n i.ch ra in
    let cb : b.ch * n + b.pg % n < spp.nchs * n = digit_lt b.ch (b.pg % n) spp.nchs n j.ch rb in
    let m = n * spp.nchs in
    let la = digit_lt a.lun (a.ch * n + a.pg % n) spp.luns_per_ch m i.lun (omega (arith, ca)) in
    let lb = digit_lt b.lun (b.ch * n + b.pg % n) spp.luns_per_ch m j.lun (omega (arith, cb)) in
    let (q, rest) =
      digit_inj (a.pg / n) (a.lun * m + (a.ch * n + a.pg % n)) (b.pg / n)
        (b.lun * m + (b.ch * n + b.pg % n)) (spp.luns_per_ch * m) la lb (omega (arith, e)) in
    let (lun, rest') =
      digit_inj a.lun (a.ch * n + a.pg % n) b.lun (b.ch * n + b.pg % n) m (omega (arith, ca))
        (omega (arith, cb)) rest in
    let (ch, r) = digit_inj a.ch (a.pg % n) b.ch (b.pg % n) n ra rb rest' in
    (ch, lun, whole a.pg b.pg n s.some_page q r)
  where
    whole : (x y n : ℕ) → 0 < n → x / n ≡ y / n → x % n ≡ y % n → x ≡ y
    whole x y n h d r = grind arith
