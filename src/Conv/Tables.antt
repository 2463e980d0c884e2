-- ===== src/Conv/Tables.antt =====
-- The mapping tables of conv_ftl.c: a page address for each logical page, and the logical page for
-- each index of a flash page. `none` is an assertion that fails or an index outside a table.
pub mod Index
use nvme_virt.Prelude.{
  ℕ, ◌+◌, ◌*◌, ◌/◌, ◌%◌, Bool, Option, some, none, ◌==◌, ◌&&◌, not, ltb, get_elem?, set, u64,
  int_to_u64, ◌>>=◌, ◌>>◌, assert,
}
use nvme_virt.Ssd.Layout.{Ppa, ppa_word, unmapped_word}
use nvme_virt.Ssd.Params.{SsdParams}
use nvme_virt.Conv.State.{ConvFtl}

abbrev pub last_pg_in_wordline : SsdParams → Ppa → Bool
last_pg_in_wordline spp ppa = ppa.pg % spp.pgs_per_oneshotpg + 1 == spp.pgs_per_oneshotpg

-- The sum that `ppa2pgidx` forms. The block and the pages of a block are of the type `int`, and their
-- product is one, which is extended to 64 bits by its sign.
abbrev pub pgidx : SsdParams → Ppa → ℕ
pgidx spp ppa = u64 (
    ppa.ch * spp.pgs_per_ch
    + ppa.lun * spp.pgs_per_lun
    + ppa.pl * spp.pgs_per_pl
    + int_to_u64 (ppa.blk * spp.pgs_per_blk)
    + ppa.pg)

unfoldable pub ppa2pgidx : SsdParams → Ppa → Option ℕ
ppa2pgidx spp ppa = do assert (ltb (pgidx spp ppa) spp.tt_pgs); some (pgidx spp ppa)

-- `valid_ppa`: each part is within its count.
abbrev pub in_range : SsdParams → Ppa → Bool
in_range spp ppa =
    ltb ppa.ch spp.nchs
    && ltb ppa.lun spp.luns_per_ch
    && ltb ppa.pl spp.pls_per_lun
    && ltb ppa.blk spp.blks_per_pl
    && ltb ppa.pg spp.pgs_per_blk

abbrev pub mapped_ppa : Ppa → Bool
mapped_ppa ppa = not (ppa_word ppa == unmapped_word)

-- `ppa1.h.blk_in_ssd == ppa2.h.blk_in_ssd` with the same flash page
abbrev pub is_same_flash_page : SsdParams → Ppa → Ppa → Bool
is_same_flash_page spp a b =
    a.blk == b.blk
    && a.pl == b.pl
    && a.lun == b.lun
    && a.ch == b.ch
    && a.pg / spp.pgs_per_flashpg == b.pg / spp.pgs_per_flashpg

module _ {Q : Type 0} where
  abbrev pub get_maptbl_ent : ConvFtl Q → ℕ → Option Ppa
  get_maptbl_ent ftl lpn = get_elem? ftl.maptbl lpn

  unfoldable pub set_maptbl_ent : ConvFtl Q → ℕ → Ppa → Option (ConvFtl Q)
  set_maptbl_ent ftl lpn ppa = do
    assert (ltb lpn ftl.ssd.sp.tt_pgs)
    some (record ftl { maptbl = set ftl.maptbl lpn ppa })

  unfoldable pub get_rmap_ent : ConvFtl Q → Ppa → Option ℕ
  get_rmap_ent ftl ppa = do i ← ppa2pgidx ftl.ssd.sp ppa; get_elem? ftl.rmap i

  unfoldable pub set_rmap_ent : ConvFtl Q → ℕ → Ppa → Option (ConvFtl Q)
  set_rmap_ent ftl lpn ppa = do
    i ← ppa2pgidx ftl.ssd.sp ppa
    some (record ftl { rmap = set ftl.rmap i lpn })
