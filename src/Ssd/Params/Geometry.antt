-- ===== src/Ssd/Params/Geometry.antt =====
-- The units of the layout that `ssd_init_params` computes fit together.
use nvme_virt.Prelude.{
  ℕ, ◌*◌, ◌/◌, ◌^◌, ◌<◌, ◌≡◌, sym, arith, some, subst, Option-cases, inl, inr, u32, u64, int_to_u64,
}
use nvme_virt.Ssd.Config.{Config}
use nvme_virt.Ssd.Params.{SsdParams, block_layout, fill_params, ssd_init_params}

-- How `ssd_init_params` came to its result.
record Origin (cfg : Config) (capacity nparts : ℕ) (spp : SsdParams) : Type 0 where
  nchs : ℕ
  blk_size : ℕ
  blks_per_pl : ℕ
  filled : spp ≡ fill_params cfg nchs blk_size blks_per_pl

ssd_init_params-Origin :
    (cfg : Config) (capacity nparts : ℕ) {spp : SsdParams}
    → ssd_init_params cfg capacity nparts ≡ some spp
    → Origin cfg capacity nparts spp
unfolding ssd_init_params
ssd_init_params-Origin cfg capacity nparts h =
    elim (Option-cases (block_layout cfg (u32 (cfg.nand_channels / nparts)) (capacity / nparts))) [
      | inl e ↦ absurd (ground arith)
      | inr ((blk, blks), e) ↦ record {
        nchs = u32 (cfg.nand_channels / nparts);
        blk_size = blk;
        blks_per_pl = blks;
        filled = ground arith;
      }
    ]

-- The units nest: lines, channels and blocks all count the same pages, and pages and blocks the
-- same sectors.
pub record Nests (spp : SsdParams) : Type 0 where
  pub lines_pgs : spp.tt_lines * spp.pgs_per_line ≡ spp.tt_pgs
  pub lines_blks : spp.tt_lines * spp.blks_per_line ≡ spp.tt_blks
  pub blks_pgs : spp.tt_blks * spp.pgs_per_blk ≡ spp.tt_pgs
  pub pgs_secs : spp.tt_pgs * spp.secs_per_pg ≡ spp.tt_secs
  pub chs_pgs : spp.nchs * spp.pgs_per_ch ≡ spp.tt_pgs
  pub lines_secs : spp.tt_lines * spp.secs_per_line ≡ spp.tt_secs
  pub pl_pgs : spp.tt_pls * spp.pgs_per_pl ≡ spp.tt_pgs
  pub sectors : spp.secsz * spp.secs_per_pg ≡ spp.pgsz

-- No count is 0, the products that the code forms as `int`s do not overflow, and the sectors are
-- numbered in 64 bits.
pub record Sizes (spp : SsdParams) : Type 0 where
  pub pgs : 0 < spp.pgs_per_blk
  pub blks : 0 < spp.blks_per_pl
  pub pls : 0 < spp.pls_per_lun
  pub luns : 0 < spp.luns_per_ch
  pub chs : 0 < spp.nchs
  pub block_small : spp.secs_per_pg * spp.pgs_per_blk < 2 ^ 31
  pub plane_small : spp.pgs_per_blk * spp.blks_per_pl < 2 ^ 31
  pub lun_small : spp.blks_per_pl * spp.pls_per_lun < 2 ^ 31
  pub channel_small : spp.pls_per_lun * spp.luns_per_ch < 2 ^ 31
  pub line_small : spp.luns_per_ch * spp.nchs < 2 ^ 31
  pub drive_small :
      spp.secs_per_pg * spp.pgs_per_blk * spp.blks_per_pl * spp.pls_per_lun * spp.luns_per_ch
        * spp.nchs
      < 2 ^ 64

pub narrow : (n : ℕ) → n < 2 ^ 31 → int_to_u64 n ≡ n
narrow n h = ground (arith, h)

pub whole : (n : ℕ) → n < 2 ^ 64 → u64 n ≡ n
whole n h = omega (arith, h)

pub below : (x y m : ℕ) → 0 < y → x * y < m → x < m
below x y m h k = grind arith

fill_params-Nests :
    (cfg : Config) (nchs blk_size b : ℕ)
    → Sizes (fill_params cfg nchs blk_size b)
    → Nests (fill_params cfg nchs blk_size b)
unfolding fill_params
fill_params-Nests cfg n blk_size b z =
    let spp = fill_params cfg n blk_size b in
    let p = spp.pgs_per_blk in
    let pl = spp.pls_per_lun in
    let lu = spp.luns_per_ch in
    let m : ℕ = 2 ^ 64 in
    let s5 : 8 * p * b * pl * lu * n < m = z.drive_small in
    let s4 : 8 * p * b * pl * lu < m = below (8 * p * b * pl * lu) n m z.chs s5 in
    let s3 : 8 * p * b * pl < m = below (8 * p * b * pl) lu m z.luns s4 in
    let s2 : 8 * p * b < m = below (8 * p * b) pl m z.pls s3 in
    let b5 : b * pl * lu * n < m = below (b * pl * lu * n) p m z.pgs (omega (arith, s5)) in
    let b4 : b * pl * lu < m = below (b * pl * lu) n m z.chs b5 in
    let d5 : pl * lu * n < m = below (pl * lu * n) b m z.blks (omega (arith, b5)) in
    let g5 : 8 * p * pl * lu * n < m = below (8 * p * pl * lu * n) b m z.blks (omega (arith, s5)) in
    let g4 : 8 * p * lu * n < m = below (8 * p * lu * n) pl m z.pls (omega (arith, g5)) in
    rw
      (
        narrow (8 * p) z.block_small,
        narrow (p * b) z.plane_small,
        narrow (b * pl) z.lun_small,
        narrow (pl * lu) z.channel_small,
        narrow (lu * n) z.line_small,
        whole (8 * p * b) s2,
        whole (8 * p * b * pl) s3,
        whole (8 * p * b * pl * lu) s4,
        whole (8 * p * b * pl * lu * n) s5,
        whole (p * b * pl) (omega (arith, s3)),
        whole (p * b * pl * lu) (omega (arith, s4)),
        whole (p * b * pl * lu * n) (omega (arith, s5)),
        whole (b * pl * lu) b4,
        whole (b * pl * lu * n) b5,
        whole (pl * lu * n) d5,
        whole (lu * n * p) (omega (arith, g4)),
        whole (lu * n * p * 8) (omega (arith, g4)),
      )
      (omega arith)

-- The units of the layout that `ssd_init_params` computes nest: lines, channels, planes and blocks
-- count the same pages, pages and lines the same sectors. Condition: the initialisation succeeds with
-- counts that are not 0, whose `int` products are below 2 ^ 31, and with fewer than 2 ^ 64 sectors.
pub ssd_init_params-Nests :
    (cfg : Config) (capacity nparts : ℕ) {spp : SsdParams}
    → ssd_init_params cfg capacity nparts ≡ some spp
    → Sizes spp
    → Nests spp
ssd_init_params-Nests cfg capacity nparts h =
    let o = ssd_init_params-Origin cfg capacity nparts h in
    subst (λ p. Sizes p → Nests p) (sym o.filled)
      (fill_params-Nests cfg o.nchs o.blk_size o.blks_per_pl)
