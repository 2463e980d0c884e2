-- ===== src/Conv/Tables/Index.antt =====
-- The index of a flash page in the reverse mapping table.
use nvme_virt.Prelude.{
  ℕ, int_to_u64, ◌+◌, ◌*◌, ◌^◌, ◌<◌, ◌≡◌, refl, sym, ◌∙◌, some, true, lt→ltb, digit_lt, digit_inj,
  arith,
}
use nvme_virt.Ssd.Params.{SsdParams}
use nvme_virt.Ssd.Layout.{Ppa}
use nvme_virt.Conv.Tables.{pgidx, ppa2pgidx, in_range}

-- Each unit is made of the next smaller ones, the pages can be counted in 64 bits, and those of a plane
-- in an `int`.
pub record Sized (spp : SsdParams) : Type 0 where
  pub pl : spp.pgs_per_pl ≡ spp.blks_per_pl * spp.pgs_per_blk
  pub lun : spp.pgs_per_lun ≡ spp.pls_per_lun * spp.pgs_per_pl
  pub ch : spp.pgs_per_ch ≡ spp.luns_per_ch * spp.pgs_per_lun
  pub tt : spp.tt_pgs ≡ spp.nchs * spp.pgs_per_ch
  pub small : spp.tt_pgs < 2 ^ 63
  pub plane_small : spp.pgs_per_pl < 2 ^ 31

pub record InRange (spp : SsdParams) (ppa : Ppa) : Type 0 where
  pub ch : ppa.ch < spp.nchs
  pub lun : ppa.lun < spp.luns_per_ch
  pub pl : ppa.pl < spp.pls_per_lun
  pub blk : ppa.blk < spp.blks_per_pl
  pub pg : ppa.pg < spp.pgs_per_blk

pub InRange-in_range : (spp : SsdParams) (ppa : Ppa) → InRange spp ppa → in_range spp ppa ≡ true
InRange-in_range spp ppa i = ground (arith, i.ch, i.lun, i.pl, i.blk, i.pg)

int_to_u64-small : (n : ℕ) → n < 2 ^ 31 → int_to_u64 n ≡ n
int_to_u64-small n h = ground (arith, h)

module _ (spp : SsdParams) (s : Sized spp) where
  module _ (p : Ppa) (i : InRange spp p) where
    in_pl : p.blk * spp.pgs_per_blk + p.pg < spp.pgs_per_pl
    in_pl = rw s.pl (digit_lt p.blk p.pg spp.blks_per_pl spp.pgs_per_blk i.blk i.pg)

    in_lun : p.pl * spp.pgs_per_pl + (p.blk * spp.pgs_per_blk + p.pg) < spp.pgs_per_lun
    in_lun =
        rw s.lun
          (digit_lt p.pl (p.blk * spp.pgs_per_blk + p.pg) spp.pls_per_lun spp.pgs_per_pl i.pl in_pl)

    in_ch :
        p.lun * spp.pgs_per_lun + (p.pl * spp.pgs_per_pl + (p.blk * spp.pgs_per_blk + p.pg))
        < spp.pgs_per_ch
    in_ch = rw s.ch (
        digit_lt p.lun (p.pl * spp.pgs_per_pl + (p.blk * spp.pgs_per_blk + p.pg)) spp.luns_per_ch
          spp.pgs_per_lun i.lun in_lun)

    in_all :
        p.ch * spp.pgs_per_ch
          + (p.lun * spp.pgs_per_lun + (p.pl * spp.pgs_per_pl + (p.blk * spp.pgs_per_blk + p.pg)))
        < spp.tt_pgs
    in_all = rw s.tt (
        digit_lt p.ch
          (p.lun * spp.pgs_per_lun + (p.pl * spp.pgs_per_pl + (p.blk * spp.pgs_per_blk + p.pg)))
          spp.nchs spp.pgs_per_ch i.ch in_ch)

    pub pgidx-eq :
        pgidx spp p
        ≡ p.ch * spp.pgs_per_ch
          + (p.lun * spp.pgs_per_lun + (p.pl * spp.pgs_per_pl + (p.blk * spp.pgs_per_blk + p.pg)))
    pgidx-eq =
        let block : int_to_u64 (p.blk * spp.pgs_per_blk) ≡ p.blk * spp.pgs_per_blk =
          int_to_u64-small (p.blk * spp.pgs_per_blk) (omega (arith, in_pl, s.plane_small)) in
        rw block (omega (arith, in_all, s.small))

    pub pgidx-lt : pgidx spp p < spp.tt_pgs
    pgidx-lt = rw pgidx-eq in_all

    pub ppa2pgidx-eq : ppa2pgidx spp p ≡ some (pgidx spp p)
    unfolding ppa2pgidx
    ppa2pgidx-eq = rw (lt→ltb (pgidx spp p) spp.tt_pgs pgidx-lt) refl

  -- Different flash pages have different indexes. Condition: both are in range, in a drive whose
  -- units nest and which has fewer than 2 ^ 31 pages in a plane and 2 ^ 63 in all.
  pub pgidx-inj :
      (p q : Ppa)
      → InRange spp p
      → InRange spp q
      → pgidx spp p ≡ pgidx spp q
      → (p.ch ≡ q.ch) × (p.lun ≡ q.lun) × (p.pl ≡ q.pl) × (p.blk ≡ q.blk) × (p.pg ≡ q.pg)
  pgidx-inj p q i j e =
      let e' = sym (pgidx-eq p i) ∙ e ∙ pgidx-eq q j in
      let (ch, e1) = digit_inj p.ch _ q.ch _ spp.pgs_per_ch (in_ch p i) (in_ch q j) e' in
      let (lun, e2) = digit_inj p.lun _ q.lun _ spp.pgs_per_lun (in_lun p i) (in_lun q j) e1 in
      let (pl, e3) = digit_inj p.pl _ q.pl _ spp.pgs_per_pl (in_pl p i) (in_pl q j) e2 in
      let (blk, pg) = digit_inj p.blk p.pg q.blk q.pg spp.pgs_per_blk i.pg j.pg e3 in
      (ch, lun, pl, blk, pg)
