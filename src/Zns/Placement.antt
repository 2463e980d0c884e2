-- ===== src/Zns/Placement.antt =====
-- The die on which `__lpn_to_ppa` puts a page exists, when the dies of a zone divide all dies.
use nvme_virt.Prelude.{
  ℕ, ◌+◌, ◌*◌, ◌/◌, ◌%◌, ◌^◌, ◌≤◌, ◌<◌, ◌≡◌, ◌≢◌, ap, subst, ◌∙◌, u32, u64, sub64, arith,
}
use native.Mathlib.Nat.{add-mul-mod_self_right}
use nvme_virt.Ssd.Layout.{Ppa, ppa_word, unmapped_word}
use nvme_virt.Ssd.Params.{SsdParams}
use nvme_virt.Zns.State.{ZnsFtl, ZnsParams, lpn_to_zone, zone_to_slpn, die_to_channel, die_to_lun}
use nvme_virt.Zns.Request.{lpn_to_ppa}

-- The dies of a zone divide all dies, and the fields of an address are wide enough.
pub record Striped (zp : ZnsParams) (spp : SsdParams) : Type 0 where
  pub dies : 0 < zp.dies_per_zone
  pub dies_small : zp.dies_per_zone < 2 ^ 32
  pub groups : ℕ
  pub grouped : spp.tt_luns ≡ groups * zp.dies_per_zone
  pub some_group : 0 < groups
  pub luns : spp.tt_luns ≡ spp.luns_per_ch * spp.nchs
  pub some_ch : 0 < spp.nchs
  pub few_chs : spp.nchs ≤ 2 ^ 8
  pub few_luns : spp.luns_per_ch ≤ 2 ^ 8
  pub some_page : 0 < spp.pgs_per_oneshotpg
  pub few_pages : spp.pgs_per_oneshotpg ≤ 2 ^ 16

-- An address of a page in a one-shot page of a die of the drive.
pub record InDrive (spp : SsdParams) (off : ℕ) (ppa : Ppa) : Type 0 where
  pub ch : ppa.ch < spp.nchs
  pub lun : ppa.lun < spp.luns_per_ch
  pub pg : ppa.pg ≡ off % spp.pgs_per_oneshotpg
  pub mapped : ppa_word ppa ≢ unmapped_word

mod_lt : (a b : ℕ) → 0 < b → a % b < b
mod_lt a b h = grind arith

mod_small : (a b : ℕ) → a < b → a % b ≡ a
mod_small a b h = grind arith

split_mul : (z k d q r : ℕ) → z ≡ q * k + r → z * d ≡ r * d + q * (k * d)
split_mul z k d q r h = grind arith

div_mod : (z k : ℕ) → z ≡ z / k * k + z % k
div_mod z k = grind arith

scale_lt : (q k d : ℕ) → 0 < d → q < k → q * d < k * d
scale_lt q k d h j = grind arith

mod_scale : (z d k : ℕ) → 0 < d → 0 < k → (z * d) % (k * d) ≡ (z % k) * d
mod_scale z d k h j =
    ap (λ x. x % (k * d)) (split_mul z k d (z / k) (z % k) (div_mod z k))
    ∙ add-mul-mod_self_right ((z % k) * d) (z / k) (k * d)
    ∙ mod_small ((z % k) * d) (k * d) (scale_lt (z % k) k d h (mod_lt z k j))

scaled_lt : (q k d r : ℕ) → q < k → r < d → q * d + r < k * d
scaled_lt q k d r h j = grind arith

mul_small : (z d : ℕ) → z < 2 ^ 32 → d < 2 ^ 32 → z * d < 2 ^ 64
mul_small z d h j = grind arith

div_lt : (x l n : ℕ) → 0 < n → x < l * n → x / n < l
div_lt x l n p h = grind arith

mul_le : (a b : ℕ) → a ≤ 2 ^ 8 → b ≤ 2 ^ 8 → a * b ≤ 2 ^ 16
mul_le a b h k = grind arith

module _ (ftl : ZnsFtl) (s : Striped ftl.zp ftl.ssd.sp) where
  -- The die that `__lpn_to_ppa` computes is one of the drive.
  die_lt :
      (lpn off : ℕ)
      → u64 (lpn_to_zone ftl lpn * ftl.zp.dies_per_zone) % ftl.ssd.sp.tt_luns
          + off % ftl.zp.dies_per_zone
        < ftl.ssd.sp.tt_luns
  unfolding lpn_to_zone
  die_lt lpn off =
      let z = lpn_to_zone ftl lpn in
      let d = ftl.zp.dies_per_zone in
      let b : z * d < 2 ^ 64 = mul_small z d (omega arith) s.dies_small in
      let e : u64 (z * d) ≡ z * d = omega (arith, b) in
      rw (e, s.grouped, mod_scale z d s.groups s.dies s.some_group)
        (scaled_lt (z % s.groups) s.groups d (off % d) (mod_lt z s.groups s.some_group)
          (mod_lt off d s.dies))

  -- The address of every page lies on a channel and a LUN that exist, at the page's place in its
  -- one-shot page, and is not the unmapped address. Condition: the dies of a zone divide all dies, and
  -- the fields of an address are wide enough.
  pub lpn_to_ppa-InDrive :
      (lpn : ℕ)
      → InDrive ftl.ssd.sp (sub64 lpn (zone_to_slpn ftl (lpn_to_zone ftl lpn))) (lpn_to_ppa ftl lpn)
  unfolding lpn_to_ppa die_to_channel die_to_lun
  lpn_to_ppa-InDrive lpn =
      let p = ftl.ssd.sp in
      let off = sub64 lpn (zone_to_slpn ftl (lpn_to_zone ftl lpn)) in
      let raw =
        u64 (lpn_to_zone ftl lpn * ftl.zp.dies_per_zone) % p.tt_luns
        + off / p.pgs_per_oneshotpg % ftl.zp.dies_per_zone in
      let bound : raw < p.luns_per_ch * p.nchs =
        subst (λ n. raw < n) s.luns (die_lt lpn (off / p.pgs_per_oneshotpg)) in
      let few : p.luns_per_ch * p.nchs ≤ 2 ^ 16 =
        mul_le p.luns_per_ch p.nchs s.few_luns s.few_chs in
      let e : u32 raw ≡ raw = omega arith in
      let pg : off % p.pgs_per_oneshotpg < p.pgs_per_oneshotpg =
        mod_lt off p.pgs_per_oneshotpg s.some_page in
      let c : raw % p.nchs < p.nchs = mod_lt raw p.nchs s.some_ch in
      let l : raw / p.nchs < p.luns_per_ch = div_lt raw p.luns_per_ch p.nchs s.some_ch bound in
      record {
        ch = rw e (omega (arith, c, s.few_chs));
        lun = rw e (omega (arith, l, s.few_luns));
        pg = omega (arith, pg, s.few_pages);
        mapped = λ h. absurd (omega arith);
      }
