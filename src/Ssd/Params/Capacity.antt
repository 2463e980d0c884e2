-- ===== src/Ssd/Params/Capacity.antt =====
-- The flash that `ssd_init_params` lays out holds the capacity asked for.
use nvme_virt.Prelude.{
  ℕ, ◌+◌, ◌-◌, ◌*◌, ◌/◌, ◌%◌, ◌^◌, ◌≤◌, ◌<◌, ◌≡◌, refl, sym, ◌∙◌, ap, arith, some, subst, ltb,
  Bool-cases, Bool, Option, true, false, not, ◌==◌, ◌>>◌, assert, some_inj, inl, inr, div_round_up,
  u32, u64, int_to_u64,
}
use nvme_virt.Ssd.Config.{Config}
use nvme_virt.Ssd.Params.{SsdParams, block_layout, fill_params, ssd_init_params}
use nvme_virt.Ssd.Params.Geometry.{Sizes, narrow, whole, below}

div_round_up-covers : (n d : ℕ) → 0 < d → n + d ≤ 2 ^ 64 → n ≤ div_round_up n d * d
div_round_up-covers n d h b = grind arith

div_round_up-mul_le : (n d : ℕ) → 0 < d → div_round_up n d * d ≤ n + d - 1
div_round_up-mul_le n d h = grind arith

le_mul : (n d : ℕ) → 0 < d → n ≤ n * d
le_mul n d h = grind arith

scale_le : (a b x : ℕ) → a ≤ b → a * x ≤ b * x
scale_le a b x h = grind arith

lt_of_mul : (a b d : ℕ) → a * d < b * d → a < b
lt_of_mul a b d h = grind arith

-- The widths within which nothing wraps: a block with a one-shot page below 2 ^ 31 bytes, fewer than
-- 2 ^ 31 blocks, and a share of the capacity that takes no more than 2 ^ 31 blocks of each die.
pub record Fits (cfg : Config) (share blk : ℕ) (spp : SsdParams) : Type 0 where
  pub pages : 0 < cfg.oneshot_page_size
  pub block_small : blk + cfg.oneshot_page_size < 2 ^ 31
  pub share_small : share < 2 ^ 62
  pub blocks_small : spp.blks_per_pl * spp.pls_per_lun * spp.luns_per_ch * spp.nchs < 2 ^ 31
  pub bytes_small : blk * spp.pls_per_lun * spp.luns_per_ch * spp.nchs < 2 ^ 62
  pub count_small : share < 2 ^ 31 * (blk * spp.pls_per_lun * spp.luns_per_ch * spp.nchs)

-- The pages of a block hold its bytes.
block_pages :
    (os blk : ℕ)
    → os % 4096 ≡ 0
    → 0 < os
    → blk + os < 2 ^ 31
    → blk ≤ u32 (u32 (os / 4096) * u32 (div_round_up blk os)) * 4096
block_pages os blk even pos small =
    let n = div_round_up blk os in
    let up : blk ≤ n * os = div_round_up-covers blk os pos (omega (arith, small)) in
    let down : n * os < 2 ^ 31 = omega (arith, div_round_up-mul_le blk os pos, small, pos) in
    let k : n < 2 ^ 31 = omega (arith, le_mul n os pos, down) in
    let a = os / 4096 in
    let is : os ≡ a * 4096 = omega (arith, even) in
    let down' : n * (a * 4096) < 2 ^ 31 = subst (λ x. n * x < 2 ^ 31) is down in
    let up' : blk ≤ n * (a * 4096) = subst (λ x. blk ≤ n * x) is up in
    let e1 : u32 n ≡ n = omega (arith, k) in
    let e2 : u32 a ≡ a = omega (arith, small) in
    let e3 : u32 (a * n) ≡ a * n = omega (arith, down') in rw (e1, e2, e3) (omega (arith, up'))

-- What a layout that succeeds divided by.
behind_assert : (c : Bool) (m : Option (ℕ × ℕ)) {r : ℕ × ℕ} → (assert c >> m) ≡ some r → m ≡ some r
behind_assert true m h = h
behind_assert false m h = absurd (cc)

divided :
    (d : ℕ) (r : ℕ × ℕ) {s : ℕ × ℕ}
    → (assert (not (d == 0)) >> some r) ≡ some s
    → (0 < d) × (r.0 ≡ s.0) × (r.1 ≡ s.1)
divided d r h = elim (Bool-cases (d == 0)) [
  | inl e ↦ absurd (ground (arith, e, h))
  | inr e ↦
      let same = some_inj (behind_assert (not (d == 0)) (some r) h) in
      (ground (arith, e), ap (λ (p : ℕ × ℕ). p.0) same, ap (λ (p : ℕ × ℕ). p.1) same)
]

module _ (cfg : Config) (n share blk b : ℕ) (z : Sizes (fill_params cfg n blk b))
    (f : Fits cfg share blk (fill_params cfg n blk b)) where
  abbrev pl : ℕ
  pl = u32 cfg.plns_per_lun

  abbrev lu : ℕ
  lu = u32 cfg.luns_per_nand_ch

  abbrev spp : SsdParams
  spp = fill_params cfg n blk b

  tt_pgs-eq : spp.tt_pgs ≡ spp.pgs_per_blk * b * pl * lu * n
  unfolding fill_params
  tt_pgs-eq =
      let p = spp.pgs_per_blk in
      let s5 : p * b * pl * lu * n < 2 ^ 64 = omega (arith, z.drive_small) in
      let s4 : p * b * pl * lu < 2 ^ 64 = below (p * b * pl * lu) n (2 ^ 64) z.chs s5 in
      let s3 : p * b * pl < 2 ^ 64 = below (p * b * pl) lu (2 ^ 64) z.luns s4 in
      rw
        (
          narrow (p * b) z.plane_small,
          whole (p * b * pl) s3,
          whole (p * b * pl * lu) s4,
          whole (p * b * pl * lu * n) s5,
        )
        refl

  pages-hold : cfg.oneshot_page_size % 4096 ≡ 0 → blk * (b * pl * lu * n) ≤ spp.tt_pgs * spp.pgsz
  unfolding fill_params
  pages-hold even = rw tt_pgs-eq (
      omega (
        arith,
        scale_le blk (spp.pgs_per_blk * 4096) (b * pl * lu * n)
            (block_pages cfg.oneshot_page_size blk even f.pages f.block_small),
      ))

  blocks-hold : block_layout cfg n share ≡ some (blk, b) → share ≤ blk * (b * pl * lu * n)
  unfolding block_layout fill_params
  blocks-hold h = elim (Bool-cases (ltb 0 cfg.blks_per_pln)) [
    | inl e ↦
        let x = u32 cfg.blks_per_pln * pl * lu * n in
        let r : (0 < int_to_u64 x)
            × (div_round_up share (int_to_u64 x) ≡ blk)
            × (u32 cfg.blks_per_pln ≡ b) =
          divided (int_to_u64 x) (div_round_up share (int_to_u64 x), u32 cfg.blks_per_pln)
            (rw e at h) in
        let e1 : b ≡ u32 cfg.blks_per_pln = sym r.2 in
        let small : x < 2 ^ 31 = subst (λ (y : ℕ). y * pl * lu * n < 2 ^ 31) e1 f.blocks_small in
        let e2 : blk ≡ div_round_up share (int_to_u64 x) = sym r.1 in
        let pos : 0 < int_to_u64 x = r.0 in
        let pos' : 0 < x = subst (λ (y : ℕ). 0 < y) (narrow x small) pos in
        let up : share ≤ div_round_up share x * x =
          div_round_up-covers share x pos' (omega (arith, small, f.share_small)) in
        let e3 : blk ≡ div_round_up share x =
          e2 ∙ ap (λ (y : ℕ). div_round_up share y) (narrow x small) in
        rw (e3, e1) up
    | inr e ↦
        let y = blk * pl * lu * n in
        let bytes = u64 (cfg.blk_size * pl * lu * n) in
        let r : (0 < bytes) × (cfg.blk_size ≡ blk) × (u32 (div_round_up share bytes) ≡ b) =
          divided bytes (cfg.blk_size, u32 (div_round_up share bytes))
            (behind_assert (ltb 0 cfg.blk_size) _ (rw e at h)) in
        let e1 : cfg.blk_size ≡ blk = r.1 in
        let same : u64 (cfg.blk_size * pl * lu * n) ≡ y =
          ap (λ (t : ℕ). u64 (t * pl * lu * n)) e1 ∙ whole y (omega (arith, f.bytes_small)) in
        let e2 : b ≡ u32 (div_round_up share (u64 (cfg.blk_size * pl * lu * n))) = sym r.2 in
        let pos : 0 < u64 (cfg.blk_size * pl * lu * n) = r.0 in
        let pos' : 0 < y = subst (λ (t : ℕ). 0 < t) same pos in
        let up : share ≤ div_round_up share y * y =
          div_round_up-covers share y pos' (omega (arith, f.bytes_small, f.share_small)) in
        let down : div_round_up share y * y < (2 ^ 31 + 1) * y =
          omega (arith, div_round_up-mul_le share y pos', f.count_small, pos') in
        let few : div_round_up share y < 2 ^ 31 + 1 = lt_of_mul _ _ y down in
        let e3 : b ≡ div_round_up share y =
          e2 ∙ ap (λ (t : ℕ). u32 (div_round_up share t)) same ∙ omega (arith, few) in
        subst (λ (t : ℕ). share ≤ blk * (t * pl * lu * n)) (sym e3) (omega (arith, up))
  ]

succeeded :
    (cfg : Config) (capacity nparts : ℕ) {spp : SsdParams} (blk b : ℕ)
    → block_layout cfg (u32 (cfg.nand_channels / nparts)) (capacity / nparts) ≡ some (blk, b)
    → ssd_init_params cfg capacity nparts ≡ some spp
    → (fill_params cfg (u32 (cfg.nand_channels / nparts)) blk b ≡ spp)
      × (cfg.oneshot_page_size % 4096 ≡ 0)
unfolding ssd_init_params
succeeded cfg capacity nparts blk b layout h = (ground arith, ground arith)

-- The flash holds the capacity asked for: the pages of the layout have at least as many bytes as a
-- partition's share of it, whether the blocks in a plane or their size is configured. Condition: the
-- initialisation succeeds with a block of `blk` bytes; no count is 0, and the sizes are in the widths of
-- `Sizes` and `Fits`, in which the `int` products of the code do not overflow.
pub ssd_init_params-covers :
    (cfg : Config) (capacity nparts : ℕ) {spp : SsdParams} (blk b : ℕ)
    → block_layout cfg (u32 (cfg.nand_channels / nparts)) (capacity / nparts) ≡ some (blk, b)
    → ssd_init_params cfg capacity nparts ≡ some spp
    → Sizes spp
    → Fits cfg (capacity / nparts) blk spp
    → capacity / nparts ≤ spp.tt_pgs * spp.pgsz
unfolding ssd_init_params
ssd_init_params-covers cfg capacity nparts {spp} blk b layout h z f =
    let n = u32 (cfg.nand_channels / nparts) in
    let (filled, even) = succeeded cfg capacity nparts blk b layout h in
    let z' = subst Sizes (sym filled) z in
    let f' = subst (Fits cfg (capacity / nparts) blk) (sym filled) f in
    subst (λ (p : SsdParams). capacity / nparts ≤ p.tt_pgs * p.pgsz) filled
      (omega (
        arith,
        blocks-hold cfg n (capacity / nparts) blk b z' f' layout,
        pages-hold cfg n (capacity / nparts) blk b z' f' even,
      ))
