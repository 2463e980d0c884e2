-- ===== src/Conv/Lines/Order.antt =====
-- The order in which a write pointer goes through the pages of a line.
use nvme_virt.Prelude.{
  ℕ, ◌+◌, ◌*◌, ◌/◌, ◌%◌, ◌<◌, ◌≡◌, ◌≢◌, refl, sym, ap, ◌∙◌, Bool, true, false, ltb, ◌==◌, ==_iff,
  if◌then◌else◌, u32, sub32, Returns, returns, Returns-if, Returns-assert, if_elim, Bool-cases, inl,
  inr, arith,
}
use nvme_virt.Ssd.Params.{SsdParams}
use nvme_virt.Conv.State.{WritePointer}
use nvme_virt.Conv.Lines.{step_wp, next_row}
use nvme_virt.Conv.Lines.Place.{line_index, Rows, InLine, line_index-lt}

-- What one step does: on by one in the line, or back to its start behind its last page.
abbrev pub Stepped : SsdParams → WritePointer → WritePointer × Bool → Type 0
Stepped spp wp (wp', around) =
    InLine spp wp'
    × (wp'.curline ≡ wp.curline)
    × (wp'.blk ≡ wp.blk)
    × (wp'.pl ≡ wp.pl)
    × (line_index spp wp' ≡ (if around then 0 else line_index spp wp + 1))
    × (around ≡ (line_index spp wp + 1 == spp.pgs_per_line))

mod_next : (p n : ℕ) → 0 < n → (p + 1) % n ≢ 0 → ((p + 1) / n ≡ p / n) × ((p + 1) % n ≡ p % n + 1)
mod_next p n h k = (grind arith, grind arith)

mod_wrap :
    (p n : ℕ)
    → 0 < n
    → (p + 1) % n ≡ 0
    → (p % n + 1 ≡ n) × ((p + 1) / n ≡ p / n + 1) × (p + 1 ≡ (p / n + 1) * n)
mod_wrap p n h k = (grind arith, grind arith, grind arith)

mul_div : (q n : ℕ) → 0 < n → (q * n / n ≡ q) × (q * n % n ≡ 0)
mul_div q n h = (grind arith, grind arith)

-- a step that stays in the line
inside :
    (spp : SsdParams) (wp : WritePointer) (wp' : WritePointer)
    → Rows spp
    → InLine spp wp'
    → (wp'.curline ≡ wp.curline) × (wp'.blk ≡ wp.blk) × (wp'.pl ≡ wp.pl)
    → line_index spp wp' ≡ line_index spp wp + 1
    → Stepped spp wp (wp', false)
inside spp wp wp' s i (c, b, p) e = (i, c, b, p, e, ground (arith, line_index-lt spp wp' s i, e))

zero_div : (n : ℕ) → 0 < n → (0 / n ≡ 0) × (0 % n ≡ 0)
zero_div n h = (grind arith, grind arith)

-- the last page of a row of one-shot pages
full_row :
    (q r n ch chs lun luns : ℕ)
    → r + 1 ≡ n
    → ch + 1 ≡ chs
    → lun + 1 ≡ luns
    → (q + 1) * (n * chs * luns) ≡ q * (n * chs * luns) + lun * (n * chs) + ch * n + r + 1
full_row q r n ch chs lun luns e f g = rw (← f, ← g) (omega (arith, e))

module _ (spp : SsdParams) (wp : WritePointer) (s : Rows spp) (i : InLine spp wp) where
  same_page :
      (wp.pg + 1) % spp.pgs_per_oneshotpg ≢ 0 → Stepped spp wp (record wp { pg = wp.pg + 1 }, false)
  same_page k =
      let n = spp.pgs_per_oneshotpg in
      let d = mod_next wp.pg n s.some_page k in
      let short : wp.pg + 1 < spp.pgs_per_blk =
        rw s.whole (below wp.pg s.rows n s.some_page (omega (arith, i.pg, s.whole)) k) in
      inside spp wp (record wp { pg = wp.pg + 1 }) s (record { ch = i.ch; lun = i.lun; pg = short })
        (refl, refl, refl) (rw (d.0, d.1) (omega arith))
    where
      below : (p r n : ℕ) → 0 < n → p < r * n → (p + 1) % n ≢ 0 → p + 1 < r * n
      below p r n z h k = elim (Bool-cases (p + 1 == r * n)) [
        | inl e ↦
            let same : p + 1 ≡ r * n = (==_iff (p + 1) (r * n)).0 e in
            absurd (k (ap (λ x. x % n) same ∙ (mul_div r n z).1))
        | inr e ↦ ground (arith, e, h)
      ]

  module _ (wrap : (wp.pg + 1) % spp.pgs_per_oneshotpg ≡ 0) where
    -- the first page of the one-shot page
    abbrev first : ℕ
    first = wp.pg / spp.pgs_per_oneshotpg * spp.pgs_per_oneshotpg

    next_channel :
        wp.ch + 1 < spp.nchs → Stepped spp wp (record wp { pg = first; ch = wp.ch + 1 }, false)
    next_channel h =
        let n = spp.pgs_per_oneshotpg in
        let w = mod_wrap wp.pg n s.some_page wrap in
        let d = mul_div (wp.pg / n) n s.some_page in
        inside spp wp (record wp { pg = first; ch = wp.ch + 1 }) s
          (record { ch = h; lun = i.lun; pg = omega (arith, w.2, i.pg) }) (refl, refl, refl)
          (rw (d.0, d.1) (omega (arith, w.0)))

    next_die :
        wp.ch + 1 ≡ spp.nchs
        → wp.lun + 1 < spp.luns_per_ch
        → Stepped spp wp (record wp { pg = first; ch = 0; lun = wp.lun + 1 }, false)
    next_die e h =
        let n = spp.pgs_per_oneshotpg in
        let w = mod_wrap wp.pg n s.some_page wrap in
        let d = mul_div (wp.pg / n) n s.some_page in
        let m : n * spp.nchs ≡ n * wp.ch + n = rw (← e) (omega arith) in
        inside spp wp (record wp { pg = first; ch = 0; lun = wp.lun + 1 }) s
          (record { ch = s.some_ch; lun = h; pg = omega (arith, w.2, i.pg) }) (refl, refl, refl)
          (rw (d.0, d.1) (omega (arith, w.0, m)))

    last_page :
        wp.ch + 1 ≡ spp.nchs
        → wp.lun + 1 ≡ spp.luns_per_ch
        → (wp.pg / spp.pgs_per_oneshotpg + 1) * (spp.pgs_per_oneshotpg * spp.nchs * spp.luns_per_ch)
          ≡ line_index spp wp + 1
    last_page e f =
        let n = spp.pgs_per_oneshotpg in
        let w = mod_wrap wp.pg n s.some_page wrap in
        full_row (wp.pg / n) (wp.pg % n) n wp.ch spp.nchs wp.lun spp.luns_per_ch w.0 e f

    next_word :
        wp.ch + 1 ≡ spp.nchs
        → wp.lun + 1 ≡ spp.luns_per_ch
        → wp.pg + 1 < spp.pgs_per_blk
        → Stepped spp wp (record wp { pg = wp.pg + 1; ch = 0; lun = 0 }, false)
    next_word e f h =
        let n = spp.pgs_per_oneshotpg in
        let w = mod_wrap wp.pg n s.some_page wrap in
        inside spp wp (record wp { pg = wp.pg + 1; ch = 0; lun = 0 }) s
          (record { ch = s.some_ch; lun = s.some_lun; pg = h }) (refl, refl, refl)
          (rw (w.1, wrap) (omega (arith, last_page e f)))

    around_line :
        wp.ch + 1 ≡ spp.nchs
        → wp.lun + 1 ≡ spp.luns_per_ch
        → wp.pg + 1 ≡ spp.pgs_per_blk
        → Stepped spp wp (record wp { pg = 0; ch = 0; lun = 0 }, true)
    around_line e f h =
        let n = spp.pgs_per_oneshotpg in
        let w = mod_wrap wp.pg n s.some_page wrap in
        let all : line_index spp wp + 1 ≡ spp.pgs_per_line =
          rw (s.line, ← h, w.2) (omega (arith, last_page e f)) in
        (
          record { ch = s.some_ch; lun = s.some_lun; pg = omega (arith, i.pg) },
          refl,
          refl,
          refl,
          rw ((zero_div n s.some_page).0, (zero_div n s.some_page).1) (omega arith),
          sym ((==_iff (line_index spp wp + 1) spp.pgs_per_line).1 all),
        )

    row :
        wp.ch + 1 ≡ spp.nchs
        → Stepped spp wp (
            if wp.lun + 1 == spp.luns_per_ch
            then next_row spp wp (wp.pg + 1)
            else (record wp { pg = first; ch = 0; lun = wp.lun + 1 }, false))
    row e =
        if_elim (Stepped spp wp) (wp.lun + 1 == spp.luns_per_ch)
          (λ l.
            let f = (==_iff (wp.lun + 1) spp.luns_per_ch).0 l in
            if_elim (Stepped spp wp) (wp.pg + 1 == spp.pgs_per_blk)
              (λ p. around_line e f ((==_iff (wp.pg + 1) spp.pgs_per_blk).0 p))
              (λ p. next_word e f (ground (arith, p, i.pg))))
          (λ l. next_die e (ground (arith, l, i.lun)))

  -- One step of a write pointer counts: the place in the line goes up by one, and the pointer goes
  -- around, to place 0, exactly behind the last of the `pgs_per_line` places. The line, and the block,
  -- stay. Condition: the pointer is in a line of whole rows.
  pub step_wp-Stepped : Returns (Stepped spp wp) (step_wp spp wp)
  unfolding step_wp
  step_wp-Stepped =
      let n = spp.pgs_per_oneshotpg in
      let pg : u32 (wp.pg + 1) ≡ wp.pg + 1 = omega (arith, i.pg, s.pgs_small) in
      let ch : u32 (wp.ch + 1) ≡ wp.ch + 1 = omega (arith, i.ch, s.chs_small) in
      let lun : u32 (wp.lun + 1) ≡ wp.lun + 1 = omega (arith, i.lun, s.luns_small) in
      Returns-assert (ltb wp.pg spp.pgs_per_blk) (ground (arith, i.pg)) (
        rw (pg, ch, lun)
          (Returns-if ((wp.pg + 1) % n == 0)
            (λ z.
              let wrap = (==_iff ((wp.pg + 1) % n) 0).0 z in
              let w = mod_wrap wp.pg n s.some_page wrap in
              let back : sub32 (wp.pg + 1) n ≡ first wrap = omega (arith, w.2, i.pg, s.pgs_small) in
              let on : u32 (first wrap + n) ≡ wp.pg + 1 = omega (arith, w.2, i.pg, s.pgs_small) in
              rw (back, on)
                (Returns-assert (ltb wp.ch spp.nchs) (ground (arith, i.ch)) (
                  Returns-if (wp.ch + 1 == spp.nchs)
                    (λ c.
                      Returns-assert (ltb wp.lun spp.luns_per_ch) (ground (arith, i.lun))
                        (returns (row wrap ((==_iff (wp.ch + 1) spp.nchs).0 c))))
                    (λ c. returns (next_channel wrap (ground (arith, c, i.ch)))))))
            (λ k. returns (same_page (ground (arith, k))))))
