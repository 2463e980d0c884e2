-- ===== src/Zns/Write/Program.antt =====
-- The loop of a write ends, and waits for what it schedules.
use nvme_virt.Prelude.{
  ℕ, zero, suc, ◌+◌, ◌*◌, ◌%◌, ◌^◌, ◌≤◌, ◌<◌, ◌≡◌, refl, List, [], ◌∷◌, leb, u64, Returns, returns,
  Returns-bind, Returns-if, arith,
}
use nvme_virt.Ssd.Params.{SsdParams}
use nvme_virt.Ssd.Timing.Calm.{Calm, Calm-mono, write_cost, ssd_advance_nand-Calm}
use nvme_virt.Zns.Request.{InternalOp, lpn_to_ppa}
use nvme_virt.Zns.Placement.{Striped, lpn_to_ppa-InDrive}
use nvme_virt.Zns.Write.{
  Job, Programmed, oneshot_bytes, pgs_at, is_last, bufs_to_release, program_at, program,
}

-- Every operation is due by `t`, and releases no more than a one-shot page.
pub data DueBy (t bytes : ℕ) : List InternalOp → Type 0 where
  no_ops : DueBy t bytes []
  one_more :
      {op : InternalOp} {ops : List InternalOp}
      → op.nsecs_target ≤ t
      → op.bufs_to_release ≤ bytes
      → DueBy t bytes ops
      → DueBy t bytes (op ∷ ops)

DueBy-mono : {t u n : ℕ} {ops : List InternalOp} → t ≤ u → DueBy t n ops → DueBy u n ops
DueBy-mono h no_ops = no_ops
DueBy-mono h (one_more p b r) = one_more (omega arith) b (DueBy-mono h r)

-- the longest time that one program takes
abbrev pub oneshot_cost : SsdParams → ℕ
oneshot_cost spp = write_cost spp (oneshot_bytes spp)

pub record Kept (spp : SsdParams) (stime by : ℕ) (p : Programmed) : Type 0 where
  pub calm : Calm spp by p.ssd
  pub since : stime ≤ p.nsecs_latest
  pub until : p.nsecs_latest ≤ by
  pub due : DueBy p.nsecs_latest (oneshot_bytes spp) p.ops

Kept-mono : {spp : SsdParams} {s t u : ℕ} {p : Programmed} → t ≤ u → Kept spp s t p → Kept spp s u p
Kept-mono h k = record {
  calm = Calm-mono h k.calm;
  since = k.since;
  until = omega (arith, k.until);
  due = k.due;
}

mod_lt : (a b : ℕ) → 0 < b → a % b < b
mod_lt a b h = grind arith

mod_le : (a b : ℕ) → 0 < b → a % b ≤ b
mod_le a b h = grind arith

module _ (clock : ℕ → ℕ) (job : Job) (s : Striped job.ftl.zp job.ftl.ssd.sp) (later : 0 < job.stime)
    (small : job.elpn < 2 ^ 63) (whole : 0 < oneshot_bytes job.ftl.ssd.sp) where
  pgs_at-range :
      (lpn : ℕ) → lpn ≤ job.elpn → (0 < pgs_at job lpn) × (lpn + pgs_at job lpn ≤ job.elpn + 1)
  pgs_at-range lpn h =
      let d = lpn_to_ppa-InDrive job.ftl s lpn in
      let n = job.ftl.ssd.sp.pgs_per_oneshotpg in
      let off : (lpn_to_ppa job.ftl lpn).pg % n < n = mod_lt _ n s.some_page in
      ground (arith, off, h, small)

  released : (lpn : ℕ) → bufs_to_release job lpn ≤ oneshot_bytes job.ftl.ssd.sp
  released lpn = ground (arith, mod_le job.ftl.zp.zone_size (oneshot_bytes job.ftl.ssd.sp) whole)

  program_at-Kept :
      (by lpn : ℕ) (p : Programmed)
      → Kept job.ftl.ssd.sp job.stime by p
      → by + oneshot_cost job.ftl.ssd.sp ≤ 2 ^ 64
      → Returns
          (Kept job.ftl.ssd.sp job.stime (by + oneshot_cost job.ftl.ssd.sp))
          (program_at clock job lpn p)
  unfolding program_at
  program_at-Kept by lpn p k clear =
      let d = lpn_to_ppa-InDrive job.ftl s lpn in
      Returns-if (is_last job lpn)
        (λ _.
          Returns-bind
            (ssd_advance_nand-Calm job.ftl.ssd.sp by p.ssd _ k.calm job.ftl.ssd.sp.pg_wr_lat refl tt
              d.ch d.lun d.mapped (omega (arith, k.since, k.until)) later clear clock)
            λ r q. returns (record {
              calm = q.0;
              since = grind (arith, k.since);
              until = grind (arith, k.until, q.2);
              due = one_more (grind arith) (released lpn) (DueBy-mono (grind arith) k.due);
            }))
        (λ _. returns (Kept-mono (omega arith) k))

  -- The loop over the pages of a request ends, for any fuel of at least its pages; afterwards no LUN
  -- is busy for longer than the programs take, and the time it answers is not before the transfer,
  -- and not before the time of any release that it scheduled, each of at most a one-shot page.
  -- Condition: the zones are striped over existing dies, and the 64-bit clock does not overflow.
  pub program-Kept :
      (fuel by lpn : ℕ) (p : Programmed)
      → Kept job.ftl.ssd.sp job.stime by p
      → job.elpn + 1 ≤ lpn + fuel
      → by + fuel * oneshot_cost job.ftl.ssd.sp ≤ 2 ^ 64
      → Returns
          (Kept job.ftl.ssd.sp job.stime (by + fuel * oneshot_cost job.ftl.ssd.sp))
          (program clock fuel job lpn p)
  unfolding program
  program-Kept zero by lpn p k e c =
      Returns-if (leb lpn job.elpn) (λ b. absurd (ground arith))
        λ _. returns (Kept-mono (omega arith) k)
  program-Kept (suc fuel) by lpn p k e c =
      Returns-if (leb lpn job.elpn)
        (λ b.
          let range = pgs_at-range lpn (ground arith) in
          let here : u64 (lpn + pgs_at job lpn) ≡ lpn + pgs_at job lpn =
            omega (arith, range, small) in
          let cost = oneshot_cost job.ftl.ssd.sp in
          let split : by + suc fuel * cost ≡ by + cost + fuel * cost = grind arith in
          Returns-bind (program_at-Kept by lpn p k (omega (arith, c, split))) λ q kq.
            rw (here, split)
              (program-Kept fuel (by + cost) (lpn + pgs_at job lpn) q kq (omega (arith, range, e))
                (omega (arith, c, split))))
        (λ _. returns (Kept-mono (omega arith) k))
