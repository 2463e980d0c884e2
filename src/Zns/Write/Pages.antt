-- ===== src/Zns/Write/Pages.antt =====
-- The part of `__zns_write` behind its checks: it returns, at a time that covers what it scheduled.
use nvme_virt.Prelude.{
  ℕ, ◌+◌, ◌-◌, ◌*◌, ◌/◌, ◌%◌, ◌^◌, ◌≤◌, ◌<◌, ◌≡◌, refl, [], true, sub64, Returns, returns,
  Returns-bind, arith,
}
use nvme_virt.Channel.Request.{max_latency}
use nvme_virt.Ssd.Layout.{Ssd}
use nvme_virt.Ssd.Timing.Calm.{Calm, buffered_at, ssd_advance_write_buffer-Calm}
use nvme_virt.Zns.State.{ZnsFtl, ZnsParams, success, lba_to_lpn, lba_to_byte, zone_to_elpn}
use nvme_virt.Zns.Request.{RwRequest, BufferRef, Served, nr_lbas}
use nvme_virt.Zns.Placement.{Striped}
use nvme_virt.Zns.Write.{write_pages, oneshot_bytes}
use nvme_virt.Zns.Write.Program.{DueBy, no_ops, oneshot_cost, program-Kept}

-- What a write needs of the drive: the zones striped over existing dies, a calm drive, and time on
-- the 64-bit clock for the transfer and for every program of the request.
pub record Runs (zp : ZnsParams) (ssd : Ssd) (by nsecs_start nr_lba slba : ℕ) : Type 0 where
  pub striped : Striped zp ssd.sp
  pub calm : Calm ssd.sp by ssd
  pub whole : 0 < oneshot_bytes ssd.sp
  pub sectors : 0 < ssd.sp.secs_per_pg
  pub started : 0 < nsecs_start
  pub slba_small : slba < 2 ^ 62
  pub transfer : buffered_at ssd.sp nsecs_start (lba_to_byte nr_lba) + max_latency ≤ by
  pub clear : by + (nr_lba + 1) * oneshot_cost ssd.sp ≤ 2 ^ 64

-- What an admitted write leaves.
pub record Completed (ftl : ZnsFtl) (req : RwRequest) (slba : ℕ) (r : Served) : Type 0 where
  pub accepted : r.accepted ≡ true
  pub status : r.status ≡ success
  pub slba_is : r.slba ≡ slba
  pub since : req.nsecs_start ≤ r.nsecs_target
  pub due :
      (nsecs_latest : ℕ) × DueBy nsecs_latest (oneshot_bytes ftl.ssd.sp) r.ops
      × (req.fua ≡ true → r.nsecs_target ≡ nsecs_latest)
  pub params : r.ftl.ssd.sp ≡ ftl.ssd.sp
  pub rest : r.ftl ≡ record ftl { ssd = r.ftl.ssd }

div_lt : (x l n : ℕ) → 0 < n → x < l * n → x / n < l
div_lt x l n p h = grind arith

above : (a q r s m : ℕ) → a ≡ q * s + r → r < s → a + m < (q + m + 1) * s
above a q r s m e h = grind arith

div_mod : (a s : ℕ) → 0 < s → (a ≡ a / s * s + a % s) × (a % s < s)
div_mod a s h = (grind arith, grind arith)

-- A request of `n` sectors touches at most as many pages.
pub span : (a m s : ℕ) → 0 < s → (a + m) / s < a / s + m + 1
span a m s h =
    let (e, l) = div_mod a s h in
    div_lt (a + m) (a / s + m + 1) s h (above a (a / s) (a % s) s m e l)

pub div_le : (a s : ℕ) → a / s ≤ a
div_le a s = grind arith

scale_le : (a b c : ℕ) → a ≤ b → a * c ≤ b * c
scale_le a b c h = grind arith

module _ (clock : ℕ → ℕ) where
  pub write_pages-Completed :
      (ftl : ZnsFtl) (req : RwRequest) (by slba zid : ℕ) (buf : BufferRef)
      → 0 < nr_lbas req
      → Runs ftl.zp ftl.ssd by req.nsecs_start (nr_lbas req) slba
      → Returns (Completed ftl req slba) (write_pages clock ftl req slba zid buf)
  unfolding write_pages lba_to_lpn
  write_pages-Completed ftl req by slba zid buf pos w =
      Returns-bind
        (ssd_advance_write_buffer-Calm clock ftl.ssd.sp by ftl.ssd req.nsecs_start
          (lba_to_byte (nr_lbas req)) w.calm (omega (arith, w.transfer, w.clear)))
        λ (xfer, ssd) q.
          let sp = ftl.ssd.sp in
          let n = nr_lbas req in
          let last : sub64 (slba + n) 1 ≡ slba + (n - 1) = omega (arith, pos, w.slba_small) in
          let fuel = sub64 (slba + n) 1 / sp.secs_per_pg + 1 - slba / sp.secs_per_pg in
          let few : fuel ≤ n + 1 =
            rw last (omega (arith, span slba (n - 1) sp.secs_per_pg w.sectors, pos)) in
          let cost : fuel * oneshot_cost sp ≤ (n + 1) * oneshot_cost sp =
            scale_le fuel (n + 1) (oneshot_cost sp) few in
          Returns-bind
            (program-Kept clock
              (record {
                ftl = ftl;
                sq_id = req.sq_id;
                write_buffer = buf;
                stime = xfer;
                elpn = sub64 (slba + n) 1 / sp.secs_per_pg;
                zone_elpn = zone_to_elpn ftl zid;
              })
              w.striped (omega (arith, q.1, w.started))
              (omega (arith, div_le (sub64 (slba + n) 1) sp.secs_per_pg, last, w.slba_small))
              w.whole fuel by (slba / sp.secs_per_pg)
              (record { ssd = ssd; nsecs_latest = xfer; ops = [] })
              (record {
                calm = q.0;
                since = omega arith;
                until = omega (arith, q.2, w.transfer);
                due = no_ops;
              })
              (omega arith) (omega (arith, cost, w.clear)))
            λ p k. returns (record {
              accepted = refl;
              status = refl;
              slba_is = refl;
              since = ground (arith, k.since, q.1);
              due = (p.nsecs_latest, k.due, λ f. ground (arith, f));
              params = k.calm.params;
              rest = refl;
            })
