-- ===== src/Zns/Write/Total.antt =====
-- `__zns_write` as a whole: it returns, and what it leaves behind.
use nvme_virt.Prelude.{
  ℕ, ◌+◌, ◌<◌, ◌≡◌, refl, sym, subst, ◌∙◌, [], Bool, true, false, some, ltb, if◌then◌else◌, ◌==◌,
  u64, get_elem?, set, ap, Returns, returns, Returns-mono, Returns-if,
}
use nvme_virt.Buffer.{Buffer, buffer_allocate}
use nvme_virt.Ssd.Timing.Calm.{Calm-link}
use nvme_virt.Zns.State.{ZnsFtl, ZoneDescriptor, full, lba_to_zone, lba_to_byte, zone_to_slba}
use nvme_virt.Zns.Resources.{Counted, Moved-Counted}
use nvme_virt.Zns.Request.{RwRequest, Served, nr_lbas, check_boundary}
use nvme_virt.Zns.Write.{
  Admission, admitted, after_admission, write_plain, get_write_buffer, put_write_buffer, retry,
  start_lba, buffer_ref,
}
use nvme_virt.Zns.Write.Admit
use nvme_virt.Zns.Write.Admit.{
  Admits, admits, is_writable, opened_by, admit-Admits, is_success, ends,
}
use nvme_virt.Zns.Write.Pages.{Runs, Completed, write_pages-Completed}

if_elim : {A : Type 0} (P : A → Type 0) (b : Bool) (x y : A) → P x → P y → P (if b then x else y)
if_elim P true x y p q = p
if_elim P false x y p q = q

-- The counters see neither the buffers nor the drive.
Counted-same :
    {a b : ZnsFtl}
    → b.zone_descs ≡ a.zone_descs
    → b.active ≡ a.active
    → b.opened ≡ a.opened
    → b.zrwa ≡ a.zrwa
    → Counted a
    → Counted b
Counted-same d e f g c = record {
  active = rw (e, d) c.active;
  opened = rw (f, d) c.opened;
  zrwa = rw (g, d) c.zrwa;
  active_le = rw e c.active_le;
  opened_le = rw f c.opened_le;
  zrwa_le = rw g c.zrwa_le;
  active_total = rw e c.active_total;
  opened_total = rw f c.opened_total;
  zrwa_total = rw g c.zrwa_total;
  plain = rw d c.plain;
}

-- What a change of the write buffer leaves as it was.
record Buffered (by nsecs_start nr_lba slba : ℕ) (ftl ftl' : ZnsFtl) : Type 0 where
  descs : ftl'.zone_descs ≡ ftl.zone_descs
  counted : Counted ftl → Counted ftl'
  geometry : (zid : ℕ) (d : ZoneDescriptor) (n : ℕ) → ends ftl' zid d n ≡ ends ftl zid d n
  boundary : (a n : ℕ) → check_boundary ftl' a n ≡ check_boundary ftl a n
  runs :
      Runs ftl.zp ftl.ssd by nsecs_start nr_lba slba
      → Runs ftl'.zp ftl'.ssd by nsecs_start nr_lba slba

put_write_buffer-Buffered :
    (by t n slba : ℕ) (ftl : ZnsFtl) (zid : ℕ) (b : Buffer)
    → Buffered by t n slba ftl (put_write_buffer ftl zid b)
unfolding zone_to_slba check_boundary lba_to_zone
put_write_buffer-Buffered by t n slba ftl zid b =
    if_elim (Buffered by t n slba ftl) (ftl.zp.zone_wb_size == 0) _ _
      (record {
        descs = refl;
        counted = Counted-same refl refl refl refl;
        geometry = λ _ _ _. refl;
        boundary = λ _ _. refl;
        runs = λ w. record {
          striped = w.striped;
          calm = Calm-link ftl.ssd.pcie ftl.ssd.ticks b w.calm w.calm.valid.pcie;
          whole = w.whole;
          sectors = w.sectors;
          started = w.started;
          slba_small = w.slba_small;
          transfer = w.transfer;
          clear = w.clear;
        };
      })
      (record {
        descs = refl;
        counted = Counted-same refl refl refl refl;
        geometry = λ _ _ _. refl;
        boundary = λ _ _. refl;
        runs = λ w. w;
      })

-- What a write does: it waits for the buffer, or is refused, with the zones as they were in both
-- cases, or moves its zone `zid` from `d` on and completes.
pub data Wrote (ftl : ZnsFtl) (req : RwRequest) (zid : ℕ) (d : ZoneDescriptor)
    : Served → Type 0 where
  waits :
      {ftl' : ZnsFtl}
      → ftl'.zone_descs ≡ ftl.zone_descs
      → Counted ftl'
      → Wrote ftl req zid d (retry ftl' (start_lba req d))
  refuses :
      {r : Served}
      → r.accepted ≡ true
      → is_success r.status ≡ false
      → r.ops ≡ []
      → r.ftl.zone_descs ≡ ftl.zone_descs
      → Counted r.ftl
      → Wrote ftl req zid d r
  writes :
      {r : Served} (ftl1 : ZnsFtl) (d' : ZoneDescriptor)
      → start_lba req d ≡ d.wp
      → check_boundary ftl (start_lba req d) (nr_lbas req) ≡ true
      → is_writable d.state ≡ true
      → d'.wp ≡ u64 (d.wp + nr_lbas req)
      → d'.state ≡ (if ends ftl zid d (nr_lbas req) then full else opened_by d.state)
      → r.ftl.zone_descs ≡ set ftl.zone_descs zid d'
      → Counted r.ftl
      → Completed ftl1 req (start_lba req d) r
      → Wrote ftl req zid d r

module _ (clock : ℕ → ℕ) (ftl : ZnsFtl) (req : RwRequest) (d : ZoneDescriptor) (by : ℕ)
    (c : Counted ftl) (here : get_elem? ftl.zone_descs (lba_to_zone ftl req.slba) ≡ some d)
    (plain : d.zrwav ≡ false) (pos : 0 < nr_lbas req)
    (w : Runs ftl.zp ftl.ssd by req.nsecs_start (nr_lbas req) (start_lba req d)) (b : Buffer)
    (buffer : get_write_buffer ftl (lba_to_zone ftl req.slba) ≡ some b) where
  after_admission-Wrote :
      (ftl' : ZnsFtl) (a : Admission)
      → Buffered by req.nsecs_start (nr_lbas req) (start_lba req d) ftl ftl'
      → Admits ftl' (lba_to_zone ftl req.slba) d (start_lba req d) (nr_lbas req) a
      → Returns (Wrote ftl req (lba_to_zone ftl req.slba) d) (
          after_admission clock a req
            (start_lba req d)
            (lba_to_zone ftl req.slba)
            (buffer_ref ftl (lba_to_zone ftl req.slba)))
  after_admission-Wrote ftl' _ k (Admit.refuses s) =
      returns (refuses refl s refl k.descs (k.counted c))
  after_admission-Wrote ftl' (admitted d1 ftl1) k (admits d' at same_zone _ wp able state m) =
      let zid = lba_to_zone ftl req.slba in
      let n = nr_lbas req in
      let c1 : Counted ftl1 = Moved-Counted (rw k.descs here) m (k.counted c) in
      Returns-mono
        (write_pages-Completed clock ftl1 req by (start_lba req d) zid (buffer_ref ftl zid) pos
          (rw (m.params, m.drive) (k.runs w)))
        λ r done.
          let same : r.ftl.zone_descs ≡ ftl1.zone_descs = rw done.rest refl in
          writes ftl1 d' at (sym (k.boundary (start_lba req d) n) ∙ same_zone) able wp
            (state ∙ ap (λ e. if e then full else opened_by d.state) (k.geometry zid d n))
            (same ∙ m.descs ∙ ap (λ xs. set xs zid d') k.descs)
            (subst Counted (sym done.rest) (Counted-same refl refl refl refl c1)) done

  -- A write or an append to a zone without a random write area returns. It waits for buffer space,
  -- or is refused with an error status, and in both cases every zone is as it was; or it stands at the
  -- write pointer and within one zone, moves the write pointer by its length, leaves the zone full
  -- exactly if that is its end and open if not, and answers no earlier than it started, and with
  -- forced unit access no earlier than every program that it scheduled. The resource counters stay
  -- right. Condition: they were, the drive is striped and calm, and the 64-bit clock does not
  -- overflow.
  pub write_plain-Wrote :
      Returns (Wrote ftl req (lba_to_zone ftl req.slba) d) (write_plain clock ftl req)
  unfolding write_plain
  write_plain-Wrote =
      let zid = lba_to_zone ftl req.slba in
      let bytes = lba_to_byte (nr_lbas req) in
      let ftl' = put_write_buffer ftl zid (buffer_allocate b bytes).1 in
      let k =
        put_write_buffer-Buffered by req.nsecs_start (nr_lbas req) (start_lba req d) ftl zid
          (buffer_allocate b bytes).1 in
      rw (here, buffer)
        (Returns-if (ltb (buffer_allocate b bytes).0 bytes)
          (λ _. returns (waits k.descs (k.counted c)))
          λ _. after_admission-Wrote ftl' _ k (
            admit-Admits ftl' zid d (start_lba req d) (nr_lbas req) (k.counted c) (rw k.descs here)
              plain))
