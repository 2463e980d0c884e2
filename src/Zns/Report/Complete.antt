-- ===== src/Zns/Report/Complete.antt =====
-- The report holds the zones that were asked for, in their order.
use nvme_virt.Prelude.{
  ℕ, zero, suc, ◌+◌, ◌-◌, ◌/◌, ◌^◌, ◌≤◌, ◌<◌, ◌≡◌, refl, ◌∙◌, subst, ap, List, [], ◌∷◌, true,
  Option, some, if◌then◌else◌, length, get_elem?, Returns, returns, Returns-bind, Returns-mono,
  Returns-if, arith,
}
use nvme_virt.Zns.State.{Status, success, ZoneDescriptor, ZnsFtl, lba_to_zone}
use nvme_virt.Zns.Report.{
  ZoneMgmtRecv, ZoneReport, copy_descs, bytes_transfer, nr_zone_to_report, fill_zone_report,
  check_zmgmt_rcv_option_supported, zns_zmgmt_recv,
}

-- `ys` are the `n` entries of `xs` from `i` on.
pub record IsRange (xs : List ZoneDescriptor) (i n : ℕ) (ys : List ZoneDescriptor) : Type 0 where
  pub size : length ys ≡ n
  pub entries : (k : ℕ) → k < n → get_elem? ys k ≡ get_elem? xs (i + k)

suc_add : (i k : ℕ) → suc (i + k) ≡ suc i + k
suc_add i k = omega arith

at :
    (x : ZoneDescriptor) (xs : List ZoneDescriptor) (n : ℕ) (ys : List ZoneDescriptor)
    → IsRange xs 0 n ys
    → (k : ℕ) → k < suc n
    → get_elem? (x ∷ ys) k ≡ get_elem? (x ∷ xs) (0 + k)
at x xs n ys r zero b = refl
at x xs n ys r (suc k) b =
    let e : suc (0 + k) ≡ 0 + suc k = omega arith in
    r.entries k (omega arith) ∙ ap (λ j. get_elem? (x ∷ xs) j) e

copy_descs-IsRange :
    (xs : List ZoneDescriptor) (i n : ℕ)
    → i + n ≤ length xs
    → Returns (IsRange xs i n) (copy_descs xs i n)
unfolding copy_descs
copy_descs-IsRange xs zero zero h =
    returns (record { size = refl; entries = λ k b. absurd (omega arith) })
copy_descs-IsRange [] zero (suc n) h = absurd (ground arith)
copy_descs-IsRange [] (suc i) n h = absurd (ground arith)
copy_descs-IsRange (x ∷ xs) (suc i) n h =
    Returns-mono (copy_descs-IsRange xs i n (ground arith)) λ ys r. record {
      size = r.size;
      entries =
          λ k b. subst (λ j. get_elem? ys k ≡ get_elem? (x ∷ xs) j) (suc_add i k) (r.entries k b);
    }
copy_descs-IsRange (x ∷ xs) zero (suc n) h =
    Returns-bind (copy_descs-IsRange xs 0 n (ground arith))
      λ ys r. returns (record { size = ap suc r.size; entries = λ k. at x xs n ys r k })

pub record Reports (ftl : ZnsFtl) (cmd : ZoneMgmtRecv) (nsecs_start : ℕ)
    (o : (Status × ℕ) × Option ZoneReport) : Type 0 where
  pub answer : o.0 ≡ (success, nsecs_start)
  pub report : ZoneReport
  pub made : o.1 ≡ some report
  pub number : report.nr_zones ≡ (
      if cmd.partial
      then bytes_transfer cmd / 64 - 1
      else ftl.zp.nr_zones - lba_to_zone ftl cmd.slba)
  pub range : IsRange ftl.zone_descs (lba_to_zone ftl cmd.slba) report.nr_zones report.zd

module _ (ftl : ZnsFtl) (cmd : ZoneMgmtRecv) (nsecs_start : ℕ)
    (len : length ftl.zone_descs ≡ ftl.zp.nr_zones) (small : ftl.zp.nr_zones < 2 ^ 32)
    (ok : check_zmgmt_rcv_option_supported ftl cmd ≡ true)
    (room : cmd.partial ≡ true
      → (64 ≤ bytes_transfer cmd)
        × (lba_to_zone ftl cmd.slba + bytes_transfer cmd / 64 ≤ ftl.zp.nr_zones + 1)) where
  inside : lba_to_zone ftl cmd.slba < ftl.zp.nr_zones
  unfolding check_zmgmt_rcv_option_supported
  inside = ground arith

  number : nr_zone_to_report ftl cmd ≡ (
      if cmd.partial
      then bytes_transfer cmd / 64 - 1
      else ftl.zp.nr_zones - lba_to_zone ftl cmd.slba)
  number = ground (arith, inside, room)

  fits : lba_to_zone ftl cmd.slba + nr_zone_to_report ftl cmd ≤ length ftl.zone_descs
  fits = ground (arith, inside, room, len)

  abbrev Filled : ZoneReport → Type 0
  Filled z =
      (z.nr_zones ≡ nr_zone_to_report ftl cmd)
      × IsRange ftl.zone_descs (lba_to_zone ftl cmd.slba) (nr_zone_to_report ftl cmd) z.zd

  fill_zone_report-Filled : Returns Filled (fill_zone_report ftl cmd)
  unfolding fill_zone_report
  fill_zone_report-Filled =
      Returns-bind
        (copy_descs-IsRange ftl.zone_descs (lba_to_zone ftl cmd.slba) (nr_zone_to_report ftl cmd)
          fits)
        λ zd r. returns (refl, r)

  -- A receive command that the checks let through reports the zones from the one that it names on,
  -- in order: a full report all of them, a partial one as many as the transfer has room for.
  -- Condition: a partial report has room for at least the header and asks for no more zones than
  -- follow.
  pub zns_zmgmt_recv-Reports :
      Returns (Reports ftl cmd nsecs_start) (zns_zmgmt_recv ftl cmd nsecs_start)
  unfolding zns_zmgmt_recv
  zns_zmgmt_recv-Reports =
      Returns-if (check_zmgmt_rcv_option_supported ftl cmd)
        (λ _. Returns-bind fill_zone_report-Filled λ report p. returns (record {
          answer = refl;
          report = report;
          made = refl;
          number = p.0 ∙ number;
          range = rw p.0 p.1;
        }))
        (λ n. absurd (ground (arith, ok)))
