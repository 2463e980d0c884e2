-- ===== src/Zns/Manage/Counted.antt =====
-- The zone management commands from the point of view of the whole namespace: they always return and
-- keep the resource counters right.
use nvme_virt.Prelude.{
  ℕ, zero, suc, ◌+◌, ◌*◌, ◌/◌, ◌^◌, ◌≤◌, ◌<◌, ◌≡◌, refl, sym, ap, ◌∙◌, Bool, false, some, length,
  length-set, get_elem?, count, u32, u64, some_inj, Returns, returns, Returns-bind, Returns-mono,
  Returns-if, arith,
}
use nvme_virt.Ssd.Layout.{Ssd}
use nvme_virt.Zns.State.{
  ZnsFtl, ZnsParams, ZoneDescriptor, Status, lba_to_zone, zone_to_slba, lbas_per_zone,
  init_zone_descs, fresh_desc, byte_to_lba, zns_init_ftl, empty,
}
use nvme_virt.Zns.Manage.{
  Outcome, zmgmt_send, send_all, zns_zmgmt_send, ZoneSendAction, ZoneMgmtSend,
}
use nvme_virt.Zns.Resources.{Counted, Moved-Counted, in_active, in_open, holds_zrwa}
use nvme_virt.Zns.Manage.Effects.{same, moved, Flushable, Changed, changed, zmgmt_send-Changed}

-- The counters are right, there is one descriptor for each zone, and the sectors of all zones are
-- numbered in 32 bits.
pub record Ready (ftl : ZnsFtl) : Type 0 where
  pub counted : Counted ftl
  pub zones : length ftl.zone_descs ≡ ftl.zp.nr_zones
  pub sectors : 0 < lbas_per_zone ftl
  pub numbered : ftl.zp.nr_zones * lbas_per_zone ftl ≤ 2 ^ 32

-- `ftl'` is ready and of the geometry of `ftl`.
record Kept (ftl ftl' : ZnsFtl) : Type 0 where
  pub ready : Ready ftl'
  pub params : ftl'.zp ≡ ftl.zp
  pub drive : ftl'.ssd ≡ ftl.ssd

Changed-Kept : {ftl ftl' : ZnsFtl} {zid : ℕ} → Ready ftl → Changed ftl zid ftl' → Kept ftl ftl'
Changed-Kept r (changed d e same) = record { ready = r; params = refl; drive = refl }
Changed-Kept {ftl} {ftl'} {zid} r (changed d e (moved d' a m)) = record {
  ready = record {
    counted = Moved-Counted e m r.counted;
    zones = rw m.descs (rw m.params (length-set ftl.zone_descs zid d' ∙ r.zones));
    sectors = rw m.params (rw m.drive r.sectors);
    numbered = rw m.params (rw m.drive r.numbered);
  };
  params = m.params;
  drive = m.drive;
}

zmgmt_send-Kept :
    (ftl : ZnsFtl) (slba : ℕ) (action : ZoneSendAction) (option : Bool)
    → Ready ftl
    → Flushable ftl action
    → lba_to_zone ftl slba < ftl.zp.nr_zones
    → Returns (λ (o : Outcome). Kept ftl o.1) (zmgmt_send ftl slba action option)
zmgmt_send-Kept ftl slba action option r g inside =
    Returns-mono (zmgmt_send-Changed ftl slba action option r.counted g (rw r.zones inside))
      λ o p. Changed-Kept r p

mul_div : (z l : ℕ) → 0 < l → z * l / l ≡ z
mul_div z l h = grind arith

mul_lt : (z n l : ℕ) → z < n → 0 < l → n * l ≤ 2 ^ 32 → z * l < 2 ^ 32
mul_lt z n l h k m = grind arith

small : (z l : ℕ) → 0 < l → z * l < 2 ^ 32 → z < 2 ^ 32
small z l h k = grind arith

-- The first sector of a zone that exists lies in that zone. Condition: the namespace is ready, so
-- that its sectors are numbered in 32 bits.
pub lba_to_zone-zone_to_slba :
    (ftl : ZnsFtl) (zid : ℕ)
    → Ready ftl
    → zid < ftl.zp.nr_zones
    → lba_to_zone ftl (zone_to_slba ftl zid) ≡ zid
unfolding lba_to_zone zone_to_slba
lba_to_zone-zone_to_slba ftl zid r inside =
    let l = lbas_per_zone ftl in
    let b : zid * l < 2 ^ 32 = mul_lt zid ftl.zp.nr_zones l inside r.sectors r.numbered in
    let s : zid < 2 ^ 32 = small zid l r.sectors b in
    let e1 : u32 zid ≡ zid = omega (arith, s) in
    let e2 : u32 (zid * l) ≡ zid * l = omega (arith, b) in
    rw e1 (rw e2 (rw (mul_div zid l r.sectors) e1))

Kept-trans : {a b c : ZnsFtl} → Kept a b → Kept b c → Kept a c
Kept-trans p q = record { ready = q.ready; params = q.params ∙ p.params; drive = q.drive ∙ p.drive }

send_all-Kept :
    (n zid : ℕ) (ftl : ZnsFtl) (action : ZoneSendAction) (option : Bool)
    → Ready ftl
    → Flushable ftl action
    → zid + n ≤ ftl.zp.nr_zones
    → Returns (λ ftl'. Kept ftl ftl') (send_all n zid ftl action option)
unfolding send_all
send_all-Kept zero zid ftl action option r g b =
    returns (record { ready = r; params = refl; drive = refl })
send_all-Kept (suc n) zid ftl action option r g b =
    let here : lba_to_zone ftl (zone_to_slba ftl zid) < ftl.zp.nr_zones =
      rw (lba_to_zone-zone_to_slba ftl zid r (omega arith)) (omega arith) in
    Returns-bind (zmgmt_send-Kept ftl (zone_to_slba ftl zid) action option r g here) λ o k.
      Returns-mono
        (send_all-Kept n (zid + 1) o.1 action option k.ready (λ e. rw k.params (g e))
          (rw k.params (omega arith)))
        λ _. Kept-trans k

-- Every zone management send command, for all zones or for one that exists, returns, at the time at
-- which it started, and leaves the namespace ready. Condition: it was ready before, and, for a flush of
-- the random write area alone, the flush granularity is not 0.
pub zns_zmgmt_send-Ready :
    (ftl : ZnsFtl) (cmd : ZoneMgmtSend) (nsecs_start : ℕ)
    → Ready ftl
    → Flushable ftl cmd.zsa
    → (cmd.select_all ≡ false → lba_to_zone ftl cmd.slba < ftl.zp.nr_zones)
    → Returns
        (λ (o : (Status × ℕ) × ZnsFtl). (o.0.1 ≡ nsecs_start) × Ready o.1)
        (zns_zmgmt_send ftl cmd nsecs_start)
unfolding zns_zmgmt_send
zns_zmgmt_send-Ready ftl cmd t r g inside =
    Returns-if cmd.select_all
      (λ _.
        Returns-bind (send_all-Kept ftl.zp.nr_zones 0 ftl cmd.zsa cmd.zsaso r g (omega arith))
          λ _ k. returns (refl, k.ready))
      (λ one.
        Returns-bind (zmgmt_send-Kept ftl cmd.slba cmd.zsa cmd.zsaso r g (inside one))
          λ _ k. returns (refl, k.ready))

length-init_zone_descs : (z n s : ℕ) → length (init_zone_descs z n s) ≡ n
unfolding init_zone_descs
length-init_zone_descs z zero s = refl
length-init_zone_descs z (suc n) s = ap suc (length-init_zone_descs z n (u64 (s + byte_to_lba z)))

count-init_zone_descs :
    (f : ZoneDescriptor → Bool)
    → ((d : ZoneDescriptor) → d.state ≡ empty → d.zrwav ≡ false → f d ≡ false)
    → (z n s : ℕ) → count f (init_zone_descs z n s) ≡ 0
unfolding init_zone_descs
count-init_zone_descs f k z zero s = refl
count-init_zone_descs f k z (suc n) s =
    rw (k (fresh_desc z s) refl refl)
      (omega (arith, count-init_zone_descs f k z n (u64 (s + byte_to_lba z))))

plain-init_zone_descs :
    (z n s i : ℕ) {d : ZoneDescriptor}
    → get_elem? (init_zone_descs z n s) i ≡ some d
    → d.zrwav ≡ false
unfolding init_zone_descs
plain-init_zone_descs z zero s i e = absurd (ground arith)
plain-init_zone_descs z (suc n) s zero e = ap (λ (x : ZoneDescriptor). x.zrwav) (sym (some_inj e))
plain-init_zone_descs z (suc n) s (suc i) e = plain-init_zone_descs z n _ i e

-- A namespace is ready once it is constructed, for a number of zones and a zone size whose sectors
-- are numbered in 32 bits, whatever the memory holds.
pub zns_init_ftl-Ready :
    (zp : ZnsParams) (ssd : Ssd) (mapped : ℕ → ℕ)
    → zp.nr_zones < 2 ^ 32
    → 0 < lbas_per_zone (zns_init_ftl zp ssd mapped)
    → zp.nr_zones * lbas_per_zone (zns_init_ftl zp ssd mapped) ≤ 2 ^ 32
    → Ready (zns_init_ftl zp ssd mapped)
unfolding zns_init_ftl
zns_init_ftl-Ready zp ssd mapped b s n =
    let none_of : (f : ZoneDescriptor → Bool)
        → ((d : ZoneDescriptor) → d.state ≡ empty → d.zrwav ≡ false → f d ≡ false)
        → count f (init_zone_descs zp.zone_size zp.nr_zones 0) ≡ 0 =
      λ f k. count-init_zone_descs f k zp.zone_size zp.nr_zones 0 in
    record {
      counted = record {
        active = sym (none_of in_active (λ d e z. rw e refl));
        opened = sym (none_of in_open (λ d e z. rw e refl));
        zrwa = rw (none_of holds_zrwa (λ d e z. rw e (rw z refl))) (omega arith);
        active_le = omega arith;
        opened_le = omega arith;
        zrwa_le = omega arith;
        active_total = b;
        opened_total = b;
        zrwa_total = b;
        plain = λ i d e _. plain-init_zone_descs zp.zone_size zp.nr_zones 0 i e;
      };
      zones = length-init_zone_descs zp.zone_size zp.nr_zones 0;
      sectors = s;
      numbered = n;
    }
