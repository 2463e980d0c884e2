-- ===== src/Zns/Write/Admit.antt =====
-- Which writes a zone admits, and what an admitted write does to the zone and to the counters.
use nvme_virt.Prelude.{
  ℕ, ◌+◌, ◌%◌, ◌≡◌, refl, sym, subst, ◌∙◌, Bool, true, false, some, ◌==◌, not, if◌then◌else◌, u64,
  get_elem?, set, set-set, get_elem?-set_self, get_elem?_bound, arith,
}
use nvme_virt.Zns.State.{
  ZoneState, empty, opened_impl, opened_expl, closed, full, active_zone, open_zone, ZoneDescriptor,
  ZnsFtl, is_zone_resource_avail, is_zone_resource_full, Status, success, zone_to_slba, lba_to_byte,
}
use nvme_virt.Zns.Resources.{is_open, is_active, Counted, Moved, Moved-Counted, Held, Counted-Held}
use nvme_virt.Zns.Request.{increase_write_ptr, check_boundary}
use nvme_virt.Zns.Write.{Admission, refused, admitted, admit_in, admit, advance_wp}

-- The zones that take writes, and the state in which a write leaves one that it does not fill.
abbrev pub is_writable : ZoneState → Bool
is_writable empty = true
is_writable s = is_active s

abbrev pub opened_by : ZoneState → ZoneState
opened_by empty = opened_impl
opened_by closed = opened_impl
opened_by s = s

-- `u64 (d.wp + nr_lba)` is the end of the zone.
abbrev pub ends : ZnsFtl → ℕ → ZoneDescriptor → ℕ → Bool
ends ftl zid d nr_lba = u64 (d.wp + nr_lba) == u64 (zone_to_slba ftl zid + d.zone_capacity)

Moved-trans :
    {a b c : ZnsFtl} {zid : ℕ} {d e f : ZoneDescriptor}
    → Moved a b zid d e
    → Moved b c zid e f
    → Moved a c zid d f
Moved-trans {a} {b} {c} {zid} {d} {e} {f} m n = record {
  descs =
      n.descs
      ∙ subst (λ xs. set xs zid f ≡ set a.zone_descs zid f) (sym m.descs)
          (set-set a.zone_descs zid e f);
  active = omega (arith, m.active, n.active);
  opened = omega (arith, m.opened, n.opened);
  zrwa = omega (arith, m.zrwa, n.zrwa);
  active_le = omega (arith, n.active_le, m.active_total);
  opened_le = omega (arith, n.opened_le, m.opened_total);
  zrwa_le = omega (arith, n.zrwa_le, m.zrwa_total);
  active_total = n.active_total ∙ m.active_total;
  opened_total = n.opened_total ∙ m.opened_total;
  zrwa_total = n.zrwa_total ∙ m.zrwa_total;
  plain = n.plain;
  params = n.params ∙ m.params;
  drive = n.drive ∙ m.drive;
  stored = λ x o. n.stored x (rw m.params o) ∙ m.stored x o;
}

abbrev advanced : ZnsFtl → ℕ → ZoneDescriptor → ℕ → ZoneDescriptor
advanced ftl zid d nr_lba = record d {
  wp = u64 (d.wp + nr_lba);
  state = if ends ftl zid d nr_lba then full else d.state;
}

increase_write_ptr-Moved :
    (ftl : ZnsFtl) (zid : ℕ) (d : ZoneDescriptor) (nr_lba : ℕ) (s : ZoneState)
    → d.state ≡ s
    → is_open s ≡ true
    → d.zrwav ≡ false
    → Counted ftl
    → Held ftl d
    → Moved ftl (increase_write_ptr ftl zid d nr_lba) zid d (advanced ftl zid d nr_lba)
unfolding increase_write_ptr
increase_write_ptr-Moved ftl zid d nr_lba opened_impl e o z c h =
    ground (arith, h.active, h.opened, h.zrwa)
increase_write_ptr-Moved ftl zid d nr_lba opened_expl e o z c h =
    ground (arith, h.active, h.opened, h.zrwa)
increase_write_ptr-Moved ftl zid d nr_lba _ e o z c h = absurd (ground arith)

abbrev pub is_success : Status → Bool
is_success success = true
is_success _ = false

-- A write is refused and nothing changes, or it stands at the write pointer, within one zone, and
-- moves the write pointer and the state.
pub data Admits (ftl : ZnsFtl) (zid : ℕ) (d : ZoneDescriptor) (slba nr_lba : ℕ)
    : Admission → Type 0 where
  refuses : {s : Status} → is_success s ≡ false → Admits ftl zid d slba nr_lba (refused s ftl)
  admits :
      {d1 : ZoneDescriptor} {ftl' : ZnsFtl} (d' : ZoneDescriptor)
      → slba ≡ d.wp
      → check_boundary ftl slba nr_lba ≡ true
      → lba_to_byte nr_lba % ftl.ssd.sp.write_unit_size ≡ 0
      → d'.wp ≡ u64 (d.wp + nr_lba)
      → is_writable d.state ≡ true
      → d'.state ≡ (if ends ftl zid d nr_lba then full else opened_by d.state)
      → Moved ftl ftl' zid d d'
      → Admits ftl zid d slba nr_lba (admitted d1 ftl')

module _ (ftl : ZnsFtl) (zid : ℕ) (d : ZoneDescriptor) (slba nr_lba : ℕ) (c : Counted ftl)
    (here : get_elem? ftl.zone_descs zid ≡ some d) (plain : d.zrwav ≡ false) where
  abbrev Result : Admission → Type 0
  Result a = Admits ftl zid d slba nr_lba (advance_wp a zid nr_lba)

  Result-if :
      (b : Bool) (x y : Admission)
      → (b ≡ true → Result x)
      → (b ≡ false → Result y)
      → Result (if b then x else y)
  Result-if true x y p q = p refl
  Result-if false x y p q = q refl

  module _ (same_zone : check_boundary ftl slba nr_lba ≡ true)
      (whole : lba_to_byte nr_lba % ftl.ssd.sp.write_unit_size ≡ 0) (at_wp : slba ≡ d.wp) where
    -- the zone is opened by the write
    opens :
        (ftl1 : ZnsFtl)
        → Moved ftl ftl1 zid d (record d { state = opened_impl })
        → is_writable d.state ≡ true
        → opened_by d.state ≡ opened_impl
        → Result (admitted (record d { state = opened_impl }) ftl1)
    unfolding zone_to_slba
    opens ftl1 m w o =
        let d1 : ZoneDescriptor = record d { state = opened_impl } in
        let c1 : Counted ftl1 = Moved-Counted here m c in
        let at : get_elem? ftl1.zone_descs zid ≡ some d1 =
          rw m.descs
            (get_elem?-set_self ftl.zone_descs zid d1 (get_elem?_bound ftl.zone_descs zid here)) in
        admits (advanced ftl1 zid d1 nr_lba) at_wp same_zone whole refl w
          (rw o (rw m.params (rw m.drive refl)))
          (Moved-trans m (
            increase_write_ptr-Moved ftl1 zid d1 nr_lba opened_impl refl refl plain c1
              (Counted-Held zid at c1)))

    -- the zone is open already
    goes_on :
        (s : ZoneState)
        → d.state ≡ s
        → is_open s ≡ true
        → is_writable s ≡ true
        → opened_by s ≡ s
        → Result (admitted d ftl)
    goes_on s e o w b =
        admits (advanced ftl zid d nr_lba) at_wp same_zone whole refl (rw e w) (rw e (rw b refl))
          (increase_write_ptr-Moved ftl zid d nr_lba s e o plain c (Counted-Held zid here c))

    admit_in-Admits : (s : ZoneState) → d.state ≡ s → Result (admit_in s ftl zid d slba)
    unfolding admit_in
    admit_in-Admits empty e =
        Result-if (not (slba == d.zslba)) _ _ (λ _. refuses refl)
          λ _.
            Result-if (is_zone_resource_full ftl active_zone) _ _ (λ _. refuses refl)
              λ a.
                Result-if (is_zone_resource_full ftl open_zone) _ _ (λ _. refuses refl)
                  λ o.
                    Result-if (is_zone_resource_avail ftl open_zone) _ _
                      (λ more.
                        opens _ (ground (arith, c.active_le, c.opened_le)) (rw e refl) (rw e refl))
                      (λ n. absurd (ground (arith, c.opened_le)))
    admit_in-Admits closed e =
        Result-if (is_zone_resource_avail ftl open_zone) _ _
          (λ more. opens _ (ground (arith, c.active_le, c.opened_le)) (rw e refl) (rw e refl))
          (λ _. refuses refl)
    admit_in-Admits opened_impl e = goes_on opened_impl e refl refl refl
    admit_in-Admits opened_expl e = goes_on opened_expl e refl refl refl
    admit_in-Admits _ e = refuses refl

  -- Whatever the request, the write is refused and nothing changes, or it stands at the write
  -- pointer of a zone that takes writes and within that zone, and moves the write pointer by its
  -- length; the zone then is full exactly if that is its end, and else open; and the resource
  -- counters move with the zone. Condition: they were right, and the zone has no random write area.
  pub admit-Admits :
      Admits ftl zid d slba nr_lba (advance_wp (admit ftl zid d slba nr_lba) zid nr_lba)
  unfolding admit
  admit-Admits =
      Result-if (not (lba_to_byte nr_lba % ftl.ssd.sp.write_unit_size == 0)) _ _ (λ _. refuses refl)
        λ w.
          Result-if (not (check_boundary ftl slba nr_lba)) _ _ (λ _. refuses refl)
            λ b.
              Result-if (not (slba == d.wp)) _ _ (λ _. refuses refl)
                λ p. admit_in-Admits (ground arith) (ground arith) (ground arith) d.state refl
