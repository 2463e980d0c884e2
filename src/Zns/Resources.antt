-- ===== src/Zns/Resources.antt =====
-- What the resource counters of the zoned namespace count, and the change of one zone that keeps
-- the count right.
use nvme_virt.Prelude.{
  ℕ, ◌+◌, ◌*◌, leb, ltb, false, ◌^◌, ◌≤◌, ◌<◌, ◌≡◌, inl, inr, sym, subst, some_inj, ◌∙◌, List, Bool,
  true, false, some, ◌&&◌, ◌==◌, ==_iff, Bool-cases, get_elem?, set, count, one_if, count-set,
  count-ge_one_if, get_elem?-set_self, get_elem?-set_ne, get_elem?_bound, arith,
}
use nvme_virt.Zns.State.{ZoneState, empty, opened_impl, opened_expl, closed, ZoneDescriptor, ZnsFtl}

abbrev pub is_open : ZoneState → Bool
is_open opened_impl = true
is_open opened_expl = true
is_open _ = false

abbrev pub is_active : ZoneState → Bool
is_active opened_impl = true
is_active opened_expl = true
is_active closed = true
is_active _ = false

abbrev pub in_active : ZoneDescriptor → Bool
in_active d = is_active d.state

abbrev pub in_open : ZoneDescriptor → Bool
in_open d = is_open d.state

abbrev pub holds_zrwa : ZoneDescriptor → Bool
holds_zrwa d = d.zrwav && is_active d.state

-- The counters count the active and the open zones and cover the zones with a random write area;
-- none is above its limit; an empty zone has no random write area.
pub record Counted (ftl : ZnsFtl) : Type 0 where
  pub active : ftl.active.acquired_cnt ≡ count in_active ftl.zone_descs
  pub opened : ftl.opened.acquired_cnt ≡ count in_open ftl.zone_descs
  pub zrwa : count holds_zrwa ftl.zone_descs ≤ ftl.zrwa.acquired_cnt
  pub active_le : ftl.active.acquired_cnt ≤ ftl.active.total_cnt
  pub opened_le : ftl.opened.acquired_cnt ≤ ftl.opened.total_cnt
  pub zrwa_le : ftl.zrwa.acquired_cnt ≤ ftl.zrwa.total_cnt
  pub active_total : ftl.active.total_cnt < 2 ^ 32
  pub opened_total : ftl.opened.total_cnt < 2 ^ 32
  pub zrwa_total : ftl.zrwa.total_cnt < 2 ^ 32
  pub plain :
      (i : ℕ) (d : ZoneDescriptor)
      → get_elem? ftl.zone_descs i ≡ some d
      → d.state ≡ empty
      → d.zrwav ≡ false

-- The byte `a` of the storage is one of the zone `zid`.
abbrev pub in_zone : ZnsFtl → ℕ → ℕ → Bool
in_zone ftl zid a =
    leb (zid * ftl.zp.zone_size) a && ltb a (zid * ftl.zp.zone_size + ftl.zp.zone_size)

-- From `ftl` to `ftl'` the descriptor of zone `zid` changes from `d` to `d'`, and the counters with
-- it, and no byte outside the zone.
pub record Moved (ftl ftl' : ZnsFtl) (zid : ℕ) (d d' : ZoneDescriptor) : Type 0 where
  pub descs : ftl'.zone_descs ≡ set ftl.zone_descs zid d'
  pub active :
      ftl'.active.acquired_cnt + one_if (in_active d)
      ≡ ftl.active.acquired_cnt + one_if (in_active d')
  pub opened :
      ftl'.opened.acquired_cnt + one_if (in_open d) ≡ ftl.opened.acquired_cnt + one_if (in_open d')
  pub zrwa :
      ftl.zrwa.acquired_cnt + one_if (holds_zrwa d')
      ≤ ftl'.zrwa.acquired_cnt + one_if (holds_zrwa d)
  pub active_le : ftl'.active.acquired_cnt ≤ ftl.active.total_cnt
  pub opened_le : ftl'.opened.acquired_cnt ≤ ftl.opened.total_cnt
  pub zrwa_le : ftl'.zrwa.acquired_cnt ≤ ftl.zrwa.total_cnt
  pub active_total : ftl'.active.total_cnt ≡ ftl.active.total_cnt
  pub opened_total : ftl'.opened.total_cnt ≡ ftl.opened.total_cnt
  pub zrwa_total : ftl'.zrwa.total_cnt ≡ ftl.zrwa.total_cnt
  pub plain : d'.state ≡ empty → d'.zrwav ≡ false
  pub params : ftl'.zp ≡ ftl.zp
  pub drive : ftl'.ssd ≡ ftl.ssd
  pub stored : (a : ℕ) → in_zone ftl zid a ≡ false → ftl'.storage a ≡ ftl.storage a

plain-set :
    (xs : List ZoneDescriptor) (zid i : ℕ) (d d' e : ZoneDescriptor)
    → get_elem? xs zid ≡ some d
    → ((j : ℕ) (c : ZoneDescriptor) → get_elem? xs j ≡ some c → c.state ≡ empty → c.zrwav ≡ false)
    → (d'.state ≡ empty → d'.zrwav ≡ false)
    → get_elem? (set xs zid d') i ≡ some e
    → e.state ≡ empty
    → e.zrwav ≡ false
plain-set xs zid i d d' e at old new h = elim (Bool-cases (zid == i)) [
  | inl s ↦
      let here : get_elem? (set xs zid d') i ≡ some d' =
        subst (λ k. get_elem? (set xs zid d') k ≡ some d') ((==_iff zid i).0 s)
          (get_elem?-set_self xs zid d' (get_elem?_bound xs zid at)) in
      subst (λ (c : ZoneDescriptor). c.state ≡ empty → c.zrwav ≡ false) (some_inj (sym here ∙ h))
        new
  | inr n ↦ old i e (sym (get_elem?-set_ne xs zid i d' (ground arith)) ∙ h)
]

-- Such a change keeps the counters right.
pub Moved-Counted :
    {ftl ftl' : ZnsFtl} {zid : ℕ} {d d' : ZoneDescriptor}
    → get_elem? ftl.zone_descs zid ≡ some d
    → Moved ftl ftl' zid d d'
    → Counted ftl
    → Counted ftl'
Moved-Counted {ftl} {ftl'} {zid} {d} {d'} at m c =
    let xs = ftl.zone_descs in
    record {
      active = rw m.descs (omega (arith, count-set in_active xs zid d' at, m.active, c.active));
      opened = rw m.descs (omega (arith, count-set in_open xs zid d' at, m.opened, c.opened));
      zrwa = rw m.descs (omega (arith, count-set holds_zrwa xs zid d' at, m.zrwa, c.zrwa));
      active_le = rw m.active_total m.active_le;
      opened_le = rw m.opened_total m.opened_le;
      zrwa_le = rw m.zrwa_total m.zrwa_le;
      active_total = rw m.active_total c.active_total;
      opened_total = rw m.opened_total c.opened_total;
      zrwa_total = rw m.zrwa_total c.zrwa_total;
      plain = λ i e. rw m.descs (plain-set xs zid i d d' e at c.plain m.plain);
    }

-- What the counters say of one zone.
pub record Held (ftl : ZnsFtl) (d : ZoneDescriptor) : Type 0 where
  pub active : one_if (in_active d) ≤ ftl.active.acquired_cnt
  pub opened : one_if (in_open d) ≤ ftl.opened.acquired_cnt
  pub zrwa : one_if (holds_zrwa d) ≤ ftl.zrwa.acquired_cnt
  pub plain : d.state ≡ empty → d.zrwav ≡ false

pub Counted-Held :
    {ftl : ZnsFtl} (zid : ℕ) {d : ZoneDescriptor}
    → get_elem? ftl.zone_descs zid ≡ some d
    → Counted ftl
    → Held ftl d
Counted-Held {ftl} zid {d} at c = record {
  active = omega (arith, count-ge_one_if in_active ftl.zone_descs zid at, c.active);
  opened = omega (arith, count-ge_one_if in_open ftl.zone_descs zid at, c.opened);
  zrwa = omega (arith, count-ge_one_if holds_zrwa ftl.zone_descs zid at, c.zrwa);
  plain = c.plain zid d at;
}
