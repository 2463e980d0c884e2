-- ===== src/Zns/Manage/Isolated.antt =====
-- What a reset leaves in its zone.
use nvme_virt.Prelude.{
  ℕ, ◌≡◌, refl, Bool, true, false, some, get_elem?, set, get_elem?-set_self, get_elem?_bound,
  Returns, returns, arith,
}
use nvme_virt.Zns.State.{
  ZoneState, empty, opened_impl, opened_expl, closed, read_only, full, offline, success,
  invalid_transition, ZoneDescriptor, ZnsFtl, lba_to_zone,
}
use nvme_virt.Zns.Manage.{Outcome, reset_in, act, zmgmt_send, zsa_reset_zone}
use nvme_virt.Zns.Resources.{in_zone}

abbrev pub is_resettable : ZoneState → Bool
is_resettable read_only = false
is_resettable offline = false
is_resettable _ = true

-- What a reset of the zone `zid` with the descriptor `d` does.
pub data Reset (ftl : ZnsFtl) (zid : ℕ) (d : ZoneDescriptor) : Outcome → Type 0 where
  wiped :
      {ftl' : ZnsFtl}
      → is_resettable d.state ≡ true
      → get_elem? ftl'.zone_descs zid
        ≡ some (record d { state = empty; wp = d.zslba; zrwav = false })
      → ((a : ℕ) → in_zone ftl zid a ≡ true → ftl'.storage a ≡ 0)
      → Reset ftl zid d (success, ftl')
  not_wiped : is_resettable d.state ≡ false → Reset ftl zid d (invalid_transition, ftl)

module _ (ftl : ZnsFtl) (zid : ℕ) (d : ZoneDescriptor)
    (here : get_elem? ftl.zone_descs zid ≡ some d) where
  abbrev clean : ZoneDescriptor
  clean = record d { state = empty; wp = d.zslba; zrwav = false }

  there : get_elem? (set ftl.zone_descs zid clean) zid ≡ some clean
  there = get_elem?-set_self ftl.zone_descs zid clean (get_elem?_bound ftl.zone_descs zid here)

  reset_in-Reset : (s : ZoneState) → d.state ≡ s → Reset ftl zid d (reset_in s ftl zid d)
  unfolding reset_in
  reset_in-Reset opened_impl e =
      wiped (rw e refl) (ground (arith, there)) (λ a h. ground (arith, h))
  reset_in-Reset opened_expl e =
      wiped (rw e refl) (ground (arith, there)) (λ a h. ground (arith, h))
  reset_in-Reset closed e = wiped (rw e refl) (ground (arith, there)) (λ a h. ground (arith, h))
  reset_in-Reset full e = wiped (rw e refl) (ground (arith, there)) (λ a h. ground (arith, h))
  reset_in-Reset empty e = wiped (rw e refl) (ground (arith, there)) (λ a h. ground (arith, h))
  reset_in-Reset _ e = not_wiped (rw e refl)

-- A reset of a zone that exists returns. A zone that is read-only or offline is left alone, with an
-- invalid transition as the answer; any other is empty afterwards, its write pointer at its start
-- and without a random write area, and every byte of it is 0.
pub zmgmt_send-Reset :
    (ftl : ZnsFtl) (slba : ℕ) (option : Bool) (d : ZoneDescriptor)
    → get_elem? ftl.zone_descs (lba_to_zone ftl slba) ≡ some d
    → Returns (Reset ftl (lba_to_zone ftl slba) d) (zmgmt_send ftl slba zsa_reset_zone option)
unfolding zmgmt_send act
zmgmt_send-Reset ftl slba option d here =
    rw here (returns (reset_in-Reset ftl (lba_to_zone ftl slba) d here d.state refl))
