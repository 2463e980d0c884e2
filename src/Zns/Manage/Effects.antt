-- ===== src/Zns/Manage/Effects.antt =====
-- Each zone management command moves the zone that it names along an arc of the zone state machine,
-- and the counters with it, or changes nothing.
use nvme_virt.Prelude.{
  ℕ, ◌<◌, ◌≡◌, refl, Bool, true, false, some, ◌||◌, if◌then◌else◌, ◌==◌, not, Option, get_elem?,
  set-set, arith, length, get_elem?_total, Returns, returns, Returns-if, Returns-mono,
}
use nvme_virt.Zns.State.{
  ZoneState, empty, opened_impl, opened_expl, closed, read_only, full, offline, lba_to_zone,
  active_zone, open_zone, zrwa_zone, is_zone_resource_full, is_zone_resource_avail,
  acquire_zone_resource, ZoneDescriptor, ZnsFtl,
}
use nvme_virt.Zns.Manage.{
  in_zrwa, is_granular, close_in, finish_in, Outcome, open_empty, open_in, flushed, fills, reset_in,
  offline_in, flush_in, flush_explicit_zrwa, with_desc, act, zmgmt_send, ZoneSendAction,
  zsa_close_zone, zsa_finish_zone, zsa_open_zone, zsa_reset_zone, zsa_offline_zone,
  zsa_flush_expl_zrwa, zsa_set_zone_desc_ext, zsa_other,
}
use nvme_virt.Zns.Resources.{is_active, Counted, Moved, Held, Counted-Held}

-- The arcs of the zone state machine on which a management command can take a zone. A flush of the
-- random write area may leave the state as it is.
abbrev pub arc : ZoneState → ZoneState → Bool
arc opened_impl opened_impl = true
arc s empty = is_active s || elim s [ empty ↦ true | full ↦ true | _ ↦ false ]
arc s opened_expl = is_active s || elim s [ empty ↦ true | _ ↦ false ]
arc s closed = is_active s
arc s full = is_active s || elim s [ empty ↦ true | _ ↦ false ]
arc read_only offline = true
arc _ _ = false

-- Nothing changes, or the zone takes an arc.
pub data Effect (ftl : ZnsFtl) (zid : ℕ) (d : ZoneDescriptor) : ZnsFtl → Type 0 where
  same : Effect ftl zid d ftl
  moved :
      {ftl' : ZnsFtl} (d' : ZoneDescriptor)
      → arc d.state d'.state ≡ true
      → Moved ftl ftl' zid d d'
      → Effect ftl zid d ftl'

abbrev wiped : ZoneDescriptor → ZoneDescriptor
wiped d = record d { state = empty; wp = d.zslba; zrwav = false }

module _ (ftl : ZnsFtl) (zid : ℕ) (d : ZoneDescriptor) (c : Counted ftl) (h : Held ftl d) where
  close_in-Effect : (s : ZoneState) → d.state ≡ s → Effect ftl zid d (close_in s ftl zid d).1
  unfolding close_in
  close_in-Effect opened_impl e =
      moved (record d { state = closed }) (rw e) (ground (arith, h.plain))
  close_in-Effect opened_expl e =
      moved (record d { state = closed }) (rw e) (ground (arith, h.plain))
  close_in-Effect closed e = same
  close_in-Effect _ e = same

  finish_in-Effect : (s : ZoneState) → d.state ≡ s → Effect ftl zid d (finish_in s ftl zid d).1
  unfolding finish_in
  finish_in-Effect opened_impl e =
      moved (record d { state = full }) (rw e) (ground (arith, h.plain))
  finish_in-Effect opened_expl e =
      moved (record d { state = full }) (rw e) (ground (arith, h.plain))
  finish_in-Effect closed e = moved (record d { state = full }) (rw e) (ground (arith, h.plain))
  finish_in-Effect empty e = moved (record d { state = full }) (rw e) (ground (arith, h.plain))
  finish_in-Effect _ e = same

  offline_in-Effect : (s : ZoneState) → d.state ≡ s → Effect ftl zid d (offline_in s ftl zid d).1
  unfolding offline_in
  offline_in-Effect read_only e =
      moved (record d { state = offline }) (rw e) (ground (arith, h.plain))
  offline_in-Effect _ e = same

  reset_in-Effect : (s : ZoneState) → d.state ≡ s → Effect ftl zid d (reset_in s ftl zid d).1
  unfolding reset_in
  reset_in-Effect opened_impl e = moved (wiped d) (rw e) (ground (arith, h.plain))
  reset_in-Effect opened_expl e = moved (wiped d) (rw e) (ground (arith, h.plain))
  reset_in-Effect closed e = moved (wiped d) (rw e) (ground (arith, h.plain))
  reset_in-Effect full e = moved (wiped d) (rw e) (ground (arith, h.plain))
  reset_in-Effect empty e = moved (wiped d) (rw e) (ground (arith, h.plain))
  reset_in-Effect _ e = same

  abbrev Follows : Outcome → Type 0
  Follows o = Effect ftl zid d o.1

  Follows-if :
      (b : Bool) (x y : Outcome)
      → (b ≡ true → Follows x)
      → (b ≡ false → Follows y)
      → Follows (if b then x else y)
  Follows-if true x y p q = p refl
  Follows-if false x y p q = q refl

  open_empty-Follows :
      d.state ≡ empty
      → is_zone_resource_full ftl active_zone ≡ false
      → is_zone_resource_full ftl open_zone ≡ false
      → Follows (open_empty ftl zid d)
  open_empty-Follows e a o =
      Follows-if (is_zone_resource_avail ftl open_zone) _ _
        (λ more.
          moved (record d { state = opened_expl }) (rw e)
            (ground
              (arith, h.plain, set-set ftl.zone_descs zid d (record d { state = opened_expl }))))
        (λ n. absurd (ground (arith, c.opened_le)))

  open_zrwa-Follows :
      d.state ≡ empty
      → is_zone_resource_full ftl active_zone ≡ false
      → is_zone_resource_full ftl open_zone ≡ false
      → is_zone_resource_full ftl zrwa_zone ≡ false
      → Follows (open_empty (acquire_zone_resource ftl zrwa_zone) zid (record d { zrwav = true }))
  open_zrwa-Follows e a o z =
      let d' : ZoneDescriptor = record d { zrwav = true; state = opened_expl } in
      Follows-if (is_zone_resource_avail ftl open_zone) _ _
        (λ more.
          moved d' (rw e)
            (ground (arith, h.plain, set-set ftl.zone_descs zid (record d { zrwav = true }) d')))
        (λ n. absurd (ground (arith, c.opened_le)))

  open_in-Effect :
      (s : ZoneState) (zrwa : Bool) → d.state ≡ s → Effect ftl zid d (open_in s ftl zid d zrwa).1
  unfolding open_in
  open_in-Effect empty zrwa e =
      Follows-if (is_zone_resource_full ftl active_zone) _ _ (λ _. same)
        λ a.
          Follows-if (is_zone_resource_full ftl open_zone) _ _ (λ _. same)
            λ o.
              Follows-if zrwa _ _
                (λ _.
                  Follows-if (is_zone_resource_full ftl zrwa_zone) _ _ (λ _. same)
                    (open_zrwa-Follows e a o))
                (λ _. open_empty-Follows e a o)
  open_in-Effect closed zrwa e =
      Follows-if (is_zone_resource_avail ftl open_zone) _ _
        (λ more. moved (record d { state = opened_expl }) (rw e) (ground (arith, h.plain)))
        (λ _. same)
  open_in-Effect opened_impl zrwa e =
      moved (record d { state = opened_expl }) (rw e) (ground (arith, h.plain))
  open_in-Effect _ zrwa e = same

  flush_in-Effect :
      (s : ZoneState) (slba : ℕ)
      → d.zrwav ≡ true
      → d.state ≡ s
      → Effect ftl zid d (flush_in s ftl zid d slba).1
  unfolding flush_in
  flush_in-Effect opened_impl slba z e =
      Follows-if (fills ftl zid d slba) _ _
        (λ f. moved (record (flushed d slba) { state = full }) (rw e) (ground (arith, h.plain)))
        (λ f. moved (flushed d slba) (rw e) (ground (arith, h.plain)))
  flush_in-Effect opened_expl slba z e =
      Follows-if (fills ftl zid d slba) _ _
        (λ f. moved (record (flushed d slba) { state = full }) (rw e) (ground (arith, h.plain)))
        (λ f. moved (flushed d slba) (rw e) (ground (arith, h.plain)))
  flush_in-Effect closed slba z e =
      Follows-if (fills ftl zid d slba) _ _
        (λ f. moved (record (flushed d slba) { state = full }) (rw e) (ground (arith, h.plain)))
        (λ f. moved (flushed d slba) (rw e) (ground (arith, h.plain)))
  flush_in-Effect _ slba z e = same

flush_explicit_zrwa-Effect :
    (ftl : ZnsFtl) (zid : ℕ) (d : ZoneDescriptor) (slba : ℕ)
    → Counted ftl
    → Held ftl d
    → 0 < ftl.zp.lbas_per_zrwafg
    → Returns (λ (o : Outcome). Effect ftl zid d o.1) (flush_explicit_zrwa ftl zid d slba)
unfolding flush_explicit_zrwa
flush_explicit_zrwa-Effect ftl zid d slba c h pos =
    Returns-if (not d.zrwav) (λ _. returns same)
      λ z.
        Returns-if (not (in_zrwa ftl zid d slba)) (λ _. returns same)
          λ _.
            Returns-if (ftl.zp.lbas_per_zrwafg == 0) (λ n. absurd (ground arith))
              λ _.
                Returns-if (not (is_granular ftl d slba)) (λ _. returns same)
                  λ _. returns (flush_in-Effect ftl zid d c h d.state slba (ground arith) refl)

-- A command changes nothing, or has an effect on the zone `zid`, which exists.
pub data Changed (ftl : ZnsFtl) (zid : ℕ) : ZnsFtl → Type 0 where
  changed :
      {ftl' : ZnsFtl} (d : ZoneDescriptor)
      → get_elem? ftl.zone_descs zid ≡ some d
      → Effect ftl zid d ftl'
      → Changed ftl zid ftl'

-- A flush of the random write area, and no other command, divides by the flush granularity.
abbrev pub Flushable : ZnsFtl → ZoneSendAction → Type 0
Flushable ftl action = action ≡ zsa_flush_expl_zrwa → 0 < ftl.zp.lbas_per_zrwafg

module _ (ftl : ZnsFtl) (zid : ℕ) (c : Counted ftl) (inside : zid < length ftl.zone_descs) where
  with_desc-Changed :
      (f : ZoneDescriptor → Option Outcome)
      → ((d : ZoneDescriptor) → Held ftl d → Returns (λ (o : Outcome). Effect ftl zid d o.1) (f d))
      → Returns (λ (o : Outcome). Changed ftl zid o.1) (with_desc ftl zid f)
  with_desc-Changed f k =
      let (d, e) = get_elem?_total ftl.zone_descs zid inside in
      rw e (Returns-mono (k d (Counted-Held zid e c)) λ _ p. changed d e p)

  act-Changed :
      (action : ZoneSendAction) (slba : ℕ) (option : Bool)
      → Flushable ftl action
      → Returns (λ (o : Outcome). Changed ftl zid o.1) (act action ftl zid slba option)
  unfolding act
  act-Changed zsa_close_zone slba option g =
      with_desc-Changed _ λ d h. returns (close_in-Effect ftl zid d c h d.state refl)
  act-Changed zsa_finish_zone slba option g =
      with_desc-Changed _ λ d h. returns (finish_in-Effect ftl zid d c h d.state refl)
  act-Changed zsa_open_zone slba option g =
      with_desc-Changed _ λ d h. returns (open_in-Effect ftl zid d c h d.state option refl)
  act-Changed zsa_reset_zone slba option g =
      with_desc-Changed _ λ d h. returns (reset_in-Effect ftl zid d c h d.state refl)
  act-Changed zsa_offline_zone slba option g =
      with_desc-Changed _ λ d h. returns (offline_in-Effect ftl zid d c h d.state refl)
  act-Changed zsa_flush_expl_zrwa slba option g =
      with_desc-Changed _ λ d h. flush_explicit_zrwa-Effect ftl zid d slba c h (g refl)
  act-Changed zsa_set_zone_desc_ext slba option g =
      let (d, e) = get_elem?_total ftl.zone_descs zid inside in returns (changed d e same)
  act-Changed (zsa_other a) slba option g =
      let (d, e) = get_elem?_total ftl.zone_descs zid inside in returns (changed d e same)

-- Every zone management command on a zone that exists returns, and changes at most that zone, along
-- an arc of the zone state machine, and the resource counters with it; the counters must be right
-- before and, for a flush of the random write area alone, the flush granularity not 0.
pub zmgmt_send-Changed :
    (ftl : ZnsFtl) (slba : ℕ) (action : ZoneSendAction) (option : Bool)
    → Counted ftl
    → Flushable ftl action
    → lba_to_zone ftl slba < length ftl.zone_descs
    → Returns
        (λ (o : Outcome). Changed ftl (lba_to_zone ftl slba) o.1)
        (zmgmt_send ftl slba action option)
unfolding zmgmt_send
zmgmt_send-Changed ftl slba action option c g inside =
    act-Changed ftl (lba_to_zone ftl slba) c inside action slba option g
