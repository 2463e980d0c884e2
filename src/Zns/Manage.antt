-- ===== src/Zns/Manage.antt =====
-- zns_mgmt_send.c: the zone management commands. A result is the status and the new state; `none`
-- is an access outside the array of descriptors or a division by zero.
pub mod Counted
pub mod Effects
pub mod Isolated
use nvme_virt.Prelude.{
  ℕ, zero, suc, ◌+◌, ◌-◌, ◌*◌, ◌%◌, ◌^◌, Bool, true, false, Option, some, none, ltb, leb, ◌==◌, not,
  ◌&&◌, ◌||◌, if◌then◌else◌, get_elem?, set, u64, sub64, min_of, ◌>>=◌,
}
use nvme_virt.Buffer.{Buffer, buffer_refill}
use nvme_virt.Zns.State.{
  ZoneState, empty, opened_impl, opened_expl, closed, read_only, full, offline, active_zone,
  open_zone, zrwa_zone, Status, success, invalid_field, invalid_zone_operation, zrwa_rsrc_unavail,
  no_active_zone, no_open_zone, invalid_transition, indeterminate, ZoneDescriptor, ZnsFtl,
  is_zone_resource_avail, is_zone_resource_full, acquire_zone_resource, release_zone_resource,
  put_desc, change_zone_state, lba_to_zone, zone_to_slba,
}

abbrev pub Outcome : Type 0
Outcome = Status × ZnsFtl

-- Each command's `switch (cur_state)`, for the zone `zid` with the descriptor `d`.
pub close_in : ZoneState → ZnsFtl → ℕ → ZoneDescriptor → Outcome
close_in opened_impl ftl zid d =
    (success, release_zone_resource (change_zone_state ftl zid d closed) open_zone)
close_in opened_expl ftl zid d =
    (success, release_zone_resource (change_zone_state ftl zid d closed) open_zone)
close_in closed ftl zid d = (success, ftl)
close_in _ ftl zid d = (invalid_transition, ftl)

abbrev pub release_zrwa : ZnsFtl → Bool → ZnsFtl
release_zrwa ftl is_zrwa_zone = if is_zrwa_zone then release_zone_resource ftl zrwa_zone else ftl

-- from `case ZONE_STATE_CLOSED` on
abbrev pub finish_active : ZnsFtl → ℕ → ZoneDescriptor → ZnsFtl
finish_active ftl zid d =
    change_zone_state (release_zrwa (release_zone_resource ftl active_zone) d.zrwav) zid d full

pub finish_in : ZoneState → ZnsFtl → ℕ → ZoneDescriptor → Outcome
finish_in opened_impl ftl zid d =
    (success, finish_active (release_zone_resource ftl open_zone) zid d)
finish_in opened_expl ftl zid d =
    (success, finish_active (release_zone_resource ftl open_zone) zid d)
finish_in closed ftl zid d = (success, finish_active ftl zid d)
finish_in empty ftl zid d = (success, change_zone_state ftl zid d full)
finish_in full ftl zid d = (success, ftl)
finish_in _ ftl zid d = (invalid_transition, ftl)

-- from `case ZONE_STATE_CLOSED` on
abbrev pub open_closed : ZnsFtl → ℕ → ZoneDescriptor → Outcome
open_closed ftl zid d =
    if is_zone_resource_avail ftl open_zone
    then (success, change_zone_state (acquire_zone_resource ftl open_zone) zid d opened_expl)
    else (no_open_zone, ftl)

-- behind the checks of `case ZONE_STATE_EMPTY`; `zrwav` is written with the state
abbrev pub open_empty : ZnsFtl → ℕ → ZoneDescriptor → Outcome
open_empty ftl zid d = open_closed (acquire_zone_resource (put_desc ftl zid d) active_zone) zid d

pub open_in : ZoneState → ZnsFtl → ℕ → ZoneDescriptor → Bool → Outcome
open_in empty ftl zid d zrwa =
    if is_zone_resource_full ftl active_zone
    then (no_active_zone, ftl)
    else if is_zone_resource_full ftl open_zone
    then (no_open_zone, ftl)
    else if zrwa
    then (if is_zone_resource_full ftl zrwa_zone
        then (zrwa_rsrc_unavail, ftl)
        else open_empty (acquire_zone_resource ftl zrwa_zone) zid (record d { zrwav = true }))
    else open_empty ftl zid d
open_in closed ftl zid d zrwa = open_closed ftl zid d
open_in opened_impl ftl zid d zrwa = (success, change_zone_state ftl zid d opened_expl)
open_in opened_expl ftl zid d zrwa = (success, ftl)
open_in _ ftl zid d zrwa = (invalid_transition, ftl)

abbrev pub refill_at : ZnsFtl → ℕ → Option Buffer → ZnsFtl
refill_at ftl zid none = ftl
refill_at ftl zid (some b) = record ftl { zwra_buffer = set ftl.zwra_buffer zid (buffer_refill b) }

-- `memset(zone_start_addr, 0, zone_size)`
abbrev pub zero_zone : ZnsFtl → ℕ → ℕ → ℕ
zero_zone ftl zid a =
    let start = zid * ftl.zp.zone_size in
    if leb start a && ltb a (start + ftl.zp.zone_size) then 0 else ftl.storage a

-- `change_zone_state` to empty, and `__reset_zone`
abbrev pub reset_zone : ZnsFtl → ℕ → ZoneDescriptor → ZnsFtl
reset_zone ftl zid d =
    let wiped = record ftl {
      storage = zero_zone ftl zid;
      zone_descs = set ftl.zone_descs zid (record d { state = empty; wp = d.zslba; zrwav = false });
    } in
    if ftl.zp.zrwa_buffer_size == 0
    then wiped
    else refill_at wiped zid (get_elem? ftl.zwra_buffer zid)

-- from `case ZONE_STATE_CLOSED` on
abbrev pub reset_active : ZnsFtl → ℕ → ZoneDescriptor → ZnsFtl
reset_active ftl zid d =
    reset_zone (release_zrwa (release_zone_resource ftl active_zone) d.zrwav) zid d

pub reset_in : ZoneState → ZnsFtl → ℕ → ZoneDescriptor → Outcome
reset_in opened_impl ftl zid d = (success, reset_active (release_zone_resource ftl open_zone) zid d)
reset_in opened_expl ftl zid d = (success, reset_active (release_zone_resource ftl open_zone) zid d)
reset_in closed ftl zid d = (success, reset_active ftl zid d)
reset_in full ftl zid d = (success, reset_zone ftl zid d)
reset_in empty ftl zid d = (success, reset_zone ftl zid d)
reset_in _ ftl zid d = (invalid_transition, ftl)

pub offline_in : ZoneState → ZnsFtl → ℕ → ZoneDescriptor → Outcome
offline_in read_only ftl zid d = (success, change_zone_state ftl zid d offline)
offline_in offline ftl zid d = (success, ftl)
offline_in _ ftl zid d = (invalid_transition, ftl)

-- The `switch` of `__zmgmt_send_flush_explicit_zrwa`: the write pointer moves behind `slba`, and a
-- zone that is thereby written to its end becomes full.
abbrev pub fills : ZnsFtl → ℕ → ZoneDescriptor → ℕ → Bool
fills ftl zid d slba = u64 (slba + 1) == u64 (zone_to_slba ftl zid + d.zone_capacity)

abbrev pub flushed : ZoneDescriptor → ℕ → ZoneDescriptor
flushed d slba = record d { wp = u64 (slba + 1) }

abbrev pub fill : ZnsFtl → ℕ → ZoneDescriptor → ZnsFtl
fill ftl zid d =
    change_zone_state (release_zone_resource (release_zone_resource ftl active_zone) zrwa_zone) zid
      d full

abbrev pub flush_open : ZnsFtl → ℕ → ZoneDescriptor → ℕ → Outcome
flush_open ftl zid d slba =
    if fills ftl zid d slba
    then (success, fill (release_zone_resource ftl open_zone) zid (flushed d slba))
    else (success, put_desc ftl zid (flushed d slba))

pub flush_in : ZoneState → ZnsFtl → ℕ → ZoneDescriptor → ℕ → Outcome
flush_in opened_expl ftl zid d slba = flush_open ftl zid d slba
flush_in opened_impl ftl zid d slba = flush_open ftl zid d slba
flush_in closed ftl zid d slba =
    if fills ftl zid d slba
    then (success, fill ftl zid (flushed d slba))
    else (success, put_desc ftl zid (flushed d slba))
flush_in _ ftl zid d slba = (invalid_zone_operation, ftl)

-- `wp <= slba && slba <= zrwa_end`
abbrev pub in_zrwa : ZnsFtl → ℕ → ZoneDescriptor → ℕ → Bool
in_zrwa ftl zid d slba =
    let zrwa_end =
      min_of (sub64 (d.wp + ftl.zp.lbas_per_zrwa) 1)
        (sub64 (zone_to_slba ftl zid + d.zone_capacity) 1) in
    leb d.wp slba && leb slba zrwa_end

-- `nr_lbas_flush % lbas_per_zrwafg == 0`
abbrev pub is_granular : ZnsFtl → ZoneDescriptor → ℕ → Bool
is_granular ftl d slba = u64 (sub64 slba d.wp + 1) % ftl.zp.lbas_per_zrwafg == 0

-- The checks before the `switch`. A flush granularity of 0 divides by zero.
pub flush_explicit_zrwa : ZnsFtl → ℕ → ZoneDescriptor → ℕ → Option Outcome
flush_explicit_zrwa ftl zid d slba =
    if not d.zrwav
    then some (invalid_zone_operation, ftl)
    else if not (in_zrwa ftl zid d slba)
    then some (invalid_zone_operation, ftl)
    else if ftl.zp.lbas_per_zrwafg == 0
    then none
    else if not (is_granular ftl d slba)
    then some (invalid_field, ftl)
    else some (flush_in d.state ftl zid d slba)

-- `enum zone_send_action`, and any other value of the field.
pub data ZoneSendAction : Type 0 where
  zsa_close_zone zsa_finish_zone zsa_open_zone zsa_reset_zone zsa_offline_zone : ZoneSendAction
  zsa_set_zone_desc_ext zsa_flush_expl_zrwa : ZoneSendAction
  zsa_other : ℕ → ZoneSendAction

abbrev pub with_desc : ZnsFtl → ℕ → (ZoneDescriptor → Option Outcome) → Option Outcome
with_desc ftl zid f = get_elem? ftl.zone_descs zid >>= f

-- The `switch (action)` of `__zmgmt_send`. An action without a case leaves the status unassigned.
pub act : ZoneSendAction → ZnsFtl → ℕ → ℕ → Bool → Option Outcome
act zsa_close_zone ftl zid slba option = with_desc ftl zid λ d. some (close_in d.state ftl zid d)
act zsa_finish_zone ftl zid slba option = with_desc ftl zid λ d. some (finish_in d.state ftl zid d)
act zsa_open_zone ftl zid slba option =
    with_desc ftl zid λ d. some (open_in d.state ftl zid d option)
act zsa_reset_zone ftl zid slba option = with_desc ftl zid λ d. some (reset_in d.state ftl zid d)
act zsa_offline_zone ftl zid slba option =
    with_desc ftl zid λ d. some (offline_in d.state ftl zid d)
act zsa_flush_expl_zrwa ftl zid slba option =
    with_desc ftl zid λ d. flush_explicit_zrwa ftl zid d slba
act zsa_set_zone_desc_ext ftl zid slba option = some (indeterminate, ftl)
act (zsa_other a) ftl zid slba option = some (indeterminate, ftl)

pub zmgmt_send : ZnsFtl → ℕ → ZoneSendAction → Bool → Option Outcome
zmgmt_send ftl slba action option = act action ftl (lba_to_zone ftl slba) slba option

-- The loop over all zones, from `zid` on for `n` zones; the statuses are dropped.
pub send_all : ℕ → ℕ → ZnsFtl → ZoneSendAction → Bool → Option ZnsFtl
send_all zero zid ftl action option = some ftl
send_all (suc n) zid ftl action option = do
  (_, ftl') ← zmgmt_send ftl (zone_to_slba ftl zid) action option
  send_all n (zid + 1) ftl' action option

-- `struct nvme_zone_mgmt_send`
pub record ZoneMgmtSend : Type 0 where
  pub slba : ℕ
  pub zsa : ZoneSendAction
  pub select_all : Bool
  pub zsaso : Bool

-- `ret->nsecs_target` is the start time of the request: there is no delay.
pub zns_zmgmt_send : ZnsFtl → ZoneMgmtSend → ℕ → Option ((Status × ℕ) × ZnsFtl)
zns_zmgmt_send ftl cmd nsecs_start =
    if cmd.select_all
    then (do
      ftl' ← send_all ftl.zp.nr_zones 0 ftl cmd.zsa cmd.zsaso
      some ((success, nsecs_start), ftl'))
    else do
      (status, ftl') ← zmgmt_send ftl cmd.slba cmd.zsa cmd.zsaso
      some ((status, nsecs_start), ftl')
