-- ===== src/Admin/Bars.antt =====
-- `nvmev_proc_bars` of pci.c: the dispatcher compares the registers of the controller with what it last
-- saw of them, and takes up one change in each round. `none` is a shutdown with no admin queue, whose
-- null pointer is followed.
pub mod Round
pub mod Settled
use nvme_virt.Prelude.{
  ℕ, ◌+◌, ◌*◌, ◌/◌, ◌%◌, ◌^◌, List, [], Bool, true, false, not, Option, some, none, ◌==◌, ◌&&◌,
  if◌then◌else◌, ◌>>=◌,
}
use nvme_virt.Worker.Doorbell.{Completion}
use nvme_virt.Admin.State.{AdminCommand, AdminQueue, set_db}

-- The registers that the host writes, as words, and the two fields of `csts` that the device writes.
pub record Bar : Type 0 where
  pub u_aqa : ℕ
  pub u_asq : ℕ
  pub u_acq : ℕ
  pub u_cc : ℕ
  pub rdy : ℕ
  pub shst : ℕ

-- The four `old` registers are those of `old_bar`. `admin_q` is null before the first change of `aqa`.
pub record BarState : Type 0 where
  pub old_aqa : ℕ
  pub old_asq : ℕ
  pub old_acq : ℕ
  pub old_cc : ℕ
  pub bar : Bar
  pub admin_q : Option AdminQueue
  pub dbs : ℕ → ℕ
  pub old_dbs : ℕ → ℕ

abbrev pub asqs : ℕ → ℕ
asqs aqa = aqa % 2 ^ 12

abbrev pub acqs : ℕ → ℕ
acqs aqa = aqa / 2 ^ 16 % 2 ^ 12

abbrev pub cc_en : ℕ → ℕ
cc_en cc = cc % 2

abbrev pub cc_shn : ℕ → ℕ
cc_shn cc = cc / 2 ^ 14 % 4

abbrev pub reset_db : ℕ → BarState → BarState
reset_db i s = record s { dbs = set_db s.dbs i 0; old_dbs = set_db s.old_dbs i 0 }

abbrev pub new_admin_q : AdminQueue
new_admin_q = record {
  phase = 0;
  sq_depth = 0;
  cq_depth = 0;
  cq_head = 0;
  nvme_sq = [];
  nvme_cq = [];
}

abbrev pub or_new : Option AdminQueue → AdminQueue
or_new none = new_admin_q
or_new (some queue) = queue

abbrev pub is_some : Option AdminQueue → Bool
is_some none = false
is_some (some queue) = true

-- A change of `aqa`.
unfoldable pub take_aqa : BarState → BarState
take_aqa s =
    let queue = record (or_new s.admin_q) {
      cq_head = 0;
      phase = 1;
      sq_depth = asqs s.bar.u_aqa + 1;
      cq_depth = acqs s.bar.u_aqa + 1;
    } in
    reset_db 1 (reset_db 0 (record s { old_aqa = s.bar.u_aqa; admin_q = some queue }))

-- What the pages hold that the addresses of the two queues name, by address and number of entries.
module _ (host_sq : ℕ → ℕ → List AdminCommand) (host_cq : ℕ → ℕ → List Completion) where
  -- A change of `asq`, which waits for a queue.
  unfoldable pub take_asq : Option AdminQueue → BarState → BarState
  take_asq none s = s
  take_asq (some queue) s =
      let depth = asqs s.bar.u_aqa + 1 in
      let queue' = record queue { sq_depth = depth; nvme_sq = host_sq s.bar.u_asq depth } in
      reset_db 0 (record s { old_asq = s.bar.u_asq; admin_q = some queue' })

  unfoldable pub take_acq : Option AdminQueue → BarState → BarState
  take_acq none s = s
  take_acq (some queue) s =
      let depth = acqs s.bar.u_aqa + 1 in
      let queue' = record queue {
        cq_depth = depth;
        nvme_cq = host_cq s.bar.u_acq depth;
        cq_head = 0;
      } in
      reset_db 1 (record s { old_acq = s.bar.u_acq; admin_q = some queue' })

  -- `csts.rdy` behind a change of `cc`: an enable with no admin queue is only warned of.
  abbrev pub ready : BarState → ℕ
  ready s = if cc_en s.bar.u_cc == 1 then (if is_some s.admin_q then 1 else s.bar.rdy) else 0

  abbrev pub shut_down : Option AdminQueue → BarState → Option BarState
  shut_down none s = none
  shut_down (some queue) s = some (
      reset_db 1 (
        reset_db 0 (record s {
          bar = record (s.bar) { shst = 2 };
          admin_q = some (record queue { cq_head = 0 });
        })))

  unfoldable pub take_cc : BarState → Option BarState
  take_cc s =
      let s' = record s { bar = record (s.bar) { rdy = ready s }; old_cc = s.bar.u_cc } in
      if cc_shn s.bar.u_cc == 1 then shut_down s'.admin_q s' else some s'

  unfoldable pub nvmev_proc_bars : BarState → Option BarState
  nvmev_proc_bars s =
      if not (s.old_aqa == s.bar.u_aqa)
      then some (take_aqa s)
      else if not (s.old_asq == s.bar.u_asq)
      then some (take_asq s.admin_q s)
      else if not (s.old_acq == s.bar.u_acq)
      then some (take_acq s.admin_q s)
      else if not (s.old_cc == s.bar.u_cc)
      then take_cc s
      else some s
