-- ===== src/Admin/Run.antt =====
-- The features, the dispatch of the admin commands, and the loop over the admin queue.
pub mod Served
pub mod Answered
use nvme_virt.Prelude.{
  ℕ, zero, suc, ◌+◌, ◌-◌, ◌*◌, ◌/◌, ◌%◌, ◌^◌, List, Bool, Option, some, none, ltb, leb, ◌==◌,
  if◌then◌else◌, get_elem?, min_of, u32, sub32, ◌>>=◌,
}
use Prim.Native.Nat.{bit_or}
use nvme_virt.Worker.Doorbell.{Completion, num_proc, next_entry}
use nvme_virt.Admin.State.{
  AdminRequest, create_cq, delete_cq, create_sq, delete_sq, get_log_page, identify, set_features,
  get_features, abort_cmd, async_event, unhandled, AdminCommand, AdminQueue, Dev,
}
use nvme_virt.Admin.Queues.{
  nvme_sc_success, nvme_sc_invalid_opcode, make_cq_entry, make_cq_entry_results, admin_create_cq,
  admin_delete_cq, admin_create_sq, admin_delete_sq,
}
use nvme_virt.Admin.Identify.{admin_get_log_page, admin_identify}

abbrev pub nr_max_io_queue : ℕ
nr_max_io_queue = 72

abbrev pub nvme_feat_num_queues : ℕ
nvme_feat_num_queues = 0x07

-- the two halves of `dword11`, which count from 0
abbrev pub wanted_sq : ℕ → ℕ
wanted_sq dword11 = dword11 % 2 ^ 16 + 1

abbrev pub wanted_cq : ℕ → ℕ
wanted_cq dword11 = dword11 / 2 ^ 16 % 2 ^ 16 + 1

-- `(nr_cq - 1) << 16 | (nr_sq - 1)`
abbrev pub queues_result : Dev → ℕ
queues_result dev = bit_or (u32 (sub32 dev.nr_cq 1 * 2 ^ 16)) (sub32 dev.nr_sq 1)

unfoldable pub admin_set_features : Dev → ℕ → (fid dword11 : ℕ) → Option Dev
admin_set_features dev eid fid dword11 =
    let dev' = record dev {
      nr_sq = min_of (wanted_sq dword11) nr_max_io_queue;
      nr_cq = min_of (wanted_cq dword11) nr_max_io_queue;
    } in
    if fid == nvme_feat_num_queues
    then make_cq_entry_results dev' eid nvme_sc_success (queues_result dev') 0
    else make_cq_entry_results dev eid nvme_sc_success 0 0

unfoldable pub admin_get_features : Dev → ℕ → (fid : ℕ) → Option Dev
admin_get_features dev eid fid =
    make_cq_entry_results dev eid nvme_sc_success
      (if fid == nvme_feat_num_queues then queues_result dev else 0) 0

-- `host_cq` gives what the pages of a new completion queue hold, by its first page and its size.
module _ (host_cq : ℕ → ℕ → List Completion) where
  unfoldable pub admin_request : Dev → ℕ → AdminRequest → Option Dev
  admin_request dev eid (delete_sq qid) = admin_delete_sq dev eid qid
  admin_request dev eid (create_sq sqid cqid qsize sq_flags prp1) =
      admin_create_sq dev eid sqid cqid qsize sq_flags prp1
  admin_request dev eid (get_log_page numdu numdl lid prp1) =
      admin_get_log_page dev eid numdu numdl lid prp1
  admin_request dev eid (delete_cq qid) = admin_delete_cq dev eid qid
  admin_request dev eid (create_cq cqid qsize cq_flags irq_vector prp1) =
      admin_create_cq (host_cq prp1 (qsize + 1)) dev eid cqid qsize cq_flags irq_vector prp1
  admin_request dev eid (identify cns nsid prp1) = admin_identify dev eid cns nsid prp1
  admin_request dev eid abort_cmd = some dev
  admin_request dev eid (set_features fid dword11) = admin_set_features dev eid fid dword11
  admin_request dev eid (get_features fid) = admin_get_features dev eid fid
  admin_request dev eid async_event = make_cq_entry dev eid nvme_sc_success
  admin_request dev eid (unhandled opcode) = make_cq_entry dev eid nvme_sc_invalid_opcode

  unfoldable pub proc_admin_req : Dev → ℕ → Option Dev
  proc_admin_req dev eid = do
    cmd ← get_elem? dev.admin_q.nvme_sq eid
    admin_request dev eid cmd.request

  -- The loop of `nvmev_proc_admin_sq`.
  pub proc_admin_entries : ℕ → ℕ → Dev → Option Dev
  proc_admin_entries zero curr dev = some dev
  proc_admin_entries (suc n) curr dev = do
    dev' ← proc_admin_req dev curr
    proc_admin_entries n (next_entry dev'.admin_q.sq_depth curr) dev'

  -- The interrupt of the admin completion queue behind the loop is left out.
  unfoldable pub nvmev_proc_admin_sq : ℕ → ℕ → Dev → Option Dev
  nvmev_proc_admin_sq new_db old_db dev =
      proc_admin_entries (num_proc dev.admin_q.sq_depth new_db old_db) old_db dev
