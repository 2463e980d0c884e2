-- ===== src/Admin/State.antt =====
-- The admin queue and what its commands read and write: `struct nvmev_admin_queue`, the queues of
-- `struct nvmev_dev`, the commands of nvme.h and the pages of the host that are filled.
use nvme_virt.Prelude.{ℕ, ◌+◌, ◌*◌, List, Bool, Option, ◌==◌, if◌then◌else◌}
use nvme_virt.Zns.State.{ZnsParams}
use nvme_virt.Worker.Doorbell.{SubmissionQueue, CompletionQueue, Completion}

-- The part of a command that its opcode selects. `unhandled` is any opcode without a case.
pub data AdminRequest : Type 0 where
  create_cq : (cqid qsize cq_flags irq_vector prp1 : ℕ) → AdminRequest
  delete_cq : (qid : ℕ) → AdminRequest
  create_sq : (sqid cqid qsize sq_flags prp1 : ℕ) → AdminRequest
  delete_sq : (qid : ℕ) → AdminRequest
  get_log_page : (numdu numdl lid prp1 : ℕ) → AdminRequest
  identify : (cns nsid prp1 : ℕ) → AdminRequest
  set_features : (fid dword11 : ℕ) → AdminRequest
  get_features : (fid : ℕ) → AdminRequest
  abort_cmd async_event : AdminRequest
  unhandled : ℕ → AdminRequest

pub record AdminCommand : Type 0 where
  pub command_id : ℕ
  pub request : AdminRequest

pub record AdminQueue : Type 0 where
  pub phase : ℕ
  pub sq_depth : ℕ
  pub cq_depth : ℕ
  pub cq_head : ℕ
  pub nvme_sq : List AdminCommand
  pub nvme_cq : List Completion

-- A submission queue as `__nvmev_admin_create_sq` makes it: `sq` is what the I/O path works on, and
-- `pages` are the addresses of its pages.
pub record IoSq : Type 0 where
  pub qid : ℕ
  pub priority : ℕ
  pub phys_contig : Bool
  pub sq : SubmissionQueue
  pub pages : List ℕ

pub record IoCq : Type 0 where
  pub qid : ℕ
  pub irq_enabled : Bool
  pub irq_vector : ℕ
  pub phys_contig : Bool
  pub cq : CompletionQueue
  pub pages : List ℕ

-- What the admin commands read of a namespace; `zns` holds its parameters if it is zoned.
pub record Namespace : Type 0 where
  pub size : ℕ
  pub csi : ℕ
  pub zns : Option ZnsParams

pub record LbaFormat : Type 0 where
  pub ms : ℕ
  pub ds : ℕ
  pub rp : ℕ

-- The structures that are written to a page of the host; the fields that stay 0 are left out.
pub record IdNs : Type 0 where
  pub lbaf : List LbaFormat
  pub flbas : ℕ
  pub nlbaf : ℕ
  pub dps : ℕ
  pub nsze : ℕ
  pub ncap : ℕ
  pub nuse : ℕ

-- `sn`, `mn` and `fr` are the numbers printed behind their fixed texts.
pub record IdCtrl : Type 0 where
  pub nn : ℕ
  pub oncs : ℕ
  pub acl : ℕ
  pub vwc : ℕ
  pub sn : ℕ
  pub mn : ℕ
  pub fr : ℕ
  pub mdts : ℕ
  pub sqes : ℕ
  pub cqes : ℕ

pub record IdZns : Type 0 where
  pub zoc : ℕ
  pub ozcs : ℕ
  pub mar : ℕ
  pub mor : ℕ
  pub numzrwa : ℕ
  pub zrwafg : ℕ
  pub zrwasz : ℕ
  pub zrwacap : ℕ
  pub zsze : ℕ
  pub zdes : ℕ

pub data Page : Type 0 where
  id_ns : IdNs → Page
  id_ctrl : IdCtrl → Page
  id_zns : IdZns → Page
  id_zns_ctrl : (zasl : ℕ) → Page
  ns_list : List ℕ → Page
  ns_desc : (nidt nidl nid : ℕ) → Page
  smart_log effects_log zeros : (len : ℕ) → Page

-- `written` are the pages of the host that were filled, the last one first.
pub record Dev : Type 0 where
  pub admin_q : AdminQueue
  pub sqes : List (Option IoSq)
  pub cqes : List (Option IoCq)
  pub dbs : ℕ → ℕ
  pub old_dbs : ℕ → ℕ
  pub nr_sq : ℕ
  pub nr_cq : ℕ
  pub nr_ns : ℕ
  pub ns : List Namespace
  pub mdts : ℕ
  pub written : List (ℕ × Page)

abbrev pub set_db : (ℕ → ℕ) → ℕ → ℕ → ℕ → ℕ
set_db dbs idx v i = if i == idx then v else dbs i

-- `SQ` doorbells have even indexes, those of completion queues odd ones.
abbrev pub sq_db : ℕ → ℕ
sq_db qid = qid * 2

abbrev pub cq_db : ℕ → ℕ
cq_db qid = qid * 2 + 1
