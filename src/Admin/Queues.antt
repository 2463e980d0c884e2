-- ===== src/Admin/Queues.antt =====
-- The completion of an admin command, and the creation and deletion of queues. `none` is an access
-- outside an array.
use nvme_virt.Prelude.{
  ℕ, zero, suc, ◌+◌, ◌-◌, ◌*◌, ◌/◌, ◌%◌, ◌^◌, List, [], ◌∷◌, Bool, false, not, Option, some, none,
  ltb, ◌==◌, if◌then◌else◌, get_elem?, set, length, ◌>>=◌, ◌>>◌, assert,
}
use Prim.Native.Nat.{bit_and}
use nvme_virt.Worker.Doorbell.{Completion}
use nvme_virt.Admin.State.{AdminQueue, IoSq, IoCq, Dev, set_db, sq_db, cq_db}

abbrev pub nvme_sc_success : ℕ
nvme_sc_success = 0

abbrev pub nvme_sc_invalid_opcode : ℕ
nvme_sc_invalid_opcode = 1

-- The entry at the head, and the head one on; the phase turns at the end of the queue.
unfoldable pub post_result : AdminQueue → ℕ → ℕ → ℕ → ℕ → ℕ → AdminQueue
post_result queue command_id eid ret result0 result1 =
    let wraps = queue.cq_head + 1 == queue.cq_depth in
    record queue {
      nvme_cq = set queue.nvme_cq queue.cq_head (record {
        command_id = command_id;
        sq_id = 0;
        sq_head = eid % 2 ^ 16;
        status = queue.phase + 2 * ret;
        result0 = result0;
        result1 = result1;
      });
      cq_head = if wraps then 0 else queue.cq_head + 1;
      phase = if wraps then 1 - queue.phase else queue.phase;
    }

-- `__make_cq_entry_results` for the command of the entry `eid`
unfoldable pub make_cq_entry_results : Dev → ℕ → ℕ → ℕ → ℕ → Option Dev
make_cq_entry_results dev eid ret result0 result1 = do
  cmd ← get_elem? dev.admin_q.nvme_sq eid
  assert (ltb dev.admin_q.cq_head (length dev.admin_q.nvme_cq))
  some (record dev { admin_q = post_result dev.admin_q cmd.command_id eid ret result0 result1 })

abbrev pub make_cq_entry : Dev → ℕ → ℕ → Option Dev
make_cq_entry dev eid ret = make_cq_entry_results dev eid ret 0 0

-- `DIV_ROUND_UP(queue_size * entry, PAGE_SIZE)`
abbrev pub num_pages : ℕ → ℕ → ℕ
num_pages queue_size entry = (queue_size * entry + 4095) / 4096

-- `prp_address_offset(prp1, i)` for the pages from `i` on
pub page_addresses : ℕ → ℕ → ℕ → List ℕ
page_addresses zero i prp1 = []
page_addresses (suc n) i prp1 = (prp1 + 4096 * i) ∷ page_addresses n (i + 1) prp1

abbrev pub has_flag : ℕ → ℕ → Bool
has_flag flags bit = not (bit_and flags bit == 0)

-- `entries` is what the pages of the new queue hold. A queue that stood there is dropped.
unfoldable pub admin_create_cq :
    List Completion → Dev → ℕ → (cqid qsize cq_flags irq_vector prp1 : ℕ) → Option Dev
admin_create_cq entries dev eid cqid qsize cq_flags irq_vector prp1 = do
  let queue_size = qsize + 1
  let irq_enabled = has_flag cq_flags 2
  let cq : IoCq = record {
    qid = cqid;
    irq_enabled = irq_enabled;
    irq_vector = if irq_enabled then irq_vector else 0;
    phys_contig = has_flag cq_flags 1;
    cq = record {
      queue_size = queue_size;
      phase = 1;
      cq_head = 0;
      tail_before = 0;
      interrupt_ready = false;
      cq = entries;
    };
    pages = page_addresses (num_pages queue_size 16) 0 prp1;
  }
  assert (ltb cqid (length dev.cqes))
  let dev' = record dev {
    cqes = set dev.cqes cqid (some cq);
    dbs = set_db dev.dbs (cq_db cqid) 0;
    old_dbs = set_db dev.old_dbs (cq_db cqid) 0;
  }
  make_cq_entry dev' eid nvme_sc_success

unfoldable pub admin_delete_cq : Dev → ℕ → ℕ → Option Dev
admin_delete_cq dev eid qid = do
  assert (ltb qid (length dev.cqes))
  make_cq_entry (record dev { cqes = set dev.cqes qid none }) eid nvme_sc_success

unfoldable pub admin_create_sq : Dev → ℕ → (sqid cqid qsize sq_flags prp1 : ℕ) → Option Dev
admin_create_sq dev eid sqid cqid qsize sq_flags prp1 = do
  let queue_size = qsize + 1
  let sq : IoSq = record {
    qid = sqid;
    priority = bit_and sq_flags 0xfffe;
    phys_contig = has_flag sq_flags 1;
    sq = record {
      queue_size = queue_size;
      cqid = cqid;
      stat = record {
        nr_dispatched = 0;
        nr_dispatch = 0;
        nr_in_flight = 0;
        max_nr_in_flight = 0;
        total_io = 0;
      };
    };
    pages = page_addresses (num_pages queue_size 64) 0 prp1;
  }
  assert (ltb sqid (length dev.sqes))
  let dev' = record dev {
    sqes = set dev.sqes sqid (some sq);
    dbs = set_db dev.dbs (sq_db sqid) 0;
    old_dbs = set_db dev.old_dbs (sq_db sqid) 0;
  }
  make_cq_entry dev' eid nvme_sc_success

unfoldable pub admin_delete_sq : Dev → ℕ → ℕ → Option Dev
admin_delete_sq dev eid qid = do
  assert (ltb qid (length dev.sqes))
  make_cq_entry (record dev { sqes = set dev.sqes qid none }) eid nvme_sc_success
