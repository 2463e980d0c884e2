-- ===== src/Worker/State.antt =====
-- `struct nvmev_io_work` and `struct nvmev_io_worker` of nvmev.h, and their construction by
-- NVMEV_IO_WORKER_INIT. An entry is named by its index in `work_queue`; the index -1 is `null`.
use nvme_virt.Prelude.{
  ℕ, zero, suc, ◌+◌, ◌%◌, List, [], ◌∷◌, Bool, false, Option, some, get_elem?, set, sub32,
  if◌then◌else◌, ◌>>=◌,
}
use nvme_virt.Zns.Request.{BufferRef, ssd_buffer}

abbrev pub nr_max_parallel_io : ℕ
nr_max_parallel_io = 16384

abbrev pub null : ℕ
null = 0xffff_ffff

-- without the times that only PERF_DEBUG takes
pub record Work : Type 0 where
  pub sqid : ℕ
  pub cqid : ℕ
  pub sq_entry : ℕ
  pub command_id : ℕ
  pub nsecs_start : ℕ
  pub nsecs_target : ℕ
  pub nsecs_enqueue : ℕ
  pub is_copied : Bool
  pub is_completed : Bool
  pub status : ℕ
  pub result0 : ℕ
  pub result1 : ℕ
  pub is_internal : Bool
  pub write_buffer : BufferRef
  pub buffs_to_release : ℕ
  pub next : ℕ
  pub prev : ℕ

pub record Worker : Type 0 where
  pub work_queue : List Work
  pub free_seq : ℕ
  pub free_seq_end : ℕ
  pub io_seq : ℕ
  pub io_seq_end : ℕ
  pub latest_nsecs : ℕ
  pub id : ℕ

-- The workers of `struct nvmev_dev`; `by_sq` is CONFIG_NVMEV_IO_WORKER_BY_SQ.
pub record Workers : Type 0 where
  pub io_workers : List Worker
  pub nr_io_workers : ℕ
  pub io_worker_turn : ℕ
  pub by_sq : Bool

abbrev pub zero_work : ℕ → ℕ → Work
zero_work next prev = record {
  sqid = 0;
  cqid = 0;
  sq_entry = 0;
  command_id = 0;
  nsecs_start = 0;
  nsecs_target = 0;
  nsecs_enqueue = 0;
  is_copied = false;
  is_completed = false;
  status = 0;
  result0 = 0;
  result1 = 0;
  is_internal = false;
  write_buffer = ssd_buffer;
  buffs_to_release = 0;
  next = next;
  prev = prev;
}

-- the entries from `i` on, `n` of them; the last has no next
pub chain_from : ℕ → ℕ → List Work
chain_from i zero = []
chain_from i (suc zero) = zero_work null (sub32 i 1) ∷ []
chain_from i (suc (suc n)) = zero_work (i + 1) (sub32 i 1) ∷ chain_from (i + 1) (suc n)

abbrev pub init_worker : ℕ → Worker
init_worker worker_id = record {
  work_queue = chain_from 0 nr_max_parallel_io;
  free_seq = 0;
  free_seq_end = 16383;
  io_seq = null;
  io_seq_end = null;
  latest_nsecs = 0;
  id = worker_id;
}

pub init_workers_from : ℕ → ℕ → List Worker
init_workers_from i zero = []
init_workers_from i (suc n) = init_worker i ∷ init_workers_from (i + 1) n

-- NVMEV_IO_WORKER_INIT; the start of the threads is left out.
abbrev pub io_worker_init : Bool → ℕ → Workers
io_worker_init by_sq n = record {
  io_workers = init_workers_from 0 n;
  nr_io_workers = n;
  io_worker_turn = 0;
  by_sq = by_sq;
}

-- `__get_io_worker`
abbrev pub get_io_worker : Workers → ℕ → ℕ
get_io_worker dev sqid = if dev.by_sq then sub32 sqid 1 % dev.nr_io_workers else dev.io_worker_turn

-- assignments to the two links of an entry; `none` is an index outside the queue
unfoldable pub set_next : List Work → ℕ → ℕ → Option (List Work)
set_next wq i n = do w ← get_elem? wq i; some (set wq i (record w { next = n }))

unfoldable pub set_prev : List Work → ℕ → ℕ → Option (List Work)
set_prev wq i p = do w ← get_elem? wq i; some (set wq i (record w { prev = p }))
