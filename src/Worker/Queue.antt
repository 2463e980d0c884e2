-- ===== src/Worker/Queue.antt =====
-- The queue of a worker in io.c: the requests in order of their target time, chained by index, and the
-- chain of free entries. `none` is an index outside the queue, a BUG_ON, or fuel that ran out.
pub mod Chain
pub mod Links
pub mod Sorted
pub mod Insert
pub mod Enqueue
pub mod Release
pub mod Reclaim
use nvme_virt.Prelude.{
  ℕ, zero, suc, ◌+◌, List, [], ◌∷◌, Bool, true, false, Option, some, none, ◌==◌, ◌||◌, ◌&&◌, not,
  leb, ltb, if◌then◌else◌, get_elem?, set, length, u32, ◌>>=◌, ◌>>◌, assert,
}
use nvme_virt.Zns.Request.{InternalOp}
use nvme_virt.Worker.State.{
  Work, Worker, Workers, null, nr_max_parallel_io, get_io_worker, set_next, set_prev,
}

-- The walk back from `curr` to the first entry that is due or not later than the new one.
pub find_place : ℕ → List Work → ℕ → ℕ → ℕ → Option ℕ
find_place zero wq latest target curr = if curr == null then some curr else none
find_place (suc fuel) wq latest target curr =
    let look = do
      w ← get_elem? wq curr
      let rest = find_place fuel wq latest target w.prev
      if leb w.nsecs_target latest || leb w.nsecs_target target then some curr else rest
    in if curr == null then some curr else look

-- `Head inserted`
unfoldable pub insert_head : Worker → ℕ → Option Worker
insert_head worker entry = do
  wq1 ← set_prev worker.work_queue worker.io_seq entry
  wq2 ← set_next wq1 entry worker.io_seq
  some (record worker { work_queue = wq2; io_seq = entry })

-- `Tail`
unfoldable pub insert_tail : Worker → ℕ → ℕ → Option Worker
insert_tail worker entry curr = do
  wq1 ← set_prev worker.work_queue entry curr
  wq2 ← set_next wq1 curr entry
  some (record worker { work_queue = wq2; io_seq_end = entry })

-- `In between`; `next` is `work_queue[curr].next`.
unfoldable pub insert_between : Worker → ℕ → ℕ → ℕ → Option Worker
insert_between worker entry curr next = do
  wq1 ← set_prev worker.work_queue entry curr
  wq2 ← set_next wq1 entry next
  wq3 ← set_prev wq2 next entry
  wq4 ← set_next wq3 curr entry
  some (record worker { work_queue = wq4 })

unfoldable pub insert_at : Worker → ℕ → ℕ → Option Worker
insert_at worker entry curr = do
  let behind = do
    w ← get_elem? worker.work_queue curr
    if w.next == null
        then insert_tail worker entry curr
        else insert_between worker entry curr w.next
  if curr == null then insert_head worker entry else behind

-- `__insert_req_sorted`
unfoldable pub insert_req_sorted : ℕ → Worker → ℕ → Option Worker
insert_req_sorted entry worker nsecs_target =
    let walk = do
      curr ←
          find_place (length worker.work_queue) worker.work_queue worker.latest_nsecs nsecs_target
            worker.io_seq_end
      insert_at worker entry curr
    in if worker.io_seq == null
      then some (record worker { io_seq = entry; io_seq_end = entry })
      else walk

-- `__allocate_work_queue_entry`: the index of the worker, and the entry; the inner `none` is NULL.
unfoldable pub allocate_work_queue_entry : Workers → ℕ → Option (Option (ℕ × ℕ × Workers))
allocate_work_queue_entry dev sqid = do
  let i = get_io_worker dev sqid
  worker ← get_elem? dev.io_workers i
  w ← get_elem? worker.work_queue worker.free_seq
  let turn = if u32 (i + 1) == dev.nr_io_workers then 0 else u32 (i + 1)
  let taken = record dev {
    io_workers = set dev.io_workers i (record worker { free_seq = w.next });
    io_worker_turn = turn;
  }
  some (if leb nr_max_parallel_io w.next then none else some (i, worker.free_seq, taken))

-- What a request brings to its entry: the fields that `__enqueue_io_req` assigns.
pub record Request : Type 0 where
  pub sqid : ℕ
  pub cqid : ℕ
  pub sq_entry : ℕ
  pub command_id : ℕ
  pub nsecs_start : ℕ
  pub nsecs_enqueue : ℕ
  pub nsecs_target : ℕ
  pub status : ℕ

abbrev pub filled : Request → Work → Work
filled r w = record w {
  sqid = r.sqid;
  cqid = r.cqid;
  sq_entry = r.sq_entry;
  command_id = r.command_id;
  nsecs_start = r.nsecs_start;
  nsecs_enqueue = r.nsecs_enqueue;
  nsecs_target = r.nsecs_target;
  status = r.status;
  is_completed = false;
  is_copied = false;
  prev = null;
  next = null;
  is_internal = false;
}

abbrev pub filled_internal : InternalOp → ℕ → Work → Work
filled_internal op now w = record w {
  sqid = op.sq_id;
  nsecs_start = now;
  nsecs_enqueue = now;
  nsecs_target = op.nsecs_target;
  is_completed = false;
  is_copied = true;
  prev = null;
  next = null;
  is_internal = true;
  write_buffer = op.write_buffer;
  buffs_to_release = op.bufs_to_release;
}

-- An entry is filled and put in its place; without an entry nothing is done.
unfoldable pub place_work : Option (ℕ × ℕ × Workers) → Workers → (Work → Work) → ℕ → Option Workers
place_work none dev fill target = some dev
place_work (some (i, entry, taken)) dev fill target = do
  worker ← get_elem? taken.io_workers i
  w ← get_elem? worker.work_queue entry
  worker' ←
      insert_req_sorted entry (record worker { work_queue = set worker.work_queue entry (fill w) })
        target
  some (record taken { io_workers = set taken.io_workers i worker' })

unfoldable pub enqueue_io_req : Workers → Request → Option Workers
enqueue_io_req dev r = do
  slot ← allocate_work_queue_entry dev r.sqid
  place_work slot dev (filled r) r.nsecs_target

-- `now` is the local clock.
unfoldable pub schedule_internal_operation : Workers → InternalOp → ℕ → Option Workers
schedule_internal_operation dev op now = do
  slot ← allocate_work_queue_entry dev op.sq_id
  place_work slot dev (filled_internal op now) op.nsecs_target

abbrev pub is_reclaimable : Worker → Work → Bool
is_reclaimable worker w = w.is_completed && w.is_copied && leb w.nsecs_target worker.latest_nsecs

-- The last entry of the completed ones in front, `last` so far.
pub last_completed : ℕ → Worker → ℕ → ℕ → Option ℕ
last_completed zero worker curr last = if curr == null then some last else none
last_completed (suc fuel) worker curr last =
    let look = do
      w ← get_elem? worker.work_queue curr
      let rest = last_completed fuel worker w.next curr
      if is_reclaimable worker w then rest else some last
    in if curr == null then some last else look

-- The entries up to `last` go to the end of the free chain.
unfoldable pub release_to : Worker → ℕ → Option Worker
release_to worker last = do
  let first = worker.io_seq
  w ← get_elem? worker.work_queue last
  wq1 ← if w.next == null then some worker.work_queue else set_prev worker.work_queue w.next null
  wq2 ← set_next wq1 last null
  wq3 ← set_prev wq2 first worker.free_seq_end
  wq4 ← set_next wq3 worker.free_seq_end first
  some (record worker { work_queue = wq4; io_seq = w.next; free_seq_end = last })

unfoldable pub reclaim_worker : Worker → Option Worker
reclaim_worker worker = do
  last ← last_completed (length worker.work_queue) worker worker.io_seq null
  if last == null then some worker else release_to worker last

-- `__reclaim_completed_reqs`
pub reclaim_completed_reqs : List Worker → Option (List Worker)
reclaim_completed_reqs [] = some []
reclaim_completed_reqs (worker ∷ rest) = do
  worker' ← reclaim_worker worker
  rest' ← reclaim_completed_reqs rest
  some (worker' ∷ rest')
