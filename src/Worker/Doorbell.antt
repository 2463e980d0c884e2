-- ===== src/Worker/Doorbell.antt =====
-- The submission and completion queues of io.c: what a doorbell makes the dispatcher do, and the entry
-- that a completion fills. `int` values are numbers; only `cq_tail` can be below 0.
pub mod Ring
use nvme_virt.Prelude.{
  ℕ, zero, suc, ◌+◌, ◌-◌, ◌*◌, ◌%◌, ◌^◌, List, Bool, true, false, Option, some, none, ◌==◌, not,
  ltb, leb, if◌then◌else◌, get_elem?, set, u32, u64, sub32, ◌>>=◌,
}
use nvme_virt.Worker.State.{Work}

pub record SqStat : Type 0 where
  pub nr_dispatched : ℕ
  pub nr_dispatch : ℕ
  pub nr_in_flight : ℕ
  pub max_nr_in_flight : ℕ
  pub total_io : ℕ

pub record SubmissionQueue : Type 0 where
  pub queue_size : ℕ
  pub cqid : ℕ
  pub stat : SqStat

pub record Completion : Type 0 where
  pub command_id : ℕ
  pub sq_id : ℕ
  pub sq_head : ℕ
  pub status : ℕ
  pub result0 : ℕ
  pub result1 : ℕ

-- `tail_before` is `cq_tail + 1`, which is 0 for a tail of -1.
pub record CompletionQueue : Type 0 where
  pub queue_size : ℕ
  pub phase : ℕ
  pub cq_head : ℕ
  pub tail_before : ℕ
  pub interrupt_ready : Bool
  pub cq : List Completion

-- `num_proc`, for a new doorbell `new_db` behind `old_db` in a ring
abbrev pub num_proc : ℕ → ℕ → ℕ → ℕ
num_proc queue_size new_db old_db =
    if ltb new_db old_db then new_db + queue_size - old_db else new_db - old_db

-- `if (++sq_entry == sq->queue_size) sq_entry = 0;`
abbrev pub next_entry : ℕ → ℕ → ℕ
next_entry queue_size sq_entry = if sq_entry + 1 == queue_size then 0 else sq_entry + 1

-- `max_t(int, a, b)` of two 32-bit words
abbrev pub max_int : ℕ → ℕ → ℕ
max_int a b = if leb (u32 (a + 2 ^ 31)) (u32 (b + 2 ^ 31)) then b else a

abbrev pub dispatched : SqStat → ℕ → SqStat
dispatched stat io_size = record stat {
  nr_dispatched = u32 (stat.nr_dispatched + 1);
  nr_in_flight = u32 (stat.nr_in_flight + 1);
  total_io = u64 (stat.total_io + io_size);
}

-- `if (!__nvmev_proc_io(...)) break;`, and one more entry when it goes on
abbrev pub continue_with :
    {S : Type 0}
    → SqStat
    → Option ℕ
    → S
    → (ℕ → S → Option (ℕ × SqStat × S))
    → Option (ℕ × SqStat × S)
continue_with stat none s go = some (0, stat, s)
continue_with stat (some io_size) s go = do
  (seq, stat', s') ← go io_size s
  some (seq + 1, stat', s')

module _ {S : Type 0} (proc_io : ℕ → S → Option (Option ℕ × S)) where
  -- The loop of `nvmev_proc_io_sq`: `proc_io` is `__nvmev_proc_io` on one entry, which gives the size of
  -- an accepted command. The result counts the entries processed.
  pub proc_entries : ℕ → ℕ → ℕ → SqStat → S → Option (ℕ × SqStat × S)
  proc_entries zero queue_size sq_entry stat s = some (0, stat, s)
  proc_entries (suc n) queue_size sq_entry stat s =
      let go : ℕ → S → Option (ℕ × SqStat × S) = λ io_size t.
        proc_entries n queue_size (next_entry queue_size sq_entry) (dispatched stat io_size) t in
      do (answer, s') ← proc_io sq_entry s; continue_with stat answer s' go

  -- `nvmev_proc_io_sq` on a queue that exists
  unfoldable pub nvmev_proc_io_sq : SubmissionQueue → ℕ → ℕ → S → Option (ℕ × SubmissionQueue × S)
  nvmev_proc_io_sq sq new_db old_db s = do
    (seq, stat, s') ←
        proc_entries (num_proc sq.queue_size new_db old_db) sq.queue_size old_db sq.stat s
    let done = record stat {
      nr_dispatch = u32 (stat.nr_dispatch + 1);
      max_nr_in_flight = max_int stat.max_nr_in_flight stat.nr_in_flight;
    }
    some ((old_db + seq) % sq.queue_size, record sq { stat = done }, s')

-- `__fill_cq_result`, between the lock and the unlock, with the head that was read in front of it.
unfoldable pub fill_cq_result : CompletionQueue → Work → CompletionQueue
fill_cq_result cq w =
    let wraps = cq.cq_head + 1 == cq.queue_size in
    record cq {
      cq = set cq.cq cq.cq_head (record {
        command_id = w.command_id;
        sq_id = w.sqid;
        sq_head = w.sq_entry;
        status = cq.phase + 2 * w.status;
        result0 = w.result0;
        result1 = w.result1;
      });
      cq_head = if wraps then 0 else cq.cq_head + 1;
      phase = if wraps then 1 - cq.phase else cq.phase;
      interrupt_ready = true;
    }

-- The loop of `nvmev_proc_io_cq` from the entry `i` on; an entry without a submission queue is skipped.
-- `none` is an entry outside the queue, or fuel that ran out.
pub complete_entries :
    ℕ
    → CompletionQueue
    → ℕ
    → ℕ
    → List (Option SubmissionQueue)
    → Option (List (Option SubmissionQueue))
complete_entries zero cq new_db i sqes = if i == new_db then some sqes else none
complete_entries (suc fuel) cq new_db i sqes =
    let step = do
      cqe ← get_elem? cq.cq i
      sq ← get_elem? sqes cqe.sq_id
      complete_entries fuel cq new_db (i + 1) (set sqes cqe.sq_id (in_flight_less sq))
    in if i == new_db
      then some sqes
      else if leb cq.queue_size i
      then complete_entries fuel cq new_db 0 sqes
      else step
  where
    in_flight_less : Option SubmissionQueue → Option SubmissionQueue
    in_flight_less none = none
    in_flight_less (some sq) =
        some (record sq { stat = record (sq.stat) { nr_in_flight = sub32 sq.stat.nr_in_flight 1 } })

-- `cq->cq_tail = new_db - 1`; the test for a doorbell of -1 does not hold for a number.
unfoldable pub nvmev_proc_io_cq :
    CompletionQueue
    → ℕ
    → ℕ
    → List (Option SubmissionQueue)
    → Option (CompletionQueue × List (Option SubmissionQueue))
nvmev_proc_io_cq cq new_db old_db sqes = do
  sqes' ← complete_entries (2 * cq.queue_size + 2) cq new_db old_db sqes
  some (record cq { tail_before = new_db }, sqes')
