-- ===== src/Tests/Requests.antt =====
-- Requests on their way into the queue of a worker and out of it.
use nvme_virt.Prelude.{ℕ, refl, List, [], ◌∷◌, true, false, Returns, arith}
use nvme_virt.Worker.State.{Work, Worker, Workers, null, zero_work}
use nvme_virt.Worker.Queue.{Request, enqueue_io_req, reclaim_worker}
use nvme_virt.Worker.Queue.Enqueue.{Enqueued, enqueue_io_req-Enqueued}
use nvme_virt.Worker.Queue.Release.{Released}
use nvme_virt.Worker.Queue.Reclaim.{Cut, reclaim_worker-Released}
use nvme_virt.Worker.Queue.Sorted.{IsQueue}

abbrev waiting : ℕ → ℕ → ℕ → Work
waiting target next prev = record (zero_work next prev) { nsecs_target = target }

abbrev done : ℕ → ℕ → ℕ → Work
done target next prev = record (waiting target next prev) { is_completed = true; is_copied = true }

-- the requests 0, which is done, and 1, and the free entries 2 and 3
abbrev half_done : Worker
half_done = record {
  work_queue = done 100 1 null ∷ waiting 300 null 0 ∷ zero_work 3 null ∷ zero_work null 2 ∷ [];
  free_seq = 2;
  free_seq_end = 3;
  io_seq = 0;
  io_seq_end = 1;
  latest_nsecs = 150;
  id = 0;
}

half_done-IsQueue : IsQueue half_done (1 ∷ 0 ∷ [])
half_done-IsQueue = record {
  chain = ((waiting 300 null 0, refl, refl, refl), ((done 100 1 null, refl, refl, refl), tt));
  front = refl;
  back = refl;
  distinct = ((omega arith, tt), (tt, tt));
  named = (omega arith, (omega arith, tt));
}

abbrev one_worker : Workers
one_worker = record {
  io_workers = half_done ∷ [];
  nr_io_workers = 1;
  io_worker_turn = 0;
  by_sq = false;
}

abbrev new_request : Request
new_request = record {
  sqid = 1;
  cqid = 1;
  sq_entry = 4;
  command_id = 7;
  nsecs_start = 90;
  nsecs_enqueue = 95;
  nsecs_target = 200;
  status = 0;
}

enqueue_io_req-Enqueued_example :
    Returns
      (Enqueued one_worker new_request half_done (zero_work 3 null) (1 ∷ 0 ∷ []))
      (enqueue_io_req one_worker new_request)
enqueue_io_req-Enqueued_example =
    enqueue_io_req-Enqueued one_worker new_request half_done (zero_work 3 null) (1 ∷ 0 ∷ []) refl
      refl half_done-IsQueue (omega arith) (omega arith) (omega arith, (omega arith, tt))

reclaim_worker-Released_example :
    Returns
      (λ (after : Worker).
        (us : List ℕ) × (vs : List ℕ) × Cut half_done (1 ∷ 0 ∷ []) us vs
        × Released half_done us vs (3 ∷ 2 ∷ []) null after)
      (reclaim_worker half_done)
reclaim_worker-Released_example =
    reclaim_worker-Released half_done (1 ∷ 0 ∷ []) half_done-IsQueue 3 null (2 ∷ []) (omega arith)
      ((zero_work null 2, refl, refl, refl), ((zero_work 3 null, refl, refl, refl), tt)) refl
      ((omega arith, tt), (tt, tt))
      ((omega arith, (omega arith, tt)), ((omega arith, (omega arith, tt)), tt))
