-- ===== src/Worker/Queue/Enqueue.antt =====
-- `__enqueue_io_req`: the whole way of a request into the queue of a worker.
use nvme_virt.Prelude.{
  ℕ, ◌≡◌, ◌≢◌, ◌≤◌, ◌<◌, refl, ap, ◌∙◌, List, some, leb, get_elem?, set, length, length-set,
  get_elem?-set_self, get_elem?_bound, Bool-cases, inl, inr, Returns, returns, Returns-bind, arith,
}
use nvme_virt.Worker.State.{Work, Worker, Workers, null, nr_max_parallel_io, get_io_worker}
use nvme_virt.Worker.Queue.{Request, filled, allocate_work_queue_entry, place_work, enqueue_io_req}
use nvme_virt.Worker.Queue.Chain.{All, Seg-frame, target_of, target_in}
use nvme_virt.Worker.Queue.Sorted.{IsQueue, insert_sorted}
use nvme_virt.Worker.Queue.Insert.{insert_req_sorted-Inserted}

-- The entries of a worker with the request in its entry.
abbrev pub entries_with : Worker → Work → Request → List Work
entries_with worker w r = set worker.work_queue worker.free_seq (filled r w)

-- What becomes of a request that finds `worker` with the free entry `w` and the queue `xs`: it is
-- dropped when `w` is the last free entry, and in its place otherwise.
pub record Enqueued (dev : Workers) (r : Request) (worker : Worker) (w : Work) (xs : List ℕ)
    (after : Workers) : Type 0 where
  pub dropped : nr_max_parallel_io ≤ w.next → after ≡ dev
  pub queued :
      w.next < nr_max_parallel_io
      → (worker' : Worker) × (get_elem? after.io_workers (get_io_worker dev r.sqid) ≡ some worker')
        × IsQueue worker' (
            insert_sorted
              (target_of (entries_with worker w r))
              worker.latest_nsecs
              r.nsecs_target
              worker.free_seq
              xs)
        × (target_of worker'.work_queue worker.free_seq ≡ r.nsecs_target)
        × (worker'.free_seq ≡ w.next)

-- A request goes to its place in the queue of the worker chosen for it, with the first free entry,
-- which leaves the free chain; without a free entry to spare it is dropped, and nothing changes.
-- Condition: the worker exists, its queue is well formed, with no more requests than entries, and the
-- free entry is not in it.
pub enqueue_io_req-Enqueued :
    (dev : Workers) (r : Request) (worker : Worker) (w : Work) (xs : List ℕ)
    → get_elem? dev.io_workers (get_io_worker dev r.sqid) ≡ some worker
    → get_elem? worker.work_queue worker.free_seq ≡ some w
    → IsQueue worker xs
    → length xs ≤ length worker.work_queue
    → worker.free_seq ≢ null
    → All (λ x. x ≢ worker.free_seq) xs
    → Returns (Enqueued dev r worker w xs) (enqueue_io_req dev r)
unfolding enqueue_io_req allocate_work_queue_entry place_work
enqueue_io_req-Enqueued dev r worker w xs at there q few named out =
    let i = get_io_worker dev r.sqid in
    let e = worker.free_seq in
    let taken = record worker { free_seq = w.next } in
    let filled_in = record taken { work_queue = entries_with worker w r } in
    let in_queue = get_elem?_bound worker.work_queue e there in
    let again : get_elem? (set dev.io_workers i taken) i ≡ some taken =
      get_elem?-set_self dev.io_workers i taken (get_elem?_bound dev.io_workers i at) in
    let here : get_elem? (entries_with worker w r) e ≡ some (filled r w) =
      get_elem?-set_self worker.work_queue e (filled r w) in_queue in
    let queue : IsQueue filled_in xs = record {
      chain = Seg-frame worker.work_queue null null e (filled r w) xs out q.chain;
      front = q.front;
      back = q.back;
      distinct = q.distinct;
      named = q.named;
    } in
    rw (at, there)
      (elim (Bool-cases (leb nr_max_parallel_io w.next)) [
        | inl full ↦ rw full (
            returns
              (record { dropped = λ _. refl; queued = λ h. absurd (ground (arith, full, h)) }))
        | inr room ↦
            rw (room, again, there)
              (Returns-bind
                (insert_req_sorted-Inserted filled_in e ((filled r w, here, refl, refl), tt)
                  r.nsecs_target xs queue (few_set few) named out)
                λ worker' s. returns (record {
                  dropped = λ h. absurd (ground (arith, room, h));
                  queued = λ h. (
                    worker',
                    get_elem?-set_self (set dev.io_workers i taken) i worker'
                        (get_elem?_bound (set dev.io_workers i taken) i again),
                    s.queue,
                    s.times e ∙ ap target_in here,
                    s.free.0,
                  );
                }))
      ])
  where
    few_set : length xs ≤ length worker.work_queue → length xs ≤ length (entries_with worker w r)
    few_set h = rw (length-set worker.work_queue worker.free_seq (filled r w)) h
