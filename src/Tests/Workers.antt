-- ===== src/Tests/Workers.antt =====
-- Queues of a worker and transfers at concrete values.
use nvme_virt.Prelude.{
  ℕ, length, zero, suc, leb, ltb, ◌&&◌, ◌+◌, ◌*◌, ◌%◌, ◌^◌, ◌<◌, ◌≡◌, ◌≢◌, refl, List, [], ◌∷◌,
  Option, some, false, ◌==◌, if◌then◌else◌, get_elem?, Returns, returns, Returns-bind, arith,
}
use nvme_virt.Worker.State.{Work, Worker, null, zero_work}
use nvme_virt.Worker.Queue.{insert_req_sorted}
use nvme_virt.Worker.Queue.Chain.{All, target_of}
use nvme_virt.Worker.Queue.Sorted.{IsQueue, Ordered}
use nvme_virt.Worker.Queue.Insert.{Inserted, insert_req_sorted-Inserted, insert_req_sorted-Ordered}
use nvme_virt.Worker.Doorbell.{
  SubmissionQueue, CompletionQueue, Completion, nvmev_proc_io_sq, fill_cq_result,
}
use nvme_virt.Worker.Doorbell.Ring.{
  Fetched, nvmev_proc_io_sq-Fetched, ticket, fill_cq_result-ticket,
}
use nvme_virt.Worker.Prp.{Memory, to_storage, u64_at, do_perform_io}
use nvme_virt.Worker.Prp.Pieces.{Moved}
use nvme_virt.Worker.Prp.Bytes.{prp_address, do_perform_io-Moved}
use nvme_virt.Worker.Run.{IoCommand, Env, transfer_data, visit}
use nvme_virt.Worker.Run.Visit.{Visited, visit-Visited}

abbrev due_at : ℕ → ℕ → ℕ → Work
due_at target next prev = record (zero_work next prev) { nsecs_target = target }

-- the requests 0 and 1, a new one, and a free entry
abbrev two_requests : Worker
two_requests = record {
  work_queue =
      due_at 100 1 null ∷ due_at 300 null 0 ∷ due_at 200 null null ∷ due_at 0 null null ∷ [];
  free_seq = 3;
  free_seq_end = 3;
  io_seq = 0;
  io_seq_end = 1;
  latest_nsecs = 50;
  id = 0;
}

two_requests-IsQueue : IsQueue two_requests (1 ∷ 0 ∷ [])
two_requests-IsQueue = record {
  chain = ((due_at 300 null 0, refl, refl, refl), ((due_at 100 1 null, refl, refl, refl), tt));
  front = refl;
  back = refl;
  distinct = ((omega arith, tt), (tt, tt));
  named = (omega arith, (omega arith, tt));
}

insert_req_sorted-Inserted_example :
    Returns (Inserted two_requests 2 200 (1 ∷ 0 ∷ [])) (insert_req_sorted 2 two_requests 200)
insert_req_sorted-Inserted_example =
    insert_req_sorted-Inserted two_requests 2 ((due_at 200 null null, refl, refl, refl), tt) 200
      (1 ∷ 0 ∷ []) two_requests-IsQueue (omega arith) (omega arith) (omega arith, (omega arith, tt))

insert_req_sorted-Ordered_example :
    Returns
      (λ (after : Worker).
        (ys : List ℕ) × IsQueue after ys
        × (length ys ≡ 2 + 1)
        × ((P : ℕ → Type 0) → P 2 → All P (1 ∷ 0 ∷ []) → All P ys)
        × Ordered (target_of after.work_queue) 50 ys)
      (insert_req_sorted 2 two_requests 200)
insert_req_sorted-Ordered_example =
    insert_req_sorted-Ordered two_requests 2 ((due_at 200 null null, refl, refl, refl), tt) 200
      (1 ∷ 0 ∷ []) two_requests-IsQueue (omega arith) (omega arith) (omega arith, (omega arith, tt))
      refl ((omega arith, tt), (tt, tt))

-- every entry is accepted, and remembered
abbrev remember : ℕ → List ℕ → Option (Option ℕ × List ℕ)
remember i seen = some (some 512, i ∷ seen)

abbrev eight_entries : SubmissionQueue
eight_entries = record {
  queue_size = 8;
  cqid = 1;
  stat = record {
    nr_dispatched = 0;
    nr_dispatch = 0;
    nr_in_flight = 0;
    max_nr_in_flight = 0;
    total_io = 0;
  };
}

nvmev_proc_io_sq-Fetched_example :
    Returns (Fetched remember eight_entries 2 6 []) (nvmev_proc_io_sq remember eight_entries 2 6 [])
nvmev_proc_io_sq-Fetched_example =
    nvmev_proc_io_sq-Fetched remember (λ i s. returns tt) eight_entries 2 6 [] (omega arith)
      (omega arith) (omega arith)

abbrev blank : Completion
blank = record { command_id = 0; sq_id = 0; sq_head = 0; status = 0; result0 = 0; result1 = 0 }

abbrev at_the_end : CompletionQueue
at_the_end = record {
  queue_size = 2;
  phase = 1;
  cq_head = 1;
  tail_before = 0;
  interrupt_ready = false;
  cq = blank ∷ blank ∷ [];
}

fill_cq_result-ticket_example :
    (ticket (fill_cq_result at_the_end (due_at 5 0 0))
      ≡ (if ticket at_the_end + 1 == 2 * 2 then 0 else ticket at_the_end + 1))
    × ((fill_cq_result at_the_end (due_at 5 0 0)).cq_head < 2)
    × ((fill_cq_result at_the_end (due_at 5 0 0)).phase < 2)
    × Returns
        (λ (c : Completion). (c.command_id ≡ 0) × (c.status % 2 ≡ 1))
        (get_elem? (fill_cq_result at_the_end (due_at 5 0 0)).cq 1)
    × ((i : ℕ)
        → i ≢ 1
        → get_elem? (fill_cq_result at_the_end (due_at 5 0 0)).cq i ≡ get_elem? at_the_end.cq i)
fill_cq_result-ticket_example =
    fill_cq_result-ticket at_the_end (due_at 5 0 0) (omega arith) (omega arith) refl

abbrev two_pages : Memory
two_pages = record { host = λ a. a % 251; storage = λ a. 0 }

-- a list at 20480 with the pages 8192 and 32768
abbrev with_list : Memory
with_list = record {
  host = λ a.
      if leb 20480 a && ltb a 20496
      then (if a == 20481 then 32 else if a == 20489 then 128 else 0)
      else a % 251;
  storage = λ a. 0;
}

with_list-aligned : (i : ℕ) → 4096 * i < 8192 → u64_at with_list.host (20480 + 8 * i) % 4096 ≡ 0
with_list-aligned zero h = refl
with_list-aligned (suc zero) h = refl
with_list-aligned (suc (suc i)) h = absurd (omega (arith, h))

do_perform_io-Moved_example :
    Returns
      (λ (r : ℕ × Memory).
        (r.0 ≡ 24 * 2 ^ 9)
        × Moved with_list
            (prp_address with_list.host 4096 20480 (24 * 2 ^ 9))
            (3 * 2 ^ 9)
            (24 * 2 ^ 9)
            r.1)
      (do_perform_io to_storage 3 23 4096 20480 with_list)
do_perform_io-Moved_example =
    do_perform_io-Moved 3 23 4096 20480 with_list (omega arith) (record {
      page = λ h. refl;
      entries = λ h i k. with_list-aligned i k;
      fits = λ h. omega arith;
    })

abbrev write_two_pages : ℕ → ℕ → Option IoCommand
write_two_pages sqid sq_entry =
    some
      (record { direction = to_storage; nsid = 1; slba = 3; length = 7; prp1 = 5120; prp2 = 20480 })

abbrev one_namespace : Env
one_namespace = record {
  host = two_pages.host;
  storages = two_pages.storage ∷ [];
  cqes = some at_the_end ∷ [];
  releases = [];
}

moves :
    Returns
      (λ (e : Env). Unit {0})
      (transfer_data write_two_pages one_namespace (due_at 100 null null))
unfolding transfer_data
moves =
    Returns-bind
      (do_perform_io-Moved 3 7 5120 20480 two_pages (omega arith) (record {
        page = λ h. refl;
        entries = λ h. absurd (omega arith);
        fits = λ h. absurd (omega arith);
      }))
      λ r p. returns tt

visit-Visited_example :
    Returns
      (Visited write_two_pages 150 at_the_end one_namespace (due_at 100 null null))
      (visit write_two_pages 150 (due_at 100 null null) one_namespace)
visit-Visited_example =
    visit-Visited write_two_pages 150 at_the_end (due_at 100 null null) one_namespace moves refl
