-- ===== src/Worker/Doorbell/Ring.antt =====
-- The rings of the queues: the entries that a doorbell stands for, and the head and the phase.
use nvme_virt.Prelude.{
  ℕ, zero, suc, ◌+◌, ◌-◌, ◌*◌, ◌%◌, ◌^◌, ◌≤◌, ◌<◌, ◌≡◌, ◌≢◌, refl, sym, Option, none, some, ltb,
  ◌==◌, if◌then◌else◌, u32, get_elem?, get_elem?-set_self, get_elem?-set_ne, length, Returns,
  returns, Returns-bind, Returns-inv, subst, Bool-cases, inl, inr, arith,
}
use nvme_virt.Worker.State.{Work}
use nvme_virt.Worker.Doorbell.{
  SubmissionQueue, CompletionQueue, Completion, SqStat, num_proc, next_entry, dispatched,
  continue_with, proc_entries, nvmev_proc_io_sq, fill_cq_result,
}

-- the entry `k` places behind `old_db` in a ring
abbrev pub behind : ℕ → ℕ → ℕ → ℕ
behind size old_db k = if ltb (old_db + k) size then old_db + k else old_db + k - size

-- From the `k`-th entry behind `old_db` on, `n` entries are given to `proc_io` one by one, `seq` of them
-- are accepted, and the next is refused, if there is one.
pub data Taken {S : Type 0} (proc_io : ℕ → S → Option (Option ℕ × S)) (size old_db : ℕ)
    : ℕ → ℕ → ℕ → S → S → Type 0 where
  all_taken : {k : ℕ} {s : S} → Taken proc_io size old_db zero k zero s s
  refused :
      {n k : ℕ} {s t : S}
      → proc_io (behind size old_db k) s ≡ some (none, t)
      → Taken proc_io size old_db (suc n) k zero s t
  accepted :
      {n k seq io_size : ℕ} {s t u : S}
      → proc_io (behind size old_db k) s ≡ some (some io_size, t)
      → Taken proc_io size old_db n (k + 1) seq t u
      → Taken proc_io size old_db (suc n) k (seq + 1) s u

-- `seq` of the `n` entries are counted as dispatched.
abbrev pub Counted : SqStat → ℕ → ℕ → SqStat → Type 0
Counted stat n seq stat' = (seq ≤ n) × (stat'.nr_dispatched ≡ u32 (stat.nr_dispatched + seq))

-- What the dispatcher leaves behind a doorbell.
abbrev pub Fetched :
    {S : Type 0}
    → (ℕ → S → Option (Option ℕ × S))
    → SubmissionQueue
    → ℕ
    → ℕ
    → S
    → ℕ × SubmissionQueue × S
    → Type 0
Fetched proc_io sq new_db old_db s (latest, sq', s') =
    (seq : ℕ) × (seq ≤ num_proc sq.queue_size new_db old_db)
    × Taken proc_io sq.queue_size old_db (num_proc sq.queue_size new_db old_db) 0 seq s s'
    × (latest ≡ (old_db + seq) % sq.queue_size)
    × (seq ≡ num_proc sq.queue_size new_db old_db → latest ≡ new_db)
    × (sq'.stat.nr_dispatched ≡ u32 (sq.stat.nr_dispatched + seq))

ring_end :
    (size new_db old_db : ℕ)
    → new_db < size
    → old_db < size
    → (old_db + num_proc size new_db old_db) % size ≡ new_db
ring_end size new_db old_db h k = elim (Bool-cases (ltb new_db old_db)) [
  | inl q ↦
      let e : old_db + (new_db + size - old_db) ≡ new_db + size = ground (arith, q, k) in
      rw (q, e) (once_around new_db size h)
  | inr q ↦
      let e : old_db + (new_db - old_db) ≡ new_db = ground (arith, q) in
      rw (q, e) (less new_db size h)
]
  where
    once_around : (n size : ℕ) → n < size → (n + size) % size ≡ n
    once_around n size h = grind arith

    less : (n size : ℕ) → n < size → n % size ≡ n
    less n size h = grind arith

module _ {S : Type 0} (proc_io : ℕ → S → Option (Option ℕ × S))
    (runs : (i : ℕ) (s : S) → Returns (λ (r : Option ℕ × S). Unit {0}) (proc_io i s)) where
  module _ (size old_db : ℕ) (inside : old_db < size) where
    abbrev Served : ℕ → ℕ → SqStat → S → ℕ × SqStat × S → Type 0
    Served n k stat s (seq, stat', t) =
        Counted stat n seq stat' × Taken proc_io size old_db n k seq s t

    next_entry-behind :
        (k : ℕ) → k < size → next_entry size (behind size old_db k) ≡ behind size old_db (k + 1)
    next_entry-behind k h = ground (arith, inside)

    proc_entries-Served :
        (n k : ℕ) (stat : SqStat) (s : S)
        → n + k ≤ size
        → stat.nr_dispatched < 2 ^ 32
        → Returns (Served n k stat s) (proc_entries proc_io n size (behind size old_db k) stat s)
    unfolding proc_entries
    proc_entries-Served zero k stat s b h = returns ((omega arith, omega (arith, h)), all_taken)
    proc_entries-Served (suc n) k stat s b h =
        let ((answer, t), called, _) = Returns-inv (runs (behind size old_db k) s) in
        rw called (
          go answer t called
            λ stat2 u b2. proc_entries-Served n (k + 1) stat2 u (omega (arith, b)) b2)
      where
        go :
            (answer : Option ℕ) (t : S)
            → proc_io (behind size old_db k) s ≡ some (answer, t)
            → ((stat2 : SqStat) (u : S)
                → stat2.nr_dispatched < 2 ^ 32
                → Returns
                    (Served n (k + 1) stat2 u)
                    (proc_entries proc_io n size (behind size old_db (k + 1)) stat2 u))
            → Returns (Served (suc n) k stat s) (
                continue_with stat answer t λ io_size u.
                  proc_entries proc_io n size
                    (next_entry size (behind size old_db k))
                    (dispatched stat io_size)
                    u)
        go none t called rest = returns ((omega arith, omega (arith, h)), refused called)
        go (some io_size) t called rest = rw (next_entry-behind k (omega (arith, b))) (
            Returns-bind (rest (dispatched stat io_size) t (omega arith)) λ r c.
              returns {a = (r.0 + 1, r.1, r.2)}
                ((omega (arith, c.0.0), omega (arith, c.0.1)), accepted called c.1))

  -- A doorbell makes the dispatcher take the entries between the old and the new doorbell, one by one in
  -- the order of the ring, up to the first that is refused: the returned doorbell lies behind the
  -- entries accepted, which the statistics count, and it is the new doorbell when all are. Condition:
  -- both doorbells are in the queue, and each entry is answered.
  pub nvmev_proc_io_sq-Fetched :
      (sq : SubmissionQueue) (new_db old_db : ℕ) (s : S)
      → new_db < sq.queue_size
      → old_db < sq.queue_size
      → sq.stat.nr_dispatched < 2 ^ 32
      → Returns (Fetched proc_io sq new_db old_db s) (nvmev_proc_io_sq proc_io sq new_db old_db s)
  unfolding nvmev_proc_io_sq
  nvmev_proc_io_sq-Fetched sq new_db old_db s h k b =
      let size = sq.queue_size in
      let n = num_proc size new_db old_db in
      let here : behind size old_db 0 ≡ old_db = ground (arith, k) in
      let served = proc_entries-Served size old_db k n 0 sq.stat s (ground (arith, h, k)) b in
      Returns-bind
        (subst
          (λ i.
            Returns (Served size old_db k n 0 sq.stat s) (proc_entries proc_io n size i sq.stat s))
          here served)
        λ (seq, stat, t) c.
          returns (seq, c.0.0, c.1, refl, (λ all. rw all (ring_end size new_db old_db h k)), c.0.1)

-- A completion queue as a counter: the head, one round further on for a phase of 1.
abbrev pub ticket : CompletionQueue → ℕ
ticket cq = cq.cq_head + cq.queue_size * cq.phase

-- A completion goes to the head, with the phase of its round, and to no other entry, and the head and
-- the phase count on by one, modulo two rounds. Condition: the head is in the queue, and the phase is
-- 0 or 1.
pub fill_cq_result-ticket :
    (cq : CompletionQueue) (w : Work)
    → cq.cq_head < cq.queue_size
    → cq.phase < 2
    → length cq.cq ≡ cq.queue_size
    → (ticket (fill_cq_result cq w)
        ≡ (if ticket cq + 1 == 2 * cq.queue_size then 0 else ticket cq + 1))
      × ((fill_cq_result cq w).cq_head < cq.queue_size)
      × ((fill_cq_result cq w).phase < 2)
      × Returns
          (λ (c : Completion). (c.command_id ≡ w.command_id) × (c.status % 2 ≡ cq.phase))
          (get_elem? (fill_cq_result cq w).cq cq.cq_head)
      × ((i : ℕ) → i ≢ cq.cq_head → get_elem? (fill_cq_result cq w).cq i ≡ get_elem? cq.cq i)
unfolding fill_cq_result
fill_cq_result-ticket cq w h p l = (
  advance cq.phase cq.cq_head cq.queue_size h p,
  ground (arith, h),
  ground (arith, p),
  rw (get_elem?-set_self cq.cq cq.cq_head _ (omega (arith, h, l)))
      (returns (refl, omega (arith, p))),
  (λ i k. get_elem?-set_ne cq.cq cq.cq_head i _ (λ e. k (sym e))),
)
  where
    advance :
        (phase head size : ℕ)
        → head < size
        → phase < 2
        → (if head + 1 == size then 0 else head + 1)
            + size * (if head + 1 == size then 1 - phase else phase)
          ≡ (if head + size * phase + 1 == 2 * size then 0 else head + size * phase + 1)
    advance zero head size h p = ground arith
    advance (suc zero) head size h p = ground arith
    advance (suc (suc n)) head size h p = absurd (omega arith)
