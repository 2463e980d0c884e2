-- ===== src/Worker/Queue/Insert.antt =====
-- `__insert_req_sorted` on a queue of requests.
use nvme_virt.Prelude.{
  ℕ, ◌+◌, ◌≡◌, ◌≢◌, ◌≤◌, refl, sym, ap, ◌∙◌, subst, List, [], ◌∷◌, ◌++◌, false, some, ◌==◌, length,
  Returns, returns, Returns-mono, arith,
}
use nvme_virt.Worker.State.{Worker, null}
use nvme_virt.Worker.Queue.{insert_at, insert_req_sorted, find_place}
use nvme_virt.Worker.Queue.Chain.{
  All, Distinct, head_or, last_or, Seg, Seg-append, target_of, All-last, All-append, All-join,
  Distinct-append,
}
use nvme_virt.Worker.Queue.Links.{
  Relinked, last-append, flip_ne, insert_head-Relinked, insert_tail-Relinked,
  insert_between-Relinked,
}
use nvme_virt.Worker.Queue.Sorted.{
  IsQueue, insert_sorted, find_place-Split, Ordered, insert_sorted-Ordered, length-insert_sorted,
  insert_sorted-All,
}

-- What an insertion leaves: the queue with the new request, and all times as before.
pub record Inserted (worker : Worker) (e target : ℕ) (xs : List ℕ) (after : Worker) : Type 0 where
  pub queue :
      IsQueue after (insert_sorted (target_of worker.work_queue) worker.latest_nsecs target e xs)
  pub times : (j : ℕ) → target_of after.work_queue j ≡ target_of worker.work_queue j
  pub free : (after.free_seq ≡ worker.free_seq) × (after.free_seq_end ≡ worker.free_seq_end)

All-insert {ℓ} :
    (P : ℕ → Type ℓ) (e : ℕ) (us vs : List ℕ) → P e → All P (us ++ vs) → All P (us ++ e ∷ vs)
All-insert P e us vs h k = let (a, b) = All-append P us vs k in All-join P us (e ∷ vs) a (h, b)

Distinct-insert :
    (e : ℕ) (us vs : List ℕ)
    → All (λ x. x ≢ e) (us ++ vs)
    → Distinct (us ++ vs)
    → Distinct (us ++ e ∷ vs)
Distinct-insert e [] vs out d = (flip_ne e vs out, d)
Distinct-insert e (u ∷ us) vs out d =
    (All-insert (λ y. u ≢ y) e us vs out.0 d.0, Distinct-insert e us vs out.1 d.1)

module _ (worker : Worker) (e : ℕ) (fresh : Seg worker.work_queue null (e ∷ []) null) where
  insert_at-Relinked :
      (us vs : List ℕ)
      → (us ++ vs) ≢ []
      → Distinct (us ++ vs)
      → All (λ x. x ≢ null) (us ++ vs)
      → All (λ x. x ≢ e) (us ++ vs)
      → Seg worker.work_queue null (us ++ vs) null
      → worker.io_seq ≡ last_or null (us ++ vs)
      → head_or worker.io_seq_end (us ++ vs) ≡ worker.io_seq_end
      → Relinked worker (us ++ e ∷ vs) (insert_at worker e (head_or null vs))
  unfolding insert_at
  insert_at-Relinked [] [] some_there d named out s front back = absurd (some_there refl)
  insert_at-Relinked (u ∷ us) [] some_there d named out s front back =
      insert_head-Relinked worker e fresh u us (Distinct-append (u ∷ us) [] d).0
        (All-append (λ x. x ≢ e) (u ∷ us) [] out).0
        (Seg-append worker.work_queue null null (u ∷ us) [] s).0 (front ∙ last_nil u us) (sym back)
    where
      last_nil : (d : ℕ) (us : List ℕ) → last_or d (us ++ []) ≡ last_or d us
      last_nil d [] = refl
      last_nil d (u ∷ us) = last_nil u us
  insert_at-Relinked [] (c ∷ vs) some_there d named out s front back =
      let (w, at, next, prev) = s.0 in
      let there : (c == null) ≡ false = ground (arith, named.0) in
      rw (there, at, next) (insert_tail-Relinked worker e fresh c vs d out s front)
  insert_at-Relinked (u ∷ us) (c ∷ vs) some_there d named out s front back =
      let (w, at, next, prev) = (Seg-append worker.work_queue null null (u ∷ us) (c ∷ vs) s).1.0 in
      let (named_u, named_v) = All-append (λ x. x ≢ null) (u ∷ us) (c ∷ vs) named in
      let there : (c == null) ≡ false = ground (arith, named_v.0) in
      let l_there : last_or u us ≢ null = All-last (λ x. x ≢ null) u us named_u.0 named_u.1 in
      let between : (last_or u us == null) ≡ false = ground (arith, l_there) in
      rw (there, at, next, between)
        (insert_between-Relinked worker e fresh u c us vs d out s
          (front ∙ last-append null c (u ∷ us) vs) (sym back))

  -- The chain of indexes refines a list: a new request goes behind the last request of the queue that
  -- is due or not later than it, or to the front, every other request keeps its place, and the links
  -- in both directions are those of the new list. Condition: the queue is well formed, with no more
  -- requests than entries, and the new entry is not in it and has no links.
  pub insert_req_sorted-Inserted :
      (target : ℕ) (xs : List ℕ)
      → IsQueue worker xs
      → length xs ≤ length worker.work_queue
      → e ≢ null
      → All (λ x. x ≢ e) xs
      → Returns (Inserted worker e target xs) (insert_req_sorted e worker target)
  unfolding insert_req_sorted insert_sorted
  insert_req_sorted-Inserted target [] q few named out = rw (q.front) (
      returns (record {
        queue = record {
          chain = fresh;
          front = refl;
          back = refl;
          distinct = (tt, tt);
          named = (named, tt);
        };
        times = λ j. refl;
        free = (refl, refl);
      }))
  insert_req_sorted-Inserted target (x ∷ xs) q few named out =
      let wq = worker.work_queue in
      let latest = worker.latest_nsecs in
      let (us, vs, split, put, found) =
        find_place-Split wq latest target e (length wq) null (x ∷ xs) few q.named q.chain in
      let there : (worker.io_seq == null) ≡ false =
        ground (arith, q.front, All-last (λ y. y ≢ null) x xs q.named.0 q.named.1) in
      let r =
        insert_at-Relinked us vs (λ h. cons_nil (split ∙ h)) (subst Distinct split q.distinct)
          (subst (All (λ y. y ≢ null)) split q.named) (subst (All (λ y. y ≢ e)) split out)
          (subst (λ l. Seg wq null l null) split q.chain) (q.front ∙ ap (last_or null) split)
          (ap (head_or worker.io_seq_end) (sym split) ∙ q.back) in
      let found' =
        subst (λ i. find_place (length wq) wq latest target i ≡ some (head_or null vs)) q.back
          found in
      rw (there, found', r.is)
        (returns (record {
          queue = subst (IsQueue _) (sym put) (record {
            chain = r.chain;
            front = r.front;
            back = r.back;
            distinct =
                Distinct-insert e us vs (subst (All (λ y. y ≢ e)) split out)
                  (subst Distinct split q.distinct);
            named =
                All-insert (λ y. y ≢ null) e us vs named
                  (subst (All (λ y. y ≢ null)) split q.named);
          });
          times = r.times;
          free = (refl, refl);
        }))
    where
      cons_nil : (x ∷ xs) ≢ []
      cons_nil h = cc

  -- An insertion keeps the requests of a worker in the order of their target times, but for those that
  -- are due: no request waits behind a later one, in the queue that the links make up afterwards, which
  -- has the requests of before and the new one and no other.
  -- Condition: the queue is well formed and in this order, with no more requests than entries, and the
  -- new entry has the target time, is not in the queue and has no links.
  pub insert_req_sorted-Ordered :
      (target : ℕ) (xs : List ℕ)
      → IsQueue worker xs
      → length xs ≤ length worker.work_queue
      → e ≢ null
      → All (λ x. x ≢ e) xs
      → target_of worker.work_queue e ≡ target
      → Ordered (target_of worker.work_queue) worker.latest_nsecs xs
      → Returns
          (λ (after : Worker).
            (ys : List ℕ) × IsQueue after ys
            × (length ys ≡ length xs + 1)
            × ((P : ℕ → Type 0) → P e → All P xs → All P ys)
            × Ordered (target_of after.work_queue) worker.latest_nsecs ys)
          (insert_req_sorted e worker target)
  insert_req_sorted-Ordered target xs q few named out at o =
      let time = target_of worker.work_queue in
      let latest = worker.latest_nsecs in
      Returns-mono (insert_req_sorted-Inserted target xs q few named out) λ after r.
        let same : time ≡ target_of after.work_queue = λ i j. sym (r.times j) i in
        (
          insert_sorted time latest target e xs,
          r.queue,
          length-insert_sorted time latest target e at xs,
          λ P. insert_sorted-All time latest target e at P xs,
          subst (λ f. Ordered f latest (insert_sorted time latest target e xs)) same
              (insert_sorted-Ordered time latest target e at xs o),
        )
