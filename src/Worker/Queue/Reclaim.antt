-- ===== src/Worker/Queue/Reclaim.antt =====
-- `__reclaim_completed_reqs` on the queue of one worker.
use nvme_virt.Prelude.{
  ℕ, zero, suc, ◌+◌, ◌≡◌, ◌≢◌, ◌≤◌, refl, sym, subst, ap, ◌∙◌, List, [], ◌∷◌, ◌++◌, some, ◌==◌,
  true, false, if◌then◌else◌, get_elem?, length, Bool-cases, inl, inr, Returns, returns,
  Returns-bind, Returns-mono, arith,
}
use nvme_virt.Worker.State.{Work, Worker, null}
use nvme_virt.Worker.Queue.{is_reclaimable, last_completed, release_to, reclaim_worker}
use nvme_virt.Worker.Queue.Chain.{All, Distinct, head_or, last_or, Seg, Seg-append, All-append}
use nvme_virt.Worker.Queue.Links.{last-append}
use nvme_virt.Worker.Queue.Sorted.{IsQueue}
use nvme_virt.Worker.Queue.Release.{Released, release_to-Released}

-- The entry is completed, copied and due.
abbrev pub IsDone : Worker → ℕ → Type 0
IsDone worker i =
    (w : Work) × (get_elem? worker.work_queue i ≡ some w)
    × (w.is_completed ≡ true)
    × (w.is_copied ≡ true)
    × (w.nsecs_target ≤ worker.latest_nsecs)

-- No request is left in front that is done.
abbrev pub Stops : Worker → List ℕ → Type 0
Stops worker us =
    us ≢ []
    → (w : Work) × (get_elem? worker.work_queue (last_or null us) ≡ some w)
      × (is_reclaimable worker w ≡ false)

-- The queue `xs` falls into the requests that stay and those that are done, in front of them.
abbrev pub Cut : Worker → List ℕ → List ℕ → List ℕ → Type 0
Cut worker xs us vs = (xs ≡ us ++ vs) × All (IsDone worker) vs × Stops worker us

-- a list that is not empty ends
last_of :
    (u : ℕ) (us : List ℕ)
    → (front : List ℕ) × (c : ℕ) × (u ∷ us ≡ front ++ c ∷ []) × (length (u ∷ us) ≡ length front + 1)
last_of u [] = ([], u, refl, refl)
last_of u (v ∷ us) =
    let (front, c, e, l) = last_of v us in (u ∷ front, c, ap (λ x. u ∷ x) e, omega (arith, l))

append_assoc : (us vs ws : List ℕ) → (us ++ vs) ++ ws ≡ us ++ (vs ++ ws)
append_assoc [] vs ws = refl
append_assoc (u ∷ us) vs ws = ap (λ x. u ∷ x) (append_assoc us vs ws)

module _ (worker : Worker) (xs : List ℕ) (q : IsQueue worker xs) where
  last_completed-Cut :
      (fuel : ℕ) (us vs : List ℕ)
      → xs ≡ us ++ vs
      → All (IsDone worker) vs
      → length us ≤ fuel
      → Returns
          (λ (last : ℕ).
            (us' : List ℕ) × (vs' : List ℕ) × Cut worker xs us' vs' × (last ≡ head_or null vs'))
          (last_completed fuel worker (last_or null us) (head_or null vs))
  unfolding last_completed
  last_completed-Cut zero [] vs e a h = returns ([], vs, (e, a, (λ k. absurd (k refl))), refl)
  last_completed-Cut zero (u ∷ us) vs e a h = absurd (omega arith)
  last_completed-Cut (suc fuel) [] vs e a h = returns ([], vs, (e, a, (λ k. absurd (k refl))), refl)
  last_completed-Cut (suc fuel) (u ∷ us) vs e a h =
      let wq = worker.work_queue in
      let (front, c, split, len) = last_of u us in
      let at_end : last_or null (u ∷ us) ≡ c =
        ap (last_or null) split ∙ last-append null c front [] in
      let whole : xs ≡ front ++ c ∷ vs =
        e ∙ ap (λ l. l ++ vs) split ∙ append_assoc front (c ∷ []) vs in
      let chain = subst (λ l. Seg wq null l null) whole q.chain in
      let (w, at, next, prev) = (Seg-append wq null null front (c ∷ vs) chain).1.0 in
      let named =
        (All-append (λ x. x ≢ null) front (c ∷ vs)
          (subst (All (λ x. x ≢ null)) whole q.named)).1.0 in
      let there : (c == null) ≡ false = ground (arith, named) in
      rw (at_end, there, at)
        (elim (Bool-cases (is_reclaimable worker w)) [
          | inl r ↦
              rw (r, next)
                (last_completed-Cut fuel front (c ∷ vs) whole
                  ((w, at, ground (arith, r), ground (arith, r), ground (arith, r)), a)
                  (omega (arith, h, len)))
          | inr r ↦ rw r (
              returns
                (u ∷ us, vs, (e, a, (λ _. (w, ap (λ i. get_elem? wq i) at_end ∙ at, r))), refl))
        ])

  -- The reclaim takes from the front of the queue exactly the requests that are completed, copied and
  -- due, up to the first that is not, and appends them in their order to the free chain; the others
  -- stay a queue, and every time stays. Condition: the queue is well formed, with no more requests than
  -- entries, the free chain ends at `free_seq_end`, and no entry is in both.
  pub reclaim_worker-Released :
      (f p : ℕ) (fs : List ℕ)
      → length xs ≤ length worker.work_queue
      → Seg worker.work_queue null (f ∷ fs) p
      → worker.free_seq_end ≡ f
      → Distinct (f ∷ fs)
      → All (λ x. All (λ z. z ≢ x) xs) (f ∷ fs)
      → Returns
          (λ (after : Worker).
            (us : List ℕ) × (vs : List ℕ) × Cut worker xs us vs
            × Released worker us vs (f ∷ fs) p after)
          (reclaim_worker worker)
  unfolding reclaim_worker
  reclaim_worker-Released f p fs few free end distf apart =
      Returns-bind walk λ last r. release last r.0 r.1 r.2 r.3
    where
      none_left : (us : List ℕ) → us ++ [] ≡ us
      none_left [] = refl
      none_left (u ∷ us) = ap (λ l. u ∷ l) (none_left us)

      walk :
          Returns
            (λ (last : ℕ).
              (us' : List ℕ) × (vs' : List ℕ) × Cut worker xs us' vs' × (last ≡ head_or null vs'))
            (last_completed (length worker.work_queue) worker worker.io_seq null)
      walk =
          subst
            (λ i.
              Returns
                (λ (last : ℕ).
                  (us' : List ℕ) × (vs' : List ℕ) × Cut worker xs us' vs'
                  × (last ≡ head_or null vs'))
                (last_completed (length worker.work_queue) worker i null))
            (sym q.front)
            (last_completed-Cut (length worker.work_queue) xs [] (sym (none_left xs)) tt few)

      release :
          (last : ℕ) (us vs : List ℕ)
          → Cut worker xs us vs
          → last ≡ head_or null vs
          → Returns
              (λ (after : Worker).
                (us : List ℕ) × (vs : List ℕ) × Cut worker xs us vs
                × Released worker us vs (f ∷ fs) p after)
              (if last == null then some worker else release_to worker last)
      release last us [] cut e =
          let same : xs ≡ us = cut.0 ∙ none_left us in
          rw e (
            returns (
              us,
              [],
              cut,
              record {
                queue = subst (IsQueue worker) same q;
                chain = free;
                free_end = end;
                free_start = refl;
                times = λ j. refl;
              },
            ))
      release last us (d ∷ ds) cut e =
          let queue = subst (IsQueue worker) cut.0 q in
          let named = (All-append (λ x. x ≢ null) us (d ∷ ds) queue.named).1.0 in
          let there : (d == null) ≡ false = ground (arith, named) in
          rw (e, there)
            (Returns-mono
              (release_to-Released worker d f p ds fs us queue free end distf
                (subst (λ l. All (λ x. All (λ z. z ≢ x) l) (f ∷ fs)) cut.0 apart))
              λ after r. (us, d ∷ ds, cut, r))
