-- ===== src/Worker/Queue/Release.antt =====
-- Completed requests at the front of a queue on their way to the free chain.
use nvme_virt.Prelude.{
  ℕ, ◌≡◌, ◌≢◌, refl, sym, subst, ◌∙◌, List, [], ◌∷◌, ◌++◌, Option, some, ◌==◌, false, Returns,
  returns, arith,
}
use nvme_virt.Worker.State.{Work, Worker, null, set_next, set_prev}
use nvme_virt.Worker.Queue.{release_to}
use nvme_virt.Worker.Queue.Chain.{
  All, Distinct, head_or, last_or, Seg, Seg-append, Seg-join, Seg-Assigned, Seg-set_next,
  Seg-set_prev, target_of, All-last, All-append, Distinct-append,
}
use nvme_virt.Worker.Queue.Links.{last-append}
use nvme_virt.Worker.Queue.Sorted.{IsQueue}

-- What the reclaim leaves: the queue of the requests that stay, and the completed ones at the end of
-- the free chain, in their order.
pub record Released (worker : Worker) (stay completed free : List ℕ) (p : ℕ) (after : Worker)
    : Type 0 where
  pub queue : IsQueue after stay
  pub chain : Seg after.work_queue null (completed ++ free) p
  pub free_end : after.free_seq_end ≡ head_or null (completed ++ free)
  pub free_start : after.free_seq ≡ worker.free_seq
  pub times : (j : ℕ) → target_of after.work_queue j ≡ target_of worker.work_queue j

-- an entry of `q` is not among entries that are apart from `q`
ne_each :
    (q xs : List ℕ) (y : ℕ)
    → ((P : ℕ → Type 0) → All P q → P y)
    → All (λ x. All (λ z. z ≢ x) q) xs
    → All (λ x. x ≢ y) xs
ne_each q [] y pick h = tt
ne_each q (x ∷ xs) y pick h = ((λ e. pick (λ z. z ≢ x) h.0 (sym e)), ne_each q xs y pick h.1)

left_part :
    (us vs xs : List ℕ)
    → All (λ x. All (λ z. z ≢ x) (us ++ vs)) xs
    → All (λ x. All (λ z. z ≢ x) us) xs × All (λ x. All (λ z. z ≢ x) vs) xs
left_part us vs [] h = (tt, tt)
left_part us vs (x ∷ xs) h =
    let (a, b) = All-append (λ z. z ≢ x) us vs h.0 in
    let (as_, bs_) = left_part us vs xs h.1 in ((a, as_), (b, bs_))

-- an assignment, at other names of the same indexes
relink :
    (wq : List Work) (wq' : List Work) (assign : List Work → ℕ → ℕ → Option (List Work))
    {a b c d : ℕ}
    → a ≡ b
    → c ≡ d
    → assign wq a c ≡ some wq'
    → assign wq b d ≡ some wq'
relink wq wq' assign {a} {b} {c} {d} e f h =
    subst (λ x. assign wq x d ≡ some wq') e (subst (λ y. assign wq a y ≡ some wq') f h)

module _ (worker : Worker) (d f p : ℕ) (ds fs : List ℕ) where
  -- the two chains behind the first assignment, which leaves them as they were
  joined :
      (wq1 : List Work) (us : List ℕ)
      → Distinct (us ++ d ∷ ds)
      → Distinct (f ∷ fs)
      → All (λ x. All (λ z. z ≢ x) (us ++ d ∷ ds)) (f ∷ fs)
      → Seg wq1 null us null
      → Seg wq1 (last_or null us) (d ∷ ds) null
      → Seg wq1 null (f ∷ fs) p
      → (wq2 : List Work) × (wq3 : List Work) × (wq4 : List Work) × (set_next wq1 d null ≡ some wq2)
        × (set_prev wq2 (last_or d ds) f ≡ some wq3)
        × (set_next wq3 f (last_or d ds) ≡ some wq4)
        × Seg wq4 null us null
        × Seg wq4 null ((d ∷ ds) ++ f ∷ fs) p
        × ((j : ℕ) → target_of wq4 j ≡ target_of wq1 j)
  joined wq1 us dist distf apart u1 v1 f1 =
      let first = last_or d ds in
      let (du, dv, uv) = Distinct-append us (d ∷ ds) dist in
      let (fu, fv) = left_part us (d ∷ ds) (f ∷ fs) apart in
      let (wq2, ran2, v2, a2) = Seg-set_next wq1 (last_or null us) null null d ds dv v1 in
      let u2 = Seg-Assigned wq1 null null d us a2 uv.0 u1 in
      let f2 =
        Seg-Assigned wq1 null p d (f ∷ fs) a2 (ne_each (d ∷ ds) (f ∷ fs) d (λ P h. h.0) fv) f1 in
      let (wq3, ran3, v3, a3) = Seg-set_prev wq2 null null f d ds dv v2 in
      let u3 =
        Seg-Assigned wq2 null null first us a3 (All-last (λ b. All (λ a. a ≢ b) us) d ds uv.0 uv.1)
          u2 in
      let f3 =
        Seg-Assigned wq2 null p first (f ∷ fs) a3
          (ne_each (d ∷ ds) (f ∷ fs) first (λ P h. All-last P d ds h.0 h.1) fv) f2 in
      let (wq4, ran4, f4, a4) = Seg-set_next wq3 null first p f fs distf f3 in
      let u4 = Seg-Assigned wq3 null null f us a4 fu.0 u3 in
      let v4 = Seg-Assigned wq3 null f f (d ∷ ds) a4 fv.0 v3 in
      (
        wq2,
        wq3,
        wq4,
        ran2,
        ran3,
        ran4,
        u4,
        Seg-join wq4 null p (d ∷ ds) (f ∷ fs) v4 f4,
        λ j. a4.1 j ∙ a3.1 j ∙ a2.1 j,
      )

  -- Reclaiming the completed requests `d ∷ ds` at the front of a queue leaves the queue of the requests
  -- behind them, and appends them in their order to the free chain, whose end is then the last of
  -- them. Condition: the queue is well formed, the free chain ends at `free_seq_end`, and no entry is in
  -- both.
  pub release_to-Released :
      (us : List ℕ)
      → IsQueue worker (us ++ d ∷ ds)
      → Seg worker.work_queue null (f ∷ fs) p
      → worker.free_seq_end ≡ f
      → Distinct (f ∷ fs)
      → All (λ x. All (λ z. z ≢ x) (us ++ d ∷ ds)) (f ∷ fs)
      → Returns (Released worker us (d ∷ ds) (f ∷ fs) p) (release_to worker d)
  unfolding release_to
  release_to-Released [] q free end distf apart =
      let wq = worker.work_queue in
      let (w, at, next, prev) = q.chain.0 in
      let (wq2, wq3, wq4, ran2, ran3, ran4, u4, c4, times) =
        joined wq [] q.distinct distf apart tt q.chain free in
      let ran3' = relink wq2 wq3 set_prev (sym q.front) (sym end) ran3 in
      let ran4' = relink wq3 wq4 (λ l a b. set_next l b a) (sym q.front) (sym end) ran4 in
      rw (at, next, ran2, ran3', ran4')
        (returns (record {
          queue = record { chain = tt; front = refl; back = refl; distinct = tt; named = tt };
          chain = c4;
          free_end = refl;
          free_start = refl;
          times = times;
        }))
  release_to-Released (u ∷ us) q free end distf apart =
      let wq = worker.work_queue in
      let l = last_or u us in
      let (du, dv, uv) = Distinct-append (u ∷ us) (d ∷ ds) q.distinct in
      let (named_u, named_v) = All-append (λ x. x ≢ null) (u ∷ us) (d ∷ ds) q.named in
      let (fu, fv) = left_part (u ∷ us) (d ∷ ds) (f ∷ fs) apart in
      let (u0, v0) = Seg-append wq null null (u ∷ us) (d ∷ ds) q.chain in
      let (w, at, next, prev) = v0.0 in
      let pick : (P : ℕ → Type 0) → All P (u ∷ us) → P l = λ P h. All-last P u us h.0 h.1 in
      let there : (l == null) ≡ false = ground (arith, pick (λ x. x ≢ null) named_u) in
      let (wq1, ran1, u1, a1) = Seg-set_prev wq null d null u us du u0 in
      let v1 = Seg-Assigned wq l null l (d ∷ ds) a1 (ne_each (u ∷ us) (d ∷ ds) l pick uv) v0 in
      let f1 = Seg-Assigned wq null p l (f ∷ fs) a1 (ne_each (u ∷ us) (f ∷ fs) l pick fu) free in
      let (wq2, wq3, wq4, ran2, ran3, ran4, u4, c4, times) =
        joined wq1 (u ∷ us) q.distinct distf apart u1 v1 f1 in
      let front : worker.io_seq ≡ last_or d ds = q.front ∙ last-append null d (u ∷ us) ds in
      let ran3' = relink wq2 wq3 set_prev (sym front) (sym end) ran3 in
      let ran4' = relink wq3 wq4 (λ l a b. set_next l b a) (sym front) (sym end) ran4 in
      rw (at, next, there, ran1, ran2, ran3', ran4')
        (returns (record {
          queue = record {
            chain = u4;
            front = refl;
            back = q.back;
            distinct = du;
            named = named_u;
          };
          chain = c4;
          free_end = refl;
          free_start = refl;
          times = λ j. times j ∙ a1.1 j;
        }))
