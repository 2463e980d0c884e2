-- ===== src/Worker/Queue/Links.antt =====
-- The three ways in which an entry is linked into a chain.
use nvme_virt.Prelude.{ℕ, ◌≡◌, ◌≢◌, refl, sym, ◌∙◌, List, [], ◌∷◌, ◌++◌, Option, some}
use nvme_virt.Worker.State.{Work, Worker, null}
use nvme_virt.Worker.Queue.{insert_head, insert_tail, insert_between}
use nvme_virt.Worker.Queue.Chain.{
  All, Distinct, head_or, last_or, Seg, Seg-append, Seg-join, Seg-Assigned, Seg-set_next,
  Seg-set_prev, target_of, All-last, All-append, Distinct-append,
}

-- the links that a worker's queue gets, with the times of all entries as before
pub record Relinked (worker : Worker) (xs : List ℕ) (after : Option Worker) : Type 0 where
  pub wq : List Work
  pub io_seq : ℕ
  pub io_seq_end : ℕ
  pub is :
      after ≡ some (record worker { work_queue = wq; io_seq = io_seq; io_seq_end = io_seq_end })
  pub chain : Seg wq null xs null
  pub front : io_seq ≡ last_or null xs
  pub back : head_or io_seq_end xs ≡ io_seq_end
  pub times : (j : ℕ) → target_of wq j ≡ target_of worker.work_queue j

pub flip_ne : (x : ℕ) (xs : List ℕ) → All (λ y. y ≢ x) xs → All (λ y. x ≢ y) xs
flip_ne x [] h = tt
flip_ne x (y ∷ xs) h = ((λ q. h.0 (sym q)), flip_ne x xs h.1)

pub last-append : (d e : ℕ) (us vs : List ℕ) → last_or d (us ++ e ∷ vs) ≡ last_or e vs
last-append d e [] vs = refl
last-append d e (u ∷ us) vs = last-append u e us vs

module _ (worker : Worker) (e : ℕ) (fresh : Seg worker.work_queue null (e ∷ []) null) where
  pub insert_head-Relinked :
      (u : ℕ) (us : List ℕ)
      → Distinct (u ∷ us)
      → All (λ x. x ≢ e) (u ∷ us)
      → Seg worker.work_queue null (u ∷ us) null
      → worker.io_seq ≡ last_or u us
      → worker.io_seq_end ≡ u
      → Relinked worker ((u ∷ us) ++ e ∷ []) (insert_head worker e)
  unfolding insert_head
  insert_head-Relinked u us d out s front back =
      let wq = worker.work_queue in
      let l = last_or u us in
      let apart : l ≢ e = All-last (λ x. x ≢ e) u us out.0 out.1 in
      let (wq1, ran1, u1, a1) = Seg-set_prev wq null null e u us d s in
      let e1 = Seg-Assigned wq null null l (e ∷ []) a1 ((λ q. apart (sym q)), tt) fresh in
      let (wq2, ran2, e2, a2) = Seg-set_next wq1 null l null e [] (tt, tt) e1 in
      let u2 = Seg-Assigned wq1 null e e (u ∷ us) a2 out u1 in
      record {
        wq = wq2;
        io_seq = e;
        io_seq_end = worker.io_seq_end;
        is = rw (front, ran1, ran2) refl;
        chain = Seg-join wq2 null null (u ∷ us) (e ∷ []) u2 e2;
        front = sym (last-append null e (u ∷ us) []);
        back = sym back;
        times = λ j. a2.1 j ∙ a1.1 j;
      }

  pub insert_tail-Relinked :
      (c : ℕ) (vs : List ℕ)
      → Distinct (c ∷ vs)
      → All (λ x. x ≢ e) (c ∷ vs)
      → Seg worker.work_queue null (c ∷ vs) null
      → worker.io_seq ≡ last_or c vs
      → Relinked worker (e ∷ c ∷ vs) (insert_tail worker e c)
  unfolding insert_tail
  insert_tail-Relinked c vs d out s front =
      let wq = worker.work_queue in
      let (wq1, ran1, e1, a1) = Seg-set_prev wq null null c e [] (tt, tt) fresh in
      let v1 = Seg-Assigned wq null null e (c ∷ vs) a1 out s in
      let (wq2, ran2, v2, a2) = Seg-set_next wq1 null e null c vs d v1 in
      let e2 = Seg-Assigned wq1 null c c (e ∷ []) a2 ((λ q. out.0 (sym q)), tt) e1 in
      record {
        wq = wq2;
        io_seq = worker.io_seq;
        io_seq_end = e;
        is = rw (ran1, ran2) refl;
        chain = (e2.0, v2);
        front = front;
        back = refl;
        times = λ j. a2.1 j ∙ a1.1 j;
      }

  pub insert_between-Relinked :
      (u c : ℕ) (us vs : List ℕ)
      → Distinct ((u ∷ us) ++ c ∷ vs)
      → All (λ x. x ≢ e) ((u ∷ us) ++ c ∷ vs)
      → Seg worker.work_queue null ((u ∷ us) ++ c ∷ vs) null
      → worker.io_seq ≡ last_or c vs
      → worker.io_seq_end ≡ u
      → Relinked worker ((u ∷ us) ++ e ∷ c ∷ vs) (insert_between worker e c (last_or u us))
  unfolding insert_between
  insert_between-Relinked u c us vs d out s front back =
      let wq = worker.work_queue in
      let l = last_or u us in
      let (du, dv, apart) = Distinct-append (u ∷ us) (c ∷ vs) d in
      let (out_u, out_v) = All-append (λ x. x ≢ e) (u ∷ us) (c ∷ vs) out in
      let (u0, v0) = Seg-append wq null null (u ∷ us) (c ∷ vs) s in
      let l_e : l ≢ e = All-last (λ x. x ≢ e) u us out_u.0 out_u.1 in
      let (wq1, ran1, e1, a1) = Seg-set_prev wq null null c e [] (tt, tt) fresh in
      let u1 = Seg-Assigned wq null c e (u ∷ us) a1 out_u u0 in
      let v1 = Seg-Assigned wq l null e (c ∷ vs) a1 out_v v0 in
      let (wq2, ran2, e2, a2) = Seg-set_next wq1 null l c e [] (tt, tt) e1 in
      let u2 = Seg-Assigned wq1 null c e (u ∷ us) a2 out_u u1 in
      let v2 = Seg-Assigned wq1 l null e (c ∷ vs) a2 out_v v1 in
      let (wq3, ran3, u3, a3) = Seg-set_prev wq2 null c e u us du u2 in
      let e3 = Seg-Assigned wq2 l c l (e ∷ []) a3 ((λ q. l_e (sym q)), tt) e2 in
      let v3 = Seg-Assigned wq2 l null l (c ∷ vs) a3 (ends u us (c ∷ vs) apart) v2 in
      let (wq4, ran4, v4, a4) = Seg-set_next wq3 l e null c vs dv v3 in
      let e4 = Seg-Assigned wq3 l c c (e ∷ []) a4 ((λ q. out_v.0 (sym q)), tt) e3 in
      let u4 = Seg-Assigned wq3 null e c (u ∷ us) a4 apart.0 u3 in
      record {
        wq = wq4;
        io_seq = worker.io_seq;
        io_seq_end = worker.io_seq_end;
        is = rw (ran1, ran2, ran3, ran4) refl;
        chain = Seg-join wq4 null null (u ∷ us) (e ∷ c ∷ vs) u4 (e4.0, v4);
        front = front ∙ sym (last-append null e (u ∷ us) (c ∷ vs));
        back = sym back;
        times = λ j. a4.1 j ∙ a3.1 j ∙ a2.1 j ∙ a1.1 j;
      }
    where
      ends :
          (u : ℕ) (us vs : List ℕ)
          → All (λ b. All (λ a. a ≢ b) (u ∷ us)) vs
          → All (λ b. b ≢ last_or u us) vs
      ends u us [] h = tt
      ends u us (b ∷ vs) h =
          ((λ q. All-last (λ a. a ≢ b) u us h.0.0 h.0.1 (sym q)), ends u us vs h.1)
