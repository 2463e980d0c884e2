-- ===== src/Worker/Queue/Sorted.antt =====
-- `__insert_req_sorted` against insertion in a list.
use nvme_virt.Prelude.{
  ℕ, zero, suc, ◌+◌, ◌≡◌, ◌≢◌, ◌≤◌, inl, inr, refl, ap, ◌∙◌, List, [], ◌∷◌, ◌++◌, Bool, true, false,
  Option, some, ◌==◌, ◌||◌, leb, if◌then◌else◌, length, arith, Bool-cases, if_elim, max_of,
}
use nvme_virt.Worker.State.{Work, Worker, null}
use nvme_virt.Worker.Queue.{find_place}
use nvme_virt.Worker.Queue.Chain.{All, Distinct, head_or, last_or, target_in, Seg, target_of}

-- A request with this target stays in front of a new one.
abbrev pub stays : ℕ → ℕ → ℕ → Bool
stays latest target u = leb u latest || leb u target

-- The queue from its last request to its first, with a new one put in.
unfoldable pub insert_sorted : (ℕ → ℕ) → ℕ → ℕ → ℕ → List ℕ → List ℕ
insert_sorted time latest target e [] = e ∷ []
insert_sorted time latest target e (x ∷ xs) =
    let rest = insert_sorted time latest target e xs in
    if stays latest target (time x) then e ∷ x ∷ xs else x ∷ rest

-- `xs` are the requests of the worker, the last first.
pub record IsQueue (worker : Worker) (xs : List ℕ) : Type 0 where
  pub chain : Seg worker.work_queue null xs null
  pub front : worker.io_seq ≡ last_or null xs
  pub back : head_or worker.io_seq_end xs ≡ worker.io_seq_end
  pub distinct : Distinct xs
  pub named : All (λ x. x ≢ null) xs

-- Where the walk ends, and what it leaves behind it.
abbrev pub Split : (ℕ → ℕ) → ℕ → ℕ → ℕ → List ℕ → Option ℕ → Type 0
Split time latest target e xs found =
    (us : List ℕ) × (vs : List ℕ) × (xs ≡ us ++ vs)
    × (insert_sorted time latest target e xs ≡ us ++ e ∷ vs)
    × (found ≡ some (head_or null vs))

module _ (time : ℕ → ℕ) (latest target e : ℕ) where
  insert_sorted-stays :
      (x : ℕ) (xs : List ℕ)
      → stays latest target (time x) ≡ true
      → insert_sorted time latest target e (x ∷ xs) ≡ e ∷ x ∷ xs
  unfolding insert_sorted
  insert_sorted-stays x xs h = rw h refl

  insert_sorted-later :
      (x : ℕ) (xs : List ℕ)
      → stays latest target (time x) ≡ false
      → insert_sorted time latest target e (x ∷ xs) ≡ x ∷ insert_sorted time latest target e xs
  unfolding insert_sorted
  insert_sorted-later x xs h = rw h refl

module _ (wq : List Work) (latest target e : ℕ) where
  pub find_place-Split :
      (fuel n : ℕ) (xs : List ℕ)
      → length xs ≤ fuel
      → All (λ x. x ≢ null) xs
      → Seg wq n xs null
      → Split (target_of wq) latest target e xs (find_place fuel wq latest target (head_or null xs))
  unfolding find_place insert_sorted
  find_place-Split zero n [] h a s = ([], [], refl, refl, refl)
  find_place-Split zero n (x ∷ xs) h a s = absurd (omega arith)
  find_place-Split (suc fuel) n [] h a s = ([], [], refl, refl, refl)
  find_place-Split (suc fuel) n (x ∷ xs) h a ((w, at, next, prev), s) =
      let (us, vs, split, put, found) = find_place-Split fuel x xs (omega arith) a.1 s in
      let named : (x == null) ≡ false = ground (arith, a.0) in
      let t : target_of wq x ≡ w.nsecs_target = ap target_in at in
      elim (Bool-cases (stays latest target w.nsecs_target)) [
        | inl q ↦
            let now = insert_sorted-stays (target_of wq) latest target e x xs (rw t q) in
            ([], x ∷ xs, refl, now, rw (named, at, q) refl)
        | inr q ↦
            let on = insert_sorted-later (target_of wq) latest target e x xs (rw t q) in
            (
              x ∷ us,
              vs,
              ap (λ l. x ∷ l) split,
              on ∙ ap (λ l. x ∷ l) put,
              rw (named, at, q, prev) found,
            )
      ]

-- No request waits behind a later one, but for the requests that are due.
abbrev pub Ordered : (ℕ → ℕ) → ℕ → List ℕ → Type 0
Ordered time latest [] = Unit
Ordered time latest (x ∷ xs) =
    All (λ y. time y ≤ max_of (time x) latest) xs × Ordered time latest xs

module _ (time : ℕ → ℕ) (latest target e : ℕ) (at : time e ≡ target) where
  later :
      (x : ℕ) (xs : List ℕ)
      → stays latest target (time x) ≡ true
      → All (λ y. time y ≤ max_of (time x) latest) xs
      → All (λ y. time y ≤ max_of (time e) latest) xs
  later x [] h a = tt
  later x (y ∷ xs) h a = (ground (arith, h, a.0, at), later x xs h a.1)

  pub length-insert_sorted :
      (xs : List ℕ) → length (insert_sorted time latest target e xs) ≡ length xs + 1
  unfolding insert_sorted
  length-insert_sorted [] = refl
  length-insert_sorted (x ∷ xs) =
      if_elim (λ (l : List ℕ). length l ≡ length (x ∷ xs) + 1) (stays latest target (time x))
        (λ h. omega arith) (λ h. omega (arith, length-insert_sorted xs))

  pub insert_sorted-All :
      (P : ℕ → Type 0) (xs : List ℕ)
      → P e
      → All P xs
      → All P (insert_sorted time latest target e xs)
  unfolding insert_sorted
  insert_sorted-All P [] p a = (p, tt)
  insert_sorted-All P (x ∷ xs) p a =
      if_elim (All P) (stays latest target (time x)) (λ _. (p, a))
        λ _. (a.0, insert_sorted-All P xs p a.1)

  pub insert_sorted-Ordered :
      (xs : List ℕ)
      → Ordered time latest xs
      → Ordered time latest (insert_sorted time latest target e xs)
  unfolding insert_sorted
  insert_sorted-Ordered [] o = (tt, tt)
  insert_sorted-Ordered (x ∷ xs) o =
      if_elim (Ordered time latest) (stays latest target (time x))
        (λ h. ((ground (arith, h, at), later x xs h o.0), o))
        (λ h. (insert_sorted-All _ xs (ground (arith, h, at)) o.0, insert_sorted-Ordered xs o.1))
