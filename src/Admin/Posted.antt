-- ===== src/Admin/Posted.antt =====
-- The completion queue of the admin queue as a ring, and what posting completions does to it.
use nvme_virt.Prelude.{
  ℕ, zero, suc, ◌+◌, ◌-◌, ◌*◌, ◌%◌, ◌≤◌, ◌<◌, ◌≡◌, inl, inr, refl, ◌∙◌, ap, ◌==◌, ==_iff,
  if◌then◌else◌, length, length-set, get_elem?, get_elem?-set_self, get_elem?-set_ne, List, [], ◌∷◌,
  ◌++◌, some, ◌≢◌, ◌^◌, Bool-cases, arith, subst, sym,
}
use native.Mathlib.Nat.{mod-add-mod}
use nvme_virt.Worker.Doorbell.{Completion}
use nvme_virt.Admin.State.{AdminQueue}
use nvme_virt.Admin.Queues.{post_result}

-- The head and the phase of the completion queue, as one count over two rounds.
abbrev pub ticket : AdminQueue → ℕ
ticket q = q.cq_head + q.cq_depth * q.phase

pub record IsRing (q : AdminQueue) : Type 0 where
  pub head : q.cq_head < q.cq_depth
  pub turn : q.phase ≤ 1
  pub room : length q.nvme_cq ≡ q.cq_depth
  pub entries : length q.nvme_sq ≡ q.sq_depth

-- `n` completions were posted, and nothing else of the admin queue is changed.
pub record Posted (n : ℕ) (q q' : AdminQueue) : Type 0 where
  pub ring : IsRing q'
  pub same_sq : q'.nvme_sq ≡ q.nvme_sq
  pub same_depth : q'.cq_depth ≡ q.cq_depth
  pub same_sq_depth : q'.sq_depth ≡ q.sq_depth
  pub counted : ticket q' ≡ (ticket q + n) % (2 * q.cq_depth)

-- The completion of the entry `eid` stands at the old head: it names the command and the entry, its
-- phase bit is the phase, and the other completions are as before.
pub record Answer (eid command_id : ℕ) (q q' : AdminQueue) : Type 0 where
  pub completion : Completion
  pub entry : get_elem? q'.nvme_cq q.cq_head ≡ some completion
  pub command : completion.command_id ≡ command_id
  pub sq_head : completion.sq_head ≡ eid % 2 ^ 16
  pub phase_bit : completion.status % 2 ≡ q.phase
  pub others : (i : ℕ) → q.cq_head ≢ i → get_elem? q'.nvme_cq i ≡ get_elem? q.nvme_cq i
  pub posted : Posted 1 q q'

-- Each of these entries, with the identifier of its command, was answered, in this order.
pub data AllAnswered : List (ℕ × ℕ) → AdminQueue → AdminQueue → Type 0 where
  all_answered : {q : AdminQueue} → AllAnswered [] q q
  answered :
      {eid command_id : ℕ} {rest : List (ℕ × ℕ)} {q q' q'' : AdminQueue}
      → Answer eid command_id q q'
      → AllAnswered rest q' q''
      → AllAnswered ((eid, command_id) ∷ rest) q q''

-- `commands` were answered, and nothing else of the admin queue is changed.
abbrev pub Completes : List (ℕ × ℕ) → AdminQueue → AdminQueue → Type 0
Completes commands q q' = Posted (length commands) q q' × AllAnswered commands q q'

advance :
    (phase head size : ℕ)
    → head < size
    → phase ≤ 1
    → (if head + 1 == size then 0 else head + 1)
        + size * (if head + 1 == size then 1 - phase else phase)
      ≡ (if head + size * phase + 1 == 2 * size then 0 else head + size * phase + 1)
advance zero head size h p = ground arith
advance (suc zero) head size h p = ground arith
advance (suc (suc n)) head size h p = absurd (omega arith)

around : (t m : ℕ) → t < m → (if t + 1 == m then 0 else t + 1) ≡ (t + 1) % m
around t m h = elim (Bool-cases (t + 1 == m)) [
  | inl e ↦ rw e (wraps t m ((==_iff (t + 1) m).0 e) h)
  | inr e ↦ rw e (stays t m (ground (arith, e, h)))
]
  where
    wraps : (t m : ℕ) → t + 1 ≡ m → t < m → 0 ≡ (t + 1) % m
    wraps t m e h = grind arith

    stays : (t m : ℕ) → t + 1 < m → t + 1 ≡ (t + 1) % m
    stays t m h = grind arith

round_of : (phase head size : ℕ) → head < size → phase ≤ 1 → head + size * phase < 2 * size
round_of zero head size h p = omega arith
round_of (suc zero) head size h p = omega arith
round_of (suc (suc n)) head size h p = absurd (omega arith)

pub post_result-Posted :
    (q : AdminQueue) (command_id eid ret result0 result1 : ℕ)
    → IsRing q
    → Posted 1 q (post_result q command_id eid ret result0 result1)
unfolding post_result
post_result-Posted q command_id eid ret result0 result1 r = record {
  ring = record {
    head = ground (arith, r.head);
    turn = ground (arith, r.turn);
    room = length-set q.nvme_cq q.cq_head _ ∙ r.room;
    entries = r.entries;
  };
  same_sq = refl;
  same_depth = refl;
  same_sq_depth = refl;
  counted =
      advance q.phase q.cq_head q.cq_depth r.head r.turn
      ∙ around (ticket q) (2 * q.cq_depth) (round_of q.phase q.cq_head q.cq_depth r.head r.turn);
}

pub Posted-none : (q : AdminQueue) → IsRing q → Posted 0 q q
Posted-none q r = record {
  ring = r;
  same_sq = refl;
  same_depth = refl;
  same_sq_depth = refl;
  counted = below (ticket q) (2 * q.cq_depth) (round_of q.phase q.cq_head q.cq_depth r.head r.turn);
}
  where
    below : (t m : ℕ) → t < m → t ≡ (t + 0) % m
    below t m h = grind arith

pub Posted-trans :
    (k n : ℕ) (q q' q'' : AdminQueue)
    → 0 < q.cq_depth
    → Posted k q q'
    → Posted n q' q''
    → Posted (k + n) q q''
Posted-trans k n q q' q'' pos a b = record {
  ring = b.ring;
  same_sq = b.same_sq ∙ a.same_sq;
  same_depth = b.same_depth ∙ a.same_depth;
  same_sq_depth = b.same_sq_depth ∙ a.same_sq_depth;
  counted =
      b.counted
      ∙ ap (λ m. (ticket q' + n) % (2 * m)) a.same_depth
      ∙ ap (λ t. (t + n) % (2 * q.cq_depth)) a.counted
      ∙ together (ticket q) k n (2 * q.cq_depth);
}
  where
    together : (t k n m : ℕ) → ((t + k) % m + n) % m ≡ (t + (k + n)) % m
    together t k n m =
        let sum : t + k + n ≡ t + (k + n) = omega arith in
        mod-add-mod (t + k) m n ∙ ap (λ x. x % m) sum

post_result-Answer :
    (q : AdminQueue) (command_id eid ret result0 result1 : ℕ)
    → IsRing q
    → Posted 1 q (post_result q command_id eid ret result0 result1)
    → Answer eid command_id q (post_result q command_id eid ret result0 result1)
unfolding post_result
post_result-Answer q command_id eid ret result0 result1 r one = record {
  completion = record {
    command_id = command_id;
    sq_id = 0;
    sq_head = eid % 2 ^ 16;
    status = q.phase + 2 * ret;
    result0 = result0;
    result1 = result1;
  };
  entry = get_elem?-set_self q.nvme_cq q.cq_head _ (omega (arith, r.room, r.head));
  command = refl;
  sq_head = refl;
  phase_bit = omega (arith, r.turn);
  others = λ i n. get_elem?-set_ne q.nvme_cq q.cq_head i _ n;
  posted = one;
}

pub post_result-Completes :
    (q : AdminQueue) (command_id eid ret result0 result1 : ℕ)
    → IsRing q
    → Completes ((eid, command_id) ∷ []) q (post_result q command_id eid ret result0 result1)
post_result-Completes q command_id eid ret result0 result1 r =
    let one = post_result-Posted q command_id eid ret result0 result1 r in
    (one, answered (post_result-Answer q command_id eid ret result0 result1 r one) all_answered)

AllAnswered-append :
    {k n : List (ℕ × ℕ)} {q q' q'' : AdminQueue}
    → AllAnswered k q q'
    → AllAnswered n q' q''
    → AllAnswered (k ++ n) q q''
AllAnswered-append all_answered b = b
AllAnswered-append (answered x a) b = answered x (AllAnswered-append a b)

length-append : (k n : List (ℕ × ℕ)) → length (k ++ n) ≡ length k + length n
length-append [] n = omega arith
length-append (x ∷ k) n = omega (arith, length-append k n)

pub Completes-trans :
    (k n : List (ℕ × ℕ)) (q q' q'' : AdminQueue)
    → 0 < q.cq_depth
    → Completes k q q'
    → Completes n q' q''
    → Completes (k ++ n) q q''
Completes-trans k n q q' q'' pos a b = (
  subst (λ m. Posted m q q'') (sym (length-append k n))
      (Posted-trans (length k) (length n) q q' q'' pos a.0 b.0),
  AllAnswered-append a.1 b.1,
)
