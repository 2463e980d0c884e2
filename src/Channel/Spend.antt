-- ===== src/Channel/Spend.antt =====
-- The loop that takes credits: it ends, it stays inside the ring, and it neither makes nor loses
-- a credit.
use nvme_virt.Prelude.{
  ℕ, zero, suc, ◌+◌, ◌-◌, ◌%◌, ◌≤◌, ◌<◌, ◌≡◌, ◌≢◌, ◌⊎◌, refl, leb, ◌==◌, if◌then◌else◌, arith,
  Bool-cases, inl, inr, Returns, returns, Returns-mono, Returns-if, ==_iff,
}
use nvme_virt.Channel.{nr_credit_entries, Spent, update, take_credits, consumed_credits, spend}

pub total : ℕ → (ℕ → ℕ) → ℕ
total zero a = 0
total (suc n) a = total n a + a n

total-update_of_le : (n : ℕ) (a : ℕ → ℕ) (i v : ℕ) → n ≤ i → total n (update a i v) ≡ total n a
unfolding total
total-update_of_le zero a i v h = refl
total-update_of_le (suc n) a i v h = ground (arith, total-update_of_le n a i v)

total-update : (n : ℕ) (a : ℕ → ℕ) (i v : ℕ) → i < n → total n (update a i v) + a i ≡ total n a + v
unfolding total
total-update zero a i v h = absurd (omega arith)
total-update (suc n) a i v h = elim (Bool-cases (i == n)) [
  | inl e ↦ ground (arith, total-update_of_le n a i v)
  | inr e ↦ ground (arith, total-update n a i v)
]

-- rounds left until the slot before `head`
abbrev pub rounds_left : ℕ → ℕ → ℕ
rounds_left head pos = if leb head pos then head + nr_credit_entries - 1 - pos else head - 1 - pos

take-total :
    (s : Spent)
    → s.pos < nr_credit_entries
    → total nr_credit_entries s.avail + (take_credits s).left
      ≡ total nr_credit_entries (take_credits s).avail + s.left
take-total s h =
    ground
      (arith, total-update nr_credit_entries s.avail s.pos (s.avail s.pos - consumed_credits s))

take-fewer : (s : Spent) (i : ℕ) → (take_credits s).avail i ≤ s.avail i
take-fewer s i = ground arith

-- What the loop does from `s` to `t`: it stays in the ring, credits only move from the slots to the
-- request, and it ends with nothing left or at the slot before `head`.
pub record Ends (head : ℕ) (s t : Spent) : Type 0 where
  pub pos_in : t.pos < nr_credit_entries
  pub kept : total nr_credit_entries s.avail + t.left ≡ total nr_credit_entries t.avail + s.left
  pub fewer : (i : ℕ) → t.avail i ≤ s.avail i
  pub forward : s.delay ≤ t.delay
  pub slow : t.delay ≤ s.delay + rounds_left head s.pos
  pub finished : (t.left ≡ 0) ⊎ ((t.pos + 1) % nr_credit_entries ≡ head)

abbrev next : Spent → Spent
next s = record (take_credits s) { pos = (s.pos + 1) % nr_credit_entries; delay = s.delay + 1 }

take-Ends :
    (head : ℕ) (s : Spent)
    → s.pos < nr_credit_entries
    → ((take_credits s).left ≡ 0) ⊎ ((s.pos + 1) % nr_credit_entries ≡ head)
    → Ends head s (take_credits s)
take-Ends head s p e = record {
  pos_in = p;
  kept = take-total s p;
  fewer = take-fewer s;
  forward = omega arith;
  slow = omega arith;
  finished = e;
}

next-Ends :
    (head : ℕ) (s t : Spent)
    → s.pos < nr_credit_entries
    → head < nr_credit_entries
    → (s.pos + 1) % nr_credit_entries ≢ head
    → Ends head (next s) t
    → Ends head s t
next-Ends head s t p h n e = record {
  pos_in = e.pos_in;
  kept = omega (arith, take-total s p, e.kept);
  fewer = λ i. omega (arith, take-fewer s i, e.fewer i);
  forward = omega (arith, e.forward);
  slow = ground (arith, e.slow);
  finished = e.finished;
}

-- The loop that takes credits ends within the rounds that the ring allows, for any fuel above them:
-- credits only move from the slots to the request, and it stops with nothing left or at the slot
-- before the head. Condition: it starts inside the ring.
pub spend-Ends :
    (fuel head : ℕ) (s : Spent)
    → head < nr_credit_entries
    → s.pos < nr_credit_entries
    → rounds_left head s.pos < fuel
    → Returns (Ends head s) (spend fuel head s)
unfolding spend
spend-Ends zero head s h p f = absurd (omega arith)
spend-Ends (suc fuel) head s h p f =
    Returns-if ((take_credits s).left == 0)
      (λ e. returns (take-Ends head s p (inl ((==_iff _ 0).0 e))))
      (λ _.
        Returns-if ((s.pos + 1) % nr_credit_entries == head)
          (λ e. returns (take-Ends head s p (inr ((==_iff _ head).0 e))))
          (λ n.
            Returns-mono (spend-Ends fuel head (next s) h (omega arith) (ground arith))
              λ t e. next-Ends head s t p h (ground arith) e))
