-- ===== src/Channel/Window.antt =====
-- What moving the head does: exactly the slots that time has passed get their credits back.
use nvme_virt.Prelude.{
  ℕ, ◌+◌, ◌-◌, ◌%◌, ◌≤◌, ◌<◌, ◌≡◌, ltb, if◌then◌else◌, u8, u32, sub32, min_of, ◌/◌, ◌^◌, refl,
  arith,
}
use nvme_virt.Channel.{
  ChannelModel, nr_credit_entries, cur_time_offs, refill, elapse, chmodel_init,
  bandwidth_to_max_credits, unit_time_interval,
}

-- The ring's bounds, some credits in a fresh slot, and no slot above them.
pub record IsValid (ch : ChannelModel) : Type 0 where
  pub head_in : ch.head < nr_credit_entries
  pub valid_in : ch.valid_len ≤ nr_credit_entries
  pub some_credits : 0 < ch.max_credits
  pub credits : (i : ℕ) → ch.avail_credits i ≤ u8 ch.max_credits

-- `i`'s distance from `head`, going forward round the ring
abbrev pub ahead : ℕ → ℕ → ℕ
ahead head i = (i + nr_credit_entries - head) % nr_credit_entries

-- `bandwidth` is enough for a credit in a slot.
abbrev pub HasCredits : ℕ → Type 0
HasCredits bandwidth = 0 < u32 (bandwidth_to_max_credits bandwidth)

pub chmodel_init-IsValid : (bandwidth : ℕ) → HasCredits bandwidth → IsValid (chmodel_init bandwidth)
unfolding chmodel_init
chmodel_init-IsValid bandwidth h = record {
  head_in = omega arith;
  valid_in = omega arith;
  some_credits = h;
  credits = λ i. omega arith;
}

pub cur_time_offs-le : (ch : ChannelModel) (now : ℕ) → cur_time_offs ch now ≤ ch.valid_len
unfolding cur_time_offs
cur_time_offs-le ch now = ground arith

refill_window :
    (ch : ChannelModel) (offs i : ℕ)
    → ch.head < nr_credit_entries
    → offs ≤ nr_credit_entries
    → i < nr_credit_entries
    → refill ch offs i
      ≡ (if ltb (ahead ch.head i) offs then u8 ch.max_credits else ch.avail_credits i)
unfolding refill
refill_window ch offs i h o b = ground arith

-- the slots that the clock passes from `past` to `now`
abbrev pub slots_passed : ℕ → ℕ → ℕ
slots_passed past now = now / unit_time_interval - past / unit_time_interval

cur_time_offs-passed :
    (ch : ChannelModel) (now : ℕ)
    → ch.cur_time ≤ now
    → slots_passed ch.cur_time now < 2 ^ 32
    → cur_time_offs ch now ≡ min_of (slots_passed ch.cur_time now) ch.valid_len
unfolding cur_time_offs
cur_time_offs-passed ch now h l =
    let passed : sub32 (now / unit_time_interval) (ch.cur_time / unit_time_interval)
        ≡ slots_passed ch.cur_time now =
      sub32_small (now / unit_time_interval) (ch.cur_time / unit_time_interval) (omega (arith, h))
        l in
    rw passed (ground arith)
  where
    sub32_small : (a b : ℕ) → b ≤ a → a - b < 2 ^ 32 → sub32 a b ≡ a - b
    sub32_small a b h l = omega (arith, h, l)

-- Where the clock has moved on, the head goes forward by the slots of time that have passed, but not
-- behind those in use, which are fewer by as many. Exactly the slots between the two positions of the
-- head hold the credits of a fresh slot again; the others are as they were. Conditions: the ring is
-- valid, the index lies in it, and the clock does not go back, nor on by 2 ^ 32 slots.
pub elapse_window :
    (ch : ChannelModel) (now i : ℕ)
    → IsValid ch
    → ch.cur_time ≤ now
    → slots_passed ch.cur_time now < 2 ^ 32
    → i < nr_credit_entries
    → let passed = min_of (slots_passed ch.cur_time now) ch.valid_len in
      ((elapse ch now).avail_credits i
        ≡ (if ltb (ahead ch.head i) passed then u8 ch.max_credits else ch.avail_credits i))
      × ((elapse ch now).head ≡ (ch.head + passed) % nr_credit_entries)
      × ((elapse ch now).valid_len ≡ ch.valid_len - passed)
      × ((elapse ch now).cur_time ≡ now)
unfolding elapse
elapse_window ch now i v h l b =
    let offs = cur_time_offs ch now in
    let le : offs ≤ nr_credit_entries = omega (arith, cur_time_offs-le ch now, v.valid_in) in
    rw (← cur_time_offs-passed ch now h l) (
      refill_window ch offs i v.head_in le b,
      omega (arith, le, v.head_in),
      omega (arith, cur_time_offs-le ch now, v.valid_in),
      refl,
    )

refill-le : (ch : ChannelModel) (offs i : ℕ) → IsValid ch → refill ch offs i ≤ u8 ch.max_credits
unfolding refill
refill-le ch offs i v = ground (arith, v.credits i)

pub elapse-IsValid : (ch : ChannelModel) (now : ℕ) → IsValid ch → IsValid (elapse ch now)
unfolding elapse
elapse-IsValid ch now v = record {
  head_in = omega arith;
  valid_in = omega (arith, cur_time_offs-le ch now, v.valid_in);
  some_credits = v.some_credits;
  credits = λ i. refill-le ch (cur_time_offs ch now) i v;
}
