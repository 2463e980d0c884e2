-- ===== src/Channel.antt =====
-- channel_model.c and channel_model.h: a ring of time slots, each with the credits that are left
-- to transfer data in it. `__get_wallclock` is the argument `now` of a request. The array
-- `avail_credits` is a function of the index.
pub mod Window
pub mod Spend
pub mod Request
use nvme_virt.Prelude.{
  ℕ, zero, suc, ◌+◌, ◌-◌, ◌*◌, ◌/◌, ◌%◌, ◌^◌, Option, none, some, ltb, leb, ◌==◌, ◌&&◌,
  if◌then◌else◌, u8, u32, u64, sub32, div_round_up, ◌>>=◌, ◌>>◌, assert, not,
}

abbrev pub nr_credit_entries : ℕ
nr_credit_entries = 1024 * 96

-- nanoseconds in a slot
abbrev pub unit_time_interval : ℕ
unit_time_interval = 4000

-- bytes moved by one credit
abbrev pub unit_xfer_size : ℕ
unit_xfer_size = 128

abbrev pub unit_xfer_credits : ℕ
unit_xfer_credits = 1

abbrev pub ns_per_sec : ℕ
ns_per_sec = 1000000000

-- `MB(m)`, in 64 bits
abbrev pub mb : ℕ → ℕ
mb m = u64 (m * 2 ^ 20)

abbrev pub bandwidth_to_tx_time : ℕ → ℕ
bandwidth_to_tx_time mb_s = unit_xfer_size * ns_per_sec / mb mb_s

abbrev pub bandwidth_to_max_credits : ℕ → ℕ
bandwidth_to_max_credits mb_s =
    u64 (mb mb_s * unit_time_interval) / ns_per_sec / unit_xfer_size * unit_xfer_credits

pub record ChannelModel : Type 0 where
  pub cur_time : ℕ
  pub head : ℕ
  pub valid_len : ℕ
  pub max_credits : ℕ
  pub command_credits : ℕ
  pub xfer_lat : ℕ
  pub avail_credits : ℕ → ℕ

-- `MEMSET(&a[start], v, n)` on an array of bytes
abbrev pub memset : (ℕ → ℕ) → ℕ → ℕ → ℕ → ℕ → ℕ
memset a start v n i = if leb start i && ltb i (start + n) then u8 v else a i

abbrev pub update : (ℕ → ℕ) → ℕ → ℕ → ℕ → ℕ
update a i v j = if i == j then v else a j

pub chmodel_init : ℕ → ChannelModel
chmodel_init bandwidth =
    let credits = u32 (bandwidth_to_max_credits bandwidth) in
    record {
      cur_time = 0;
      head = 0;
      valid_len = 0;
      max_credits = credits;
      command_credits = 0;
      xfer_lat = u32 (bandwidth_to_tx_time bandwidth);
      avail_credits = λ i. u8 credits;
    }

-- The slots that `now` has passed, at most those in use.
pub cur_time_offs : ChannelModel → ℕ → ℕ
cur_time_offs ch now =
    let passed = sub32 (now / unit_time_interval) (ch.cur_time / unit_time_interval) in
    if ltb passed ch.valid_len then passed else ch.valid_len

-- Refill the slots from `head` on, round the end of the array.
pub refill : ChannelModel → ℕ → ℕ → ℕ
refill ch offs =
    if leb nr_credit_entries (u32 (ch.head + offs))
    then (let to_end = nr_credit_entries - ch.head in
        memset (memset ch.avail_credits ch.head ch.max_credits to_end) 0 ch.max_credits
          (offs - to_end))
    else memset ch.avail_credits ch.head ch.max_credits offs

-- "Search current time index and move head to it"
pub elapse : ChannelModel → ℕ → ChannelModel
unfolding cur_time_offs refill
elapse ch now =
    let offs = cur_time_offs ch now in
    record ch {
      head = u32 (ch.head + offs) % nr_credit_entries;
      cur_time = now;
      valid_len = sub32 ch.valid_len offs;
      avail_credits = refill ch offs;
    }

-- The variables of the loop that takes credits.
pub record Spent : Type 0 where
  pub avail : ℕ → ℕ
  pub pos : ℕ
  pub left : ℕ
  pub delay : ℕ

abbrev pub consumed_credits : Spent → ℕ
consumed_credits s = if leb s.left (s.avail s.pos) then s.left else s.avail s.pos

abbrev pub take_credits : Spent → Spent
take_credits s =
    let consumed = consumed_credits s in
    record s { avail = update s.avail s.pos (s.avail s.pos - consumed); left = s.left - consumed }

-- `while (1)`, which ends when nothing remains or when the next slot is `head`.
pub spend : ℕ → ℕ → Spent → Option Spent
spend zero head s = none
spend (suc fuel) head s =
    let t = take_credits s in
    let next_pos = (t.pos + 1) % nr_credit_entries in
    let rest = spend fuel head (record t { pos = next_pos; delay = t.delay + 1 }) in
    if t.left == 0 then some t else if next_pos == head then some t else rest

-- The slots in use up to the one where the loop ended.
abbrev pub valid_length : ℕ → ℕ → ℕ
valid_length head pos =
    if leb head pos then pos - head + 1 else nr_credit_entries - (head - pos - 1)

abbrev pub units_to_xfer : ℕ → ℕ
units_to_xfer length = u32 (div_round_up length unit_xfer_size)

abbrev pub requested_credits : ChannelModel → ℕ → ℕ
requested_credits ch length =
    u32 (u32 (units_to_xfer length * unit_xfer_credits) + ch.command_credits)

-- The variables at the start of the loop; `offs` is `request_time_offs`.
abbrev pub first_slot : ChannelModel → ℕ → ℕ → Spent
first_slot ch length offs = record {
  avail = ch.avail_credits;
  pos = u32 (ch.head + offs) % nr_credit_entries;
  left = requested_credits ch length;
  delay = 0;
}

-- What follows the loop.
pub answer : ChannelModel → ℕ → ℕ → Spent → ℕ × ChannelModel
answer ch request_time length s =
    let default_delay = requested_credits ch length / ch.max_credits in
    let used = valid_length ch.head s.pos in
    let delay = if ltb default_delay s.delay then s.delay - default_delay else 0 in
    let total_latency = u32 (ch.xfer_lat * units_to_xfer length) + delay * unit_time_interval in
    (
      u64 (request_time + total_latency),
      record ch {
        valid_len = if ltb ch.valid_len used then used else ch.valid_len;
        avail_credits = s.avail;
      },
    )

-- `chmodel_request` behind its two early returns. `none` is fuel that ran out, or the division by no
-- credits.
pub schedule : ChannelModel → ℕ → ℕ → ℕ → Option (ℕ × ChannelModel)
unfolding spend answer
schedule ch request_time length offs = do
  assert (not (ch.max_credits == 0))
  s ← spend nr_credit_entries ch.head (first_slot ch length offs)
  some (answer ch request_time length s)

-- `none` is the `NVMEV_ASSERT(0)` on an invalid `valid_len`, or a fault of `schedule`.
pub chmodel_request : ℕ → ChannelModel → ℕ → ℕ → Option (ℕ × ChannelModel)
unfolding elapse schedule
chmodel_request now ch request_time length =
    let ch' = elapse ch now in
    let offs = sub32 (request_time / unit_time_interval) (now / unit_time_interval) in
    if ltb nr_credit_entries ch'.valid_len
    then none
    else if ltb request_time now
    then some (request_time, ch')
    else if leb nr_credit_entries offs
    then some (request_time, ch')
    else schedule ch' request_time length offs
