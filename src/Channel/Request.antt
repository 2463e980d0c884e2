-- ===== src/Channel/Request.antt =====
-- A whole request: it never trips the assertion, keeps the ring valid, and is answered with a time
-- no earlier than the one asked for and less than `max_latency` later.
use nvme_virt.Prelude.{
  ℕ, ◌+◌, ◌/◌, ◌^◌, ◌≤◌, ◌<◌, ◌≡◌, refl, ◌∙◌, ltb, leb, arith, sub32, Returns, returns,
  Returns-mono, Returns-bind, Returns-if, Returns-assert, not, ◌==◌, true,
}
use nvme_virt.Channel.{
  ChannelModel, nr_credit_entries, unit_time_interval, Spent, valid_length, first_slot, answer,
  elapse, schedule, chmodel_request,
}
use nvme_virt.Channel.Window.{IsValid, elapse-IsValid}
use nvme_virt.Channel.Spend.{Ends, spend-Ends}

abbrev pub max_latency : ℕ
max_latency = 2 ^ 33

-- What a request asked for at `t` leads to.
pub record Answered (ch : ChannelModel) (t : ℕ) (r : ℕ × ChannelModel) : Type 0 where
  pub no_sooner : t ≤ r.0
  pub no_later : r.0 < t + max_latency
  pub valid : IsValid r.1
  pub same_credits : r.1.max_credits ≡ ch.max_credits
  pub same_lat : r.1.xfer_lat ≡ ch.xfer_lat

valid_length-le :
    (head pos : ℕ)
    → head < nr_credit_entries
    → pos < nr_credit_entries
    → valid_length head pos ≤ nr_credit_entries
valid_length-le head pos h p = ground arith

answer-Answered :
    (ch : ChannelModel) (t length offs : ℕ) (s : Spent)
    → IsValid ch
    → t + max_latency ≤ 2 ^ 64
    → Ends ch.head (first_slot ch length offs) s
    → Answered ch t (answer ch t length s)
unfolding answer
answer-Answered ch t length offs s v small e = record {
  no_sooner = ground arith;
  no_later = ground arith;
  valid = record {
    head_in = v.head_in;
    valid_in = ground (arith, valid_length-le ch.head s.pos v.head_in e.pos_in, v.valid_in);
    some_credits = v.some_credits;
    credits = λ i. omega (arith, e.fewer i, v.credits i);
  };
  same_credits = refl;
  same_lat = refl;
}

schedule-Answered :
    (ch : ChannelModel) (t length offs : ℕ)
    → IsValid ch
    → t + max_latency ≤ 2 ^ 64
    → Returns (Answered ch t) (schedule ch t length offs)
unfolding schedule
schedule-Answered ch t length offs v small =
    let divides : not (ch.max_credits == 0) ≡ true = ground (arith, v.some_credits) in
    Returns-assert (not (ch.max_credits == 0)) divides (
      Returns-bind
        (spend-Ends nr_credit_entries ch.head (first_slot ch length offs) v.head_in (omega arith)
          (ground arith))
        λ s e. returns (answer-Answered ch t length offs s v small e))

elapse-same :
    (ch : ChannelModel) (now : ℕ)
    → ((elapse ch now).max_credits ≡ ch.max_credits) × ((elapse ch now).xfer_lat ≡ ch.xfer_lat)
unfolding elapse
elapse-same ch now = (refl, refl)

at_once :
    (ch : ChannelModel) (now t : ℕ) → IsValid (elapse ch now) → Answered ch t (t, elapse ch now)
at_once ch now t w = record {
  no_sooner = omega arith;
  no_later = omega arith;
  valid = w;
  same_credits = (elapse-same ch now).0;
  same_lat = (elapse-same ch now).1;
}

after_elapse :
    (ch : ChannelModel) (now t : ℕ) (r : ℕ × ChannelModel)
    → Answered (elapse ch now) t r
    → Answered ch t r
after_elapse ch now t r a = record {
  no_sooner = a.no_sooner;
  no_later = a.no_later;
  valid = a.valid;
  same_credits = a.same_credits ∙ (elapse-same ch now).0;
  same_lat = a.same_lat ∙ (elapse-same ch now).1;
}

-- Every request on a valid ring is answered: no assertion fails, nothing is divided by 0, and the loop
-- ends. The answer is no sooner than the time asked for and less than 2 ^ 33 ns later, if no 64-bit clock overflows, and
-- the ring stays valid.
pub chmodel_request-Answered :
    (now : ℕ) (ch : ChannelModel) (t length : ℕ)
    → IsValid ch
    → t + max_latency ≤ 2 ^ 64
    → Returns (Answered ch t) (chmodel_request now ch t length)
unfolding chmodel_request
chmodel_request-Answered now ch t length v small =
    let w = elapse-IsValid ch now v in
    let offs = sub32 (t / unit_time_interval) (now / unit_time_interval) in
    Returns-if (ltb nr_credit_entries (elapse ch now).valid_len)
      (λ bad. absurd (ground (arith, w.valid_in)))
      λ _.
        Returns-if (ltb t now) (λ _. returns (at_once ch now t w))
          λ _.
            Returns-if (leb nr_credit_entries offs) (λ _. returns (at_once ch now t w))
              λ _.
                Returns-mono (schedule-Answered (elapse ch now) t length offs w small)
                  (after_elapse ch now t)
