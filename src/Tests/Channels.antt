-- ===== src/Tests/Channels.antt =====
-- The channel model and the buffer at concrete values.
use nvme_virt.Prelude.{◌%◌, ◌+◌, ◌≡◌, if◌then◌else◌, ltb, u8, Returns, arith}
use nvme_virt.Channel.{ChannelModel, chmodel_request, elapse, Spent}
use nvme_virt.Channel.Window.{IsValid, ahead, elapse_window}
use nvme_virt.Channel.Request.{Answered, chmodel_request-Answered}
use nvme_virt.Buffer.{buffer_init, buffer_allocate}
use nvme_virt.Buffer.Conserved.{Usage}

-- the link in use for the next 10 slots
abbrev busy_model : ChannelModel
busy_model = record {
  cur_time = 4000;
  head = 98300;
  valid_len = 10;
  max_credits = 16;
  command_credits = 0;
  xfer_lat = 100;
  avail_credits = λ i. 3;
}

busy_model-IsValid : IsValid busy_model
busy_model-IsValid = record {
  head_in = omega arith;
  valid_in = omega arith;
  some_credits = omega arith;
  credits = λ i. omega arith;
}

elapse_window_example :
    ((elapse busy_model 20000).avail_credits 2 ≡ (
      if ltb (ahead busy_model.head 2) 4
      then u8 busy_model.max_credits
      else busy_model.avail_credits 2))
    × ((elapse busy_model 20000).head ≡ 98304 % 98304)
    × ((elapse busy_model 20000).valid_len ≡ 6)
    × ((elapse busy_model 20000).cur_time ≡ 20000)
elapse_window_example =
    elapse_window busy_model 20000 2 busy_model-IsValid (omega arith) (omega arith) (omega arith)

chmodel_request-Answered_example :
    Returns (Answered busy_model 30000) (chmodel_request 20000 busy_model 30000 4096)
chmodel_request-Answered_example =
    chmodel_request-Answered 20000 busy_model 30000 4096 busy_model-IsValid (omega arith)

abbrev twenty_credits : Spent
twenty_credits = record { avail = λ i. 3; pos = 98302; left = 20; delay = 0 }

abbrev asked : Usage
asked = record {
  buf = (buffer_allocate (buffer_init 100) 30).1;
  held = 0 + (buffer_allocate (buffer_init 100) 30).0;
}
