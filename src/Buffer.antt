-- ===== src/Buffer.antt =====
-- `struct buffer` of ssd.h and its four functions in ssd.c. Each runs under the buffer's spin lock,
-- so the calls of all threads stand in one order; the lock itself is not modelled.
pub mod Conserved
use nvme_virt.Prelude.{ℕ, ◌+◌, ◌-◌, ltb, if◌then◌else◌, u32, u64}

pub record Buffer : Type 0 where
  pub size : ℕ
  pub remaining : ℕ

pub buffer_init : ℕ → Buffer
buffer_init size = record { size = size; remaining = size }

-- `size_t` bytes are granted, all or none, and reported in 32 bits.
unfoldable pub buffer_allocate : Buffer → ℕ → ℕ × Buffer
buffer_allocate buf size =
    let granted = if ltb buf.remaining size then 0 else size in
    (u32 granted, record buf { remaining = buf.remaining - granted })

pub buffer_release : Buffer → ℕ → Buffer
buffer_release buf size = record buf { remaining = u64 (buf.remaining + size) }

pub buffer_refill : Buffer → Buffer
buffer_refill buf = record buf { remaining = buf.size }
