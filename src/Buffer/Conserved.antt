-- ===== src/Buffer/Conserved.antt =====
-- What the callers of the buffer hold and what remains add up to its size.
use nvme_virt.Prelude.{ℕ, ◌+◌, ◌-◌, ◌^◌, ◌≤◌, ◌<◌, ◌≡◌}
use nvme_virt.Buffer.{Buffer, buffer_init, buffer_allocate, buffer_release, buffer_refill}

-- A buffer, and the bytes that are allocated and not yet released.
pub record Usage : Type 0 where
  pub buf : Buffer
  pub held : ℕ

abbrev usage : Buffer → ℕ → Usage
usage b n = record { buf = b; held = n }

-- A caller asks for `n` bytes, as many as the answer can count, and holds what the answer says; or it
-- gives back some of the bytes that are held.
pub data Step : Usage → Usage → Type 0 where
  ask :
      (b : Buffer) (held n : ℕ)
      → n < 2 ^ 32
      → Step (usage b held) (usage (buffer_allocate b n).1 (held + (buffer_allocate b n).0))
  give_back :
      (b : Buffer) (held n : ℕ)
      → n ≤ held
      → Step (usage b held) (usage (buffer_release b n) (held - n))
  refill : (b : Buffer) (held : ℕ) → Step (usage b held) (usage (buffer_refill b) 0)

pub data Reach (size : ℕ) : Usage → Type 0 where
  start : Reach size (usage (buffer_init size) 0)
  later : {u v : Usage} → Reach size u → Step u v → Reach size v

abbrev pub IsConserved : ℕ → Usage → Type 0
IsConserved size u = (u.buf.size ≡ size) × (u.buf.remaining + u.held ≡ size)
