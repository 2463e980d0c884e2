-- ===== src/Kv/Allocate.antt =====
-- append_only.c and bitmap.c: where the value of a new key goes. Nothing gives space back.
use nvme_virt.Prelude.{
  ℕ, ◌+◌, ◌*◌, ◌/◌, Bool, Option, some, ltb, if◌then◌else◌, u64, ◌>>=◌, ◌>>◌, assert,
}

-- `struct allocator_ops`, over the static variables of an allocator; nothing calls `kill`.
pub record AllocatorOps (S : Type 0) : Type 0 where
  pub init : S → ℕ → S
  pub allocate : S → ℕ → Option (ℕ × S)

pub record AppendOnly : Type 0 where
  pub latest : ℕ
  pub dev_size : ℕ
  pub total_written : ℕ

abbrev pub append_only_allocator_init : AppendOnly → ℕ → AppendOnly
append_only_allocator_init s size = record { latest = 0; dev_size = size; total_written = 0 }

-- A device that is nearly full is only reported in the log.
abbrev pub append_only_allocate : AppendOnly → ℕ → Option (ℕ × AppendOnly)
append_only_allocate s length = some (
  s.latest,
  record s { latest = u64 (s.latest + length); total_written = u64 (s.total_written + length) },
)

abbrev pub append_only_ops : AllocatorOps AppendOnly
append_only_ops = record { init = append_only_allocator_init; allocate = append_only_allocate }

abbrev pub small_length : ℕ
small_length = 1024

abbrev pub large_length : ℕ
large_length = 4096

-- The kernel's functions on bitmaps: `bitmap_zero map nbits`, `bitmap_find_next_zero_area map size start
-- 1 0`, and `bitmap_set map off 1`.
pub record KernelBitmap : Type 0 where
  pub zero_bits : (ℕ → Bool) → ℕ → ℕ → Bool
  pub find_next_zero : (ℕ → Bool) → ℕ → ℕ → ℕ
  pub set_bit : (ℕ → Bool) → ℕ → ℕ → Bool

-- One of the two bitmaps with its counters; `bits` is the number of bits of the array.
pub record BitmapPool : Type 0 where
  pub bits : ℕ
  pub nbits : ℕ
  pub bitmap : ℕ → Bool
  pub capacity : ℕ
  pub last_pos : ℕ

pub record BitmapAllocator : Type 0 where
  pub small : BitmapPool
  pub large : BitmapPool
  pub dev_size : ℕ
  pub total_written : ℕ

-- `none` is a bit outside the array.
pub take_bit : KernelBitmap → BitmapPool → Option (ℕ × BitmapPool)
take_bit kernel pool = do
  let off = kernel.find_next_zero pool.bitmap pool.nbits pool.last_pos
  assert (ltb off pool.bits)
  let last = off + 1
  some (
    off,
    record pool {
      bitmap = kernel.set_bit pool.bitmap off;
      last_pos = if ltb pool.nbits last then 0 else last;
      capacity = pool.capacity + 1;
    },
  )

abbrev pub clear_pool : KernelBitmap → BitmapPool → ℕ → BitmapPool
clear_pool kernel pool nbits = record pool {
  nbits = nbits;
  bitmap = kernel.zero_bits pool.bitmap nbits;
}

abbrev pub bitmap_allocator_init : KernelBitmap → BitmapAllocator → ℕ → BitmapAllocator
bitmap_allocator_init kernel s size = record s {
  dev_size = size;
  small = clear_pool kernel s.small (size / 2 / small_length);
  large = clear_pool kernel s.large (size / 2 / large_length);
}

-- A length above `large_length` is only reported in the log.
pub bitmap_allocate : KernelBitmap → BitmapAllocator → ℕ → Option (ℕ × BitmapAllocator)
bitmap_allocate kernel s length =
    let written = record s { total_written = u64 (s.total_written + length) } in
    let from_large = do
      (off, pool) ← take_bit kernel s.large
      some (u64 (s.dev_size / 2 + off * large_length), record written { large = pool })
    in let from_small = do
      (off, pool) ← take_bit kernel s.small
      some (u64 (off * small_length), record written { small = pool })
      in if ltb small_length length then from_large else from_small

abbrev pub bitmap_ops : KernelBitmap → AllocatorOps BitmapAllocator
bitmap_ops kernel = record {
  init = bitmap_allocator_init kernel;
  allocate = bitmap_allocate kernel;
}
