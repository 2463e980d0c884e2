-- ===== src/Simple.antt =====
-- simple_ftl.c: a drive of independent I/O units, each with the time until which it is busy. A
-- result `none` is an index outside `io_unit_stat`, a remainder by 0, or a shift by a negative count.
pub mod Schedule
use nvme_virt.Prelude.{
  ℕ, zero, suc, ◌+◌, ◌-◌, ◌*◌, ◌/◌, ◌%◌, ◌^◌, List, [], ◌∷◌, Bool, Option, some, none, ltb, leb,
  ◌==◌, ◌||◌, if◌then◌else◌, get_elem?, set, u32, u64, min_of, max_of, ◌>>=◌,
}
use nvme_virt.Ssd.Config.{lba_bits}

-- The fields of `struct nvmev_config` that stand for the I/O units.
pub record UnitConfig : Type 0 where
  pub nr_io_units : ℕ
  pub io_unit_shift : ℕ
  pub read_delay : ℕ
  pub read_time : ℕ
  pub read_trailing : ℕ
  pub write_delay : ℕ
  pub write_time : ℕ
  pub write_trailing : ℕ

-- The opcode: two commands have a case of their own.
pub data UnitOp : Type 0 where
  unit_write unit_read : UnitOp

abbrev pub delay_of : UnitConfig → UnitOp → ℕ
delay_of cfg unit_write = cfg.write_delay
delay_of cfg unit_read = cfg.read_delay

abbrev pub latency_of : UnitConfig → UnitOp → ℕ
latency_of cfg unit_write = cfg.write_time
latency_of cfg unit_read = cfg.read_time

abbrev pub trailing_of : UnitConfig → UnitOp → ℕ
trailing_of cfg unit_write = cfg.write_trailing
trailing_of cfg unit_read = cfg.read_trailing

-- `__cmd_io_size`, and its conversion to `unsigned int`
abbrev pub cmd_io_size : ℕ → ℕ
cmd_io_size length = u32 ((length + 1) * 2 ^ lba_bits)

abbrev pub io_unit_size : UnitConfig → ℕ
io_unit_size cfg = u32 (2 ^ cfg.io_unit_shift)

-- `DIV_ROUND_UP` of two 32-bit numbers
abbrev pub round_up32 : ℕ → ℕ → ℕ
round_up32 n d = u32 (n + d + (2 ^ 32 - 1)) / d

-- `if (++io_unit >= nr_io_units) io_unit = 0;`
abbrev pub next_unit : UnitConfig → ℕ → ℕ
next_unit cfg io_unit = if leb cfg.nr_io_units (u32 (io_unit + 1)) then 0 else u32 (io_unit + 1)

-- The `do` loop; `left` is `nr_io_units` as it counts down, and stays at 0 below it.
pub occupy_units : ℕ → UnitConfig → UnitOp → ℕ → ℕ → ℕ → ℕ → List ℕ → Option (ℕ × List ℕ)
occupy_units zero cfg op io_unit left length latest stat = none
occupy_units (suc fuel) cfg op io_unit left length latest stat =
    let latest' = u64 (latest + latency_of cfg op) in
    let busy = if ltb 0 left then u64 (latest' + trailing_of cfg op) else latest' in
    let length' = length - min_of length (io_unit_size cfg) in
    let rest =
      occupy_units fuel cfg op (next_unit cfg io_unit) (left - 1) length' latest'
        (set stat io_unit busy) in
    do
      old ← get_elem? stat io_unit
      if ltb 0 length' then rest else some (latest', set stat io_unit busy)

pub schedule_io_units : UnitConfig → UnitOp → ℕ → ℕ → ℕ → List ℕ → Option (ℕ × List ℕ)
schedule_io_units cfg op lba length nsecs_start stat =
    let io_unit = lba / 2 ^ (cfg.io_unit_shift - lba_bits) % cfg.nr_io_units in
    let nr_io_units = min_of cfg.nr_io_units (round_up32 length (io_unit_size cfg)) in
    let run = do
      busy ← get_elem? stat io_unit
      occupy_units (length + 1) cfg op io_unit nr_io_units length
          (u64 (max_of nsecs_start busy + delay_of cfg op)) stat
    in if ltb cfg.io_unit_shift lba_bits || (cfg.nr_io_units == 0) then none else run

-- `__schedule_flush`, from the unit `i` on, for `n` units.
pub schedule_flush : ℕ → ℕ → List ℕ → ℕ → Option ℕ
schedule_flush zero i stat latest = some latest
schedule_flush (suc n) i stat latest = do
  t ← get_elem? stat i
  schedule_flush n (i + 1) stat (max_of latest t)

-- the opcode with the part of the command that is read
pub data SimpleCommand : Type 0 where
  simple_rw : UnitOp → (slba length : ℕ) → SimpleCommand
  simple_flush : SimpleCommand
  simple_other : ℕ → SimpleCommand

-- `simple_proc_nvme_io_cmd`: `ret->nsecs_target`, which a command without a case leaves at `target`,
-- and the units. `now` is the wall clock.
pub simple_proc_nvme_io_cmd : UnitConfig → ℕ → ℕ → SimpleCommand → List ℕ → Option (ℕ × List ℕ)
simple_proc_nvme_io_cmd cfg now target (simple_rw op slba length) stat =
    schedule_io_units cfg op slba (cmd_io_size length) now stat
simple_proc_nvme_io_cmd cfg now target simple_flush stat = do
  latest ← schedule_flush cfg.nr_io_units 0 stat 0
  some (latest, stat)
simple_proc_nvme_io_cmd cfg now target (simple_other c) stat = some (target, stat)
