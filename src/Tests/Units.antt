-- ===== src/Tests/Units.antt =====
-- Drives of I/O units at concrete values.
use nvme_virt.Prelude.{ℕ, ◌+◌, ◌*◌, ◌≡◌, refl, List, [], ◌∷◌, length, max_of, Returns, arith}
use nvme_virt.Simple.{UnitConfig, unit_write, delay_of, latency_of, io_unit_size, schedule_io_units}
use nvme_virt.Simple.Schedule.{rounds, schedule_io_units-rounds}

abbrev four_units : UnitConfig
four_units = record {
  nr_io_units = 4;
  io_unit_shift = 12;
  read_delay = 1;
  read_time = 2;
  read_trailing = 0;
  write_delay = 10;
  write_time = 20;
  write_trailing = 5;
}

abbrev unit_times : List ℕ
unit_times = 100 ∷ 1500 ∷ 700 ∷ 0 ∷ []

schedule_io_units-rounds_example :
    Returns
      (λ (r : ℕ × List ℕ).
        (r.0
          ≡ max_of 1000 1500
            + delay_of four_units unit_write
            + rounds 10000 (io_unit_size four_units) * latency_of four_units unit_write)
        × (length r.1 ≡ 4))
      (schedule_io_units four_units unit_write 8 10000 1000 unit_times)
schedule_io_units-rounds_example =
    schedule_io_units-rounds four_units unit_write (omega arith) (omega arith) (omega arith) 8 10000
      1000 1500 unit_times (omega arith) (omega arith) refl refl (omega arith)
