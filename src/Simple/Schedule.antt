-- ===== src/Simple/Schedule.antt =====
-- The time at which a request to the I/O units is complete, and the time that a flush waits for.
use nvme_virt.Prelude.{
  ℕ, zero, suc, ◌+◌, ◌-◌, ◌*◌, ◌/◌, ◌%◌, ◌^◌, ◌≤◌, ◌<◌, ◌≡◌, ◌⊎◌, inl, inr, refl, sym, subst, ap,
  ◌∙◌, List, some, ltb, ◌==◌, ◌||◌, if◌then◌else◌, Bool-cases, ==_iff, some_inj, get_elem?,
  get_elem?_total, length, length-set, u64, div_round_up, min_of, max_of, Returns, returns,
  Returns-mono, Returns-if, arith,
}
use nvme_virt.Ssd.Config.{lba_bits}
use nvme_virt.Simple.{
  UnitConfig, UnitOp, delay_of, latency_of, io_unit_size, next_unit, occupy_units,
  schedule_io_units, schedule_flush,
}

-- The rounds of the loop for `n` bytes: one for each I/O unit size begun, and at least one.
abbrev pub rounds : ℕ → ℕ → ℕ
rounds n size = if n == 0 then 1 else div_round_up n size

div_small : (a d : ℕ) → 0 < d → d ≤ a → a < 2 * d → a / d ≡ 1
div_small a d p h k = grind arith

div_step : (a d : ℕ) → 0 < d → (a + d) / d ≡ a / d + 1
div_step a d p = grind arith

rounds_step :
    (n size : ℕ)
    → 0 < size
    → size < n
    → n < 2 ^ 32
    → size < 2 ^ 32
    → rounds n size ≡ rounds (n - size) size + 1
rounds_step n size p h b c =
    let m = n - size + size - 1 in
    let e : n + size - 1 ≡ m + size = omega arith in
    ground (arith, ap (λ x. x / size) e, div_step m size p)

rounds_last : (n size : ℕ) → 0 < size → n ≤ size → n < 2 ^ 32 → size < 2 ^ 32 → rounds n size ≡ 1
rounds_last n size p h b c = ground (arith, div_small (n + size - 1) size p)

mod_lt : (a b : ℕ) → 0 < b → a % b < b
mod_lt a b h = grind arith

small_u64 : (a b : ℕ) → a + b < 2 ^ 64 → u64 a ≡ a
small_u64 a b h = omega arith

distrib : (a b : ℕ) → (a + 1) * b ≡ a * b + b
distrib a b = omega arith

module _ (cfg : UnitConfig) (op : UnitOp) (units : 0 < cfg.nr_io_units)
    (few : cfg.nr_io_units < 2 ^ 31) (size : 0 < io_unit_size cfg) where
  occupy_units-rounds :
      (fuel io_unit left n latest : ℕ) (stat : List ℕ)
      → n < fuel
      → n < 2 ^ 32
      → io_unit < cfg.nr_io_units
      → length stat ≡ cfg.nr_io_units
      → latest + rounds n (io_unit_size cfg) * latency_of cfg op < 2 ^ 64
      → Returns
          (λ (r : ℕ × List ℕ).
            (r.0 ≡ latest + rounds n (io_unit_size cfg) * latency_of cfg op)
            × (length r.1 ≡ cfg.nr_io_units))
          (occupy_units fuel cfg op io_unit left n latest stat)
  unfolding occupy_units
  occupy_units-rounds zero io_unit left n latest stat f b i l c = absurd (omega arith)
  occupy_units-rounds (suc fuel) io_unit left n latest stat f b i l c =
      let sz = io_unit_size cfg in
      let lat = latency_of cfg op in
      let (old, at) = get_elem?_total stat io_unit (rw l i) in
      rw at (
        Returns-if (ltb 0 (n - min_of n sz))
          (λ more.
            let big : sz < n = ground (arith, more) in
            let left_over : n - min_of n sz ≡ n - sz = ground (arith, big) in
            let split : rounds n sz ≡ rounds (n - sz) sz + 1 =
              rounds_step n sz size big b (omega arith) in
            let mul : rounds n sz * lat ≡ rounds (n - sz) sz * lat + lat =
              rw split (distrib (rounds (n - sz) sz) lat) in
            let now : u64 (latest + lat) ≡ latest + lat = omega (arith, c, mul) in
            rw (left_over, now)
              (Returns-mono
                (occupy_units-rounds fuel (next_unit cfg io_unit) (left - 1) (n - sz) (latest + lat)
                  _ (omega arith) (omega arith) (ground arith) (length-set stat io_unit _ ∙ l)
                  (omega (arith, c, mul)))
                λ r p. (omega (arith, p.0, mul), p.1)))
          (λ done.
            let one : rounds n sz ≡ 1 =
              rounds_last n sz size (ground (arith, done)) b (omega arith) in
            let mul : rounds n sz * lat ≡ lat = rw one (omega arith) in
            returns (omega (arith, c, mul), length-set stat io_unit _ ∙ l)))

  -- A request is complete after the delay, counted from when its first unit is free, and then one
  -- latency for each unit of its length, and the number of units stays. Condition: there are units, at
  -- least of the size of a sector, and the 64-bit clock does not overflow.
  pub schedule_io_units-rounds :
      (lba n nsecs_start busy : ℕ) (stat : List ℕ)
      → lba_bits ≤ cfg.io_unit_shift
      → n < 2 ^ 32
      → length stat ≡ cfg.nr_io_units
      → get_elem? stat (lba / 2 ^ (cfg.io_unit_shift - lba_bits) % cfg.nr_io_units) ≡ some busy
      → max_of nsecs_start busy + delay_of cfg op + rounds n (io_unit_size cfg) * latency_of cfg op
        < 2 ^ 64
      → Returns
          (λ (r : ℕ × List ℕ).
            (r.0
              ≡ max_of nsecs_start busy
                + delay_of cfg op
                + rounds n (io_unit_size cfg) * latency_of cfg op)
            × (length r.1 ≡ cfg.nr_io_units))
          (schedule_io_units cfg op lba n nsecs_start stat)
  unfolding schedule_io_units
  schedule_io_units-rounds lba n nsecs_start busy stat sh b l at c =
      let unit = lba / 2 ^ (cfg.io_unit_shift - lba_bits) % cfg.nr_io_units in
      let start : u64 (max_of nsecs_start busy + delay_of cfg op)
          ≡ max_of nsecs_start busy + delay_of cfg op =
        small_u64 (max_of nsecs_start busy + delay_of cfg op) _ c in
      Returns-if (ltb cfg.io_unit_shift lba_bits || (cfg.nr_io_units == 0))
        (λ bad. absurd (ground (arith, bad)))
        λ _.
          rw (at, start)
            (occupy_units-rounds (n + 1) unit _ n (max_of nsecs_start busy + delay_of cfg op) stat
              (omega arith) b
              (mod_lt (lba / 2 ^ (cfg.io_unit_shift - lba_bits)) cfg.nr_io_units units) l c)

-- `t` is the largest of `latest` and the times of the units from `i` on, `n` of them.
pub record IsMax (stat : List ℕ) (i n latest t : ℕ) : Type 0 where
  pub no_less : latest ≤ t
  pub above : (j u : ℕ) → i ≤ j → j < i + n → get_elem? stat j ≡ some u → u ≤ t
  pub reached : (t ≡ latest) ⊎ ((j : ℕ) × (i ≤ j) × (j < i + n) × (get_elem? stat j ≡ some t))

IsMax-cons :
    (n i latest u t : ℕ) (stat : List ℕ)
    → get_elem? stat i ≡ some u
    → IsMax stat (i + 1) n (max_of latest u) t
    → IsMax stat i (suc n) latest t
IsMax-cons n i latest u t stat at m = record {
  no_less = grind (arith, m.no_less);
  above = λ j v a b e. elim (Bool-cases (j == i)) [
    | inl q ↦
        let same : u ≡ v =
          some_inj (sym at ∙ subst (λ k. get_elem? stat k ≡ some v) ((==_iff j i).0 q) e) in
        grind (arith, m.no_less, same)
    | inr q ↦ m.above j v (ground arith) (omega arith) e
  ];
  reached = elim m.reached [
    | inl e ↦ pick (ground (arith, e))
    | inr (j, a, b, e) ↦ inr (j, omega arith, omega arith, e)
  ];
}
  where
    pick :
        (t ≡ latest) ⊎ (t ≡ u)
        → (t ≡ latest) ⊎ ((j : ℕ) × (i ≤ j) × (j < i + suc n) × (get_elem? stat j ≡ some t))
    pick (inl e) = inl e
    pick (inr e) = inr (i, omega arith, omega arith, at ∙ ap some (sym e))

-- A flush waits for exactly the latest unit: its time is the maximum of the times of all units from
-- the given one on and of the time it starts from. Condition: the units exist.
pub schedule_flush-IsMax :
    (n i latest : ℕ) (stat : List ℕ)
    → i + n ≤ length stat
    → Returns (IsMax stat i n latest) (schedule_flush n i stat latest)
unfolding schedule_flush
schedule_flush-IsMax zero i latest stat h =
    returns (record {
      no_less = omega arith;
      above = λ j u a b. absurd (omega arith);
      reached = inl refl;
    })
schedule_flush-IsMax (suc n) i latest stat h =
    let (u, at) = get_elem?_total stat i (omega arith) in
    rw at (
      Returns-mono (schedule_flush-IsMax n (i + 1) (max_of latest u) stat (omega arith))
        λ t m. IsMax-cons n i latest u t stat at m)
