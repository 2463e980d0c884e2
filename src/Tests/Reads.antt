-- ===== src/Tests/Reads.antt =====
-- A read of three pages, two of them named by a list, at concrete values.
use nvme_virt.Prelude.{
  ℕ, zero, suc, ◌+◌, ◌-◌, ◌*◌, ◌/◌, ◌%◌, ◌^◌, ◌<◌, ◌≡◌, refl, sym, ◌∙◌, ltb, ◌==◌, if◌then◌else◌,
  inl, inr, Bool-cases, Returns, arith,
}
use nvme_virt.Worker.Prp.{Memory, to_host, u64_at, do_perform_io}
use nvme_virt.Worker.Prp.Bytes.{prp_address}
use nvme_virt.Worker.Prp.Places.{Placed}
use nvme_virt.Worker.Prp.Reading.{do_perform_io-Placed}

-- a list at 20480 with the pages 8192 and 32768
abbrev full_storage : Memory
full_storage = record {
  host = λ a. if a == 20481 then 32 else if a == 20489 then 128 else 0;
  storage = λ a. a % 251;
}

full_storage-aligned :
    (i : ℕ) → 4096 * i < 8192 → u64_at full_storage.host (20480 + 8 * i) % 4096 ≡ 0
full_storage-aligned zero h = refl
full_storage-aligned (suc zero) h = refl
full_storage-aligned (suc (suc i)) h = absurd (omega (arith, h))

abbrev address : ℕ → ℕ
address j = prp_address full_storage.host 4096 20480 (24 * 2 ^ 9) j

place : (j : ℕ) → j < 12288 → address j ≡ (if ltb j 8192 then 4096 + j else 24576 + j)
place j h = elim (Bool-cases (ltb j 4096)) [
  | inl q ↦ rw q (ground (arith, q))
  | inr q ↦ elim (Bool-cases (ltb j 8192)) [
    | inl w ↦
        let d : (j - 4096) / 4096 ≡ 0 = ground (arith, q, w) in rw (q, w, d) (ground (arith, q, w))
    | inr w ↦
        let d : (j - 4096) / 4096 ≡ 1 = ground (arith, q, w, h) in
        rw (q, w, d) (ground (arith, q, w, h))
  ]
]

do_perform_io-Placed_example :
    Returns
      (λ (r : ℕ × Memory).
        (r.0 ≡ 24 * 2 ^ 9)
        × Placed full_storage
            (prp_address full_storage.host 4096 20480 (24 * 2 ^ 9))
            (3 * 2 ^ 9)
            (24 * 2 ^ 9)
            r.1)
      (do_perform_io to_host 3 23 4096 20480 full_storage)
do_perform_io-Placed_example =
    do_perform_io-Placed 3 23 4096 20480 full_storage (omega arith)
      (record {
        page = λ h. refl;
        entries = λ h i k. full_storage-aligned i k;
        fits = λ h. omega arith;
      })
      (record {
        inj = λ i j h k e. let same = sym (place i h) ∙ e ∙ place j k in ground (arith, same, h, k);
        list = λ i b j h l k e. let same = e ∙ place j k in ground (arith, same, h, l, k);
      })
