-- ===== src/Worker/Prp/Bytes.antt =====
-- The bytes that a write moves, one by one.
use nvme_virt.Prelude.{
  ℕ, zero, suc, ◌+◌, ◌-◌, ◌*◌, ◌/◌, ◌%◌, ◌^◌, ◌≤◌, ◌<◌, ◌≡◌, refl, sym, subst, some, none, true,
  false, ◌==◌, ltb, leb, if◌then◌else◌, u64, Returns, returns, Returns-if, Returns-bind,
  Returns-mono, Bool-cases, inl, inr, arith,
}
use nvme_virt.Ssd.Config.{lba_bits}
use nvme_virt.Worker.Prp.{
  Memory, to_storage, PrpWalk, u64_at, list_entry, next_prp, io_size, move, perform, first_prp,
  do_perform_io,
}
use nvme_virt.Worker.Prp.Pieces.{
  Moved, list_address, Moved-step, near_entry, far_entry, perform-list,
}

-- Byte `j` of what is behind the first page, `n` bytes in all: one page, or a list of pages.
abbrev pub second_address : (ℕ → ℕ) → ℕ → ℕ → ℕ → ℕ
second_address host prp2 n j = if leb n 4096 then prp2 + j else list_address host prp2 0 j

-- The address of byte `j` of a transfer of `n` bytes.
abbrev pub prp_address : (ℕ → ℕ) → ℕ → ℕ → ℕ → ℕ → ℕ
prp_address host prp1 prp2 n j =
    let first = 4096 - prp1 % 4096 in
    if ltb j first then prp1 + j else second_address host prp2 (n - first) (j - first)

-- What a host provides for `n` bytes behind the first page: the start of a page, or a list of starts of
-- pages, as many as the bytes take, that does not leave its own page.
pub record Listed (host : ℕ → ℕ) (prp2 n : ℕ) : Type 0 where
  pub page : n ≤ 4096 → prp2 % 4096 ≡ 0
  pub entries : 4096 < n → (i : ℕ) → 4096 * i < n → u64_at host (prp2 + 8 * i) % 4096 ≡ 0
  pub fits : 4096 < n → n ≤ 4096 * ((4096 - prp2 % 4096) / 8)

module _ (prp1 prp2 : ℕ) where
  perform-none :
      (fuel : ℕ) (w : PrpWalk) (offset : ℕ) (m : Memory)
      → perform fuel to_storage prp1 prp2 w 0 offset m ≡ some m
  unfolding perform
  perform-none zero w offset m = refl
  perform-none (suc fuel) w offset m = refl

  perform-second :
      (fuel remaining offset : ℕ) (m : Memory)
      → remaining ≤ fuel
      → Listed m.host prp2 remaining
      → Returns (Moved m (second_address m.host prp2 remaining) offset remaining) (
          perform fuel to_storage prp1 prp2
            (record { prp_offs = 1; prp2_offs = 0; list = none })
            remaining
            offset
            m)
  unfolding perform next_prp list_entry
  perform-second zero remaining offset m f l =
      let done : remaining ≡ 0 = omega arith in rw done (returns (refl, λ a. ground arith))
  perform-second (suc fuel) remaining offset m f l =
      Returns-if (remaining == 0) (λ z. returns (refl, λ a. ground (arith, z)))
        (λ z. elim (Bool-cases (ltb 4096 remaining)) [
          | inl q ↦
              let far : 4096 < remaining = ground (arith, q) in
              let entry : ℕ → ℕ = λ i. u64_at m.host (prp2 + 8 * i) in
              let fits : leb (prp2 % 4096 + 8 * 0 + 8) 4096 ≡ true =
                ground (arith, l.fits far, far) in
              let long : leb remaining 4096 ≡ false = ground (arith, q) in
              let n : io_size (entry 0) remaining ≡ 4096 =
                ground (arith, far, l.entries far 0 (omega (arith, far))) in
              rw (q, fits, n)
                (Returns-mono
                  (perform-list prp1 prp2 fuel 1 2 (remaining - 4096) (offset + 4096)
                    (move to_storage m (entry 0) offset 4096) (omega arith)
                    (λ i h k. l.entries far i (omega (arith, h, k, far))) (omega (arith, f, far))
                    (omega (arith, l.fits far, far)))
                  λ after.
                    Moved-step m (second_address m.host prp2 remaining) (list_address m.host prp2 1)
                      (entry 0) offset 4096 remaining after (omega (arith, far))
                      (λ j h. rw long (near_entry entry 0 j h))
                      (λ j h k. rw long (far_entry entry 0 j h)))
          | inr q ↦
              let n : io_size prp2 remaining ≡ remaining = ground (arith, q, l.page) in
              let short : leb remaining 4096 ≡ true = ground (arith, q) in
              let rest : remaining - remaining ≡ 0 = omega arith in
              rw (q, n, rest, perform-none fuel)
                (returns (
                  Moved-step m (second_address m.host prp2 remaining) (λ j. 0) prp2 offset remaining
                    remaining _ (omega arith) (λ j h. rw short refl) (λ j h k. absurd (omega arith))
                    (refl, λ a. ground arith)))
        ])

  pub perform-first :
      (fuel n offset : ℕ) (m : Memory)
      → n ≤ fuel
      → Listed m.host prp2 (n - (4096 - prp1 % 4096))
      → Returns
          (Moved m (prp_address m.host prp1 prp2 n) offset n)
          (perform fuel to_storage prp1 prp2 first_prp n offset m)
  unfolding perform next_prp
  perform-first zero n offset m f l =
      let done : n ≡ 0 = omega arith in rw done (returns (refl, λ a. ground arith))
  perform-first (suc fuel) n offset m f l =
      Returns-if (n == 0) (λ z. returns (refl, λ a. ground (arith, z)))
        (λ z.
          let size = io_size prp1 n in
          let first = 4096 - prp1 % 4096 in
          let is : size ≡ (if leb n first then n else first) = ground arith in
          let left : n - size ≡ n - first = ground (arith, is) in
          Returns-mono
            (perform-second fuel (n - size) (offset + size) (move to_storage m prp1 offset size)
              (ground (arith, is, z, f)) (subst (Listed m.host prp2) (sym left) l))
            λ after.
              Moved-step m (prp_address m.host prp1 prp2 n) (second_address m.host prp2 (n - size))
                prp1 offset size n after (ground (arith, is))
                (λ j h.
                  let in_first : ltb j first ≡ true = ground (arith, is, h) in rw in_first refl)
                (λ j h k.
                  let whole : size ≡ first = ground (arith, is, h, k) in
                  let behind : ltb j first ≡ false = ground (arith, whole, h) in
                  rw (whole, behind) refl))

-- A write leaves in the storage, for each of its bytes, the byte at the host address that the PRP
-- entries give it, and every other byte of the storage and the host's memory as they were. Condition:
-- the host provides the second page or the list of pages, and the range has a 64-bit address.
pub do_perform_io-Moved :
    (slba length prp1 prp2 : ℕ) (m : Memory)
    → slba * 2 ^ lba_bits < 2 ^ 64
    → Listed m.host prp2 ((length + 1) * 2 ^ lba_bits - (4096 - prp1 % 4096))
    → Returns
        (λ (r : ℕ × Memory).
          (r.0 ≡ (length + 1) * 2 ^ lba_bits)
          × Moved m
              (prp_address m.host prp1 prp2 ((length + 1) * 2 ^ lba_bits))
              (slba * 2 ^ lba_bits)
              ((length + 1) * 2 ^ lba_bits)
              r.1)
        (do_perform_io to_storage slba length prp1 prp2 m)
unfolding do_perform_io
do_perform_io-Moved slba length prp1 prp2 m b l =
    let start : u64 (slba * 2 ^ lba_bits) ≡ slba * 2 ^ lba_bits = omega (arith, b) in
    rw start (
      Returns-bind
        (perform-first prp1 prp2 ((length + 1) * 2 ^ lba_bits) ((length + 1) * 2 ^ lba_bits)
          (slba * 2 ^ lba_bits) m (omega arith) l)
        λ after h. returns (refl, h))
