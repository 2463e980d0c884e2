-- ===== src/Worker/Prp/Reading.antt =====
-- `__do_perform_io` for a read.
use nvme_virt.Prelude.{
  ℕ, zero, suc, ◌+◌, ◌-◌, ◌*◌, ◌/◌, ◌%◌, ◌^◌, ◌≤◌, ◌<◌, ◌≡◌, refl, sym, subst, some, none, true,
  false, ◌==◌, ltb, leb, if◌then◌else◌, u64, Returns, returns, Returns-if, Returns-bind,
  Returns-mono, Bool-cases, inl, inr, arith,
}
use nvme_virt.Ssd.Config.{lba_bits}
use nvme_virt.Worker.Prp.{
  Memory, to_host, PrpWalk, u64_at, list_entry, next_prp, io_size, move, perform, first_prp,
  do_perform_io,
}
use nvme_virt.Worker.Prp.Pieces.{near_entry, far_entry}
use nvme_virt.Worker.Prp.Bytes.{second_address, prp_address, Listed}
use nvme_virt.Worker.Prp.Places.{
  Placed, Apart, Words, Apart-rest, Words-step, Placed-step, perform-listed,
}

-- The entries of the list that a transfer of `n` bytes behind the first page can read.
abbrev pub list_count : ℕ → ℕ → ℕ
list_count prp2 n = if leb n 4096 then 0 else (4096 - prp2 % 4096) / 8

perform-end :
    (fuel prp1 prp2 : ℕ) (w : PrpWalk) (offset : ℕ) (m : Memory)
    → perform fuel to_host prp1 prp2 w 0 offset m ≡ some m
unfolding perform
perform-end zero prp1 prp2 w offset m = refl
perform-end (suc fuel) prp1 prp2 w offset m = refl

module _ (prp1 prp2 : ℕ) (host : ℕ → ℕ) where
  abbrev entry : ℕ → ℕ
  entry i = u64_at host (prp2 + 8 * i)

  perform-behind :
      (fuel remaining offset : ℕ) (m : Memory)
      → remaining ≤ fuel
      → Listed host prp2 remaining
      → Words prp2 (list_count prp2 remaining) entry m.host
      → Apart prp2 (list_count prp2 remaining) (second_address host prp2 remaining) remaining
      → Returns (Placed m (second_address host prp2 remaining) offset remaining) (
          perform fuel to_host prp1 prp2
            (record { prp_offs = 1; prp2_offs = 0; list = none })
            remaining
            offset
            m)
  unfolding perform next_prp list_entry
  perform-behind zero remaining offset m f l w a =
      let done : remaining ≡ 0 = omega arith in
      rw done (
        returns
          (record { kept = refl; placed = λ j h. absurd (omega arith); others = λ b h. refl }))
  perform-behind (suc fuel) remaining offset m f l w a =
      Returns-if (remaining == 0)
        (λ z. returns (record {
          kept = refl;
          placed = λ j h. absurd (ground (arith, z, h));
          others = λ b h. refl;
        }))
        (λ z. elim (Bool-cases (ltb 4096 remaining)) [
          | inl q ↦
              let far : 4096 < remaining = ground (arith, q) in
              let long : leb remaining 4096 ≡ false = ground (arith, q) in
              let room = (4096 - prp2 % 4096) / 8 in
              let count : list_count prp2 remaining ≡ room = rw long refl in
              let some_room : 0 < room = omega (arith, l.fits far, far) in
              let fits : leb (prp2 % 4096 + 8 * 0 + 8) 4096 ≡ true = ground (arith, some_room) in
              let n : io_size (entry 0) remaining ≡ 4096 =
                ground (arith, far, l.entries far 0 (omega (arith, far))) in
              let words = subst (λ c. Words prp2 c entry m.host) count w in
              let apart =
                subst (λ c. Apart prp2 c (second_address host prp2 remaining) remaining) count a in
              let near : (j : ℕ) → j < 4096 → second_address host prp2 remaining j ≡ entry 0 + j =
                λ j h. rw long (near_entry entry 0 j h) in
              let on : (j : ℕ)
                  → j < remaining - 4096
                  → entry (1 + j / 4096) + j % 4096
                    ≡ second_address host prp2 remaining (4096 + j) =
                λ j h.
                  let back : 4096 + j - 4096 ≡ j = omega arith in
                  rw long (
                    subst
                      (λ x.
                        entry (1 + x / 4096) + x % 4096
                        ≡ entry (0 + (4096 + j) / 4096) + (4096 + j) % 4096)
                      back (sym (far_entry entry 0 (4096 + j) (omega arith)))) in
              rw (q, fits, words 0 some_room, n)
                (Returns-mono
                  (perform-listed prp1 prp2 room entry (omega arith) fuel 1 2 (remaining - 4096)
                    (offset + 4096) (move to_host m (entry 0) offset 4096) (omega arith)
                    (omega (arith, f, far)) (omega (arith, l.fits far, far))
                    (λ i h k. l.entries far i (omega (arith, h, k, far)))
                    (Words-step m entry (second_address host prp2 remaining) prp2 room (entry 0)
                      offset 4096 remaining (omega (arith, far)) apart near words)
                    (Apart-rest prp2 room 4096 remaining _ _ (omega (arith, far)) apart on))
                  λ after.
                    Placed-step m (second_address host prp2 remaining) _ prp2 room (entry 0) offset
                      4096 remaining after (omega (arith, far)) apart near on)
          | inr q ↦
              let n : io_size prp2 remaining ≡ remaining = ground (arith, q, l.page) in
              let short : leb remaining 4096 ≡ true = ground (arith, q) in
              let rest : remaining - remaining ≡ 0 = omega arith in
              rw (q, n, rest, perform-end fuel)
                (returns (
                  Placed-step m (second_address host prp2 remaining) (λ j. 0) prp2
                    (list_count prp2 remaining) prp2 offset remaining remaining _ (omega arith) a
                    (λ j h. rw short refl) (λ j h. absurd (omega arith))
                    (record {
                      kept = refl;
                      placed = λ j h. absurd (omega arith);
                      others = λ b h. refl;
                    })))
        ])

pub perform-all :
    (prp1 prp2 : ℕ) (m : Memory) (fuel n offset : ℕ)
    → n ≤ fuel
    → Listed m.host prp2 (n - (4096 - prp1 % 4096))
    → Apart prp2 (list_count prp2 (n - (4096 - prp1 % 4096))) (prp_address m.host prp1 prp2 n) n
    → Returns
        (Placed m (prp_address m.host prp1 prp2 n) offset n)
        (perform fuel to_host prp1 prp2 first_prp n offset m)
unfolding perform next_prp
perform-all prp1 prp2 m zero n offset f l a =
    let done : n ≡ 0 = omega arith in
    rw done
      (returns (record { kept = refl; placed = λ j h. absurd (omega arith); others = λ b h. refl }))
perform-all prp1 prp2 m (suc fuel) n offset f l a =
    Returns-if (n == 0)
      (λ z. returns (record {
        kept = refl;
        placed = λ j h. absurd (ground (arith, z, h));
        others = λ b h. refl;
      }))
      (λ z.
        let size = io_size prp1 n in
        let first = 4096 - prp1 % 4096 in
        let count = list_count prp2 (n - first) in
        let is : size ≡ (if leb n first then n else first) = ground arith in
        let le : size ≤ n = ground (arith, is) in
        let left : n - size ≡ n - first = ground (arith, is) in
        let near : (j : ℕ) → j < size → prp_address m.host prp1 prp2 n j ≡ prp1 + j =
          λ j h. let in_first : ltb j first ≡ true = ground (arith, is, h) in rw in_first refl in
        let far : (j : ℕ)
            → j < n - size
            → second_address m.host prp2 (n - size) j ≡ prp_address m.host prp1 prp2 n (size + j) =
          λ j h.
            let whole : size ≡ first = ground (arith, is, h) in
            let behind : ltb (first + j) first ≡ false = ground arith in
            let back : first + j - first ≡ j = omega arith in rw (whole, behind, back) refl in
        Returns-mono
          (perform-behind prp1 prp2 m.host fuel (n - size) (offset + size)
            (move to_host m prp1 offset size) (ground (arith, is, z, f))
            (subst (Listed m.host prp2) (sym left) l)
            (subst
              (λ x.
                Words prp2 (list_count prp2 x) (λ i. u64_at m.host (prp2 + 8 * i))
                  (move to_host m prp1 offset size).host)
              (sym left)
              (Words-step m (λ i. u64_at m.host (prp2 + 8 * i)) (prp_address m.host prp1 prp2 n)
                prp2 count prp1 offset size n le a near (λ i h. refl)))
            (subst
              (λ x.
                Apart prp2 (list_count prp2 x) (second_address m.host prp2 (n - size)) (n - size))
              (sym left) (Apart-rest prp2 count size n _ _ le a far)))
          λ after. Placed-step m _ _ prp2 count prp1 offset size n after le a near far)

-- A read puts the bytes of the storage, in their order, at the host addresses that the PRP entries give
-- them, and leaves every other byte of the host and the storage as they were. Condition: the host
-- provides the second page or the list of pages, the addresses of the bytes are different and not in
-- the list, and the range has a 64-bit address.
pub do_perform_io-Placed :
    (slba length prp1 prp2 : ℕ) (m : Memory)
    → slba * 2 ^ lba_bits < 2 ^ 64
    → Listed m.host prp2 ((length + 1) * 2 ^ lba_bits - (4096 - prp1 % 4096))
    → Apart prp2
        (list_count prp2 ((length + 1) * 2 ^ lba_bits - (4096 - prp1 % 4096)))
        (prp_address m.host prp1 prp2 ((length + 1) * 2 ^ lba_bits))
        ((length + 1) * 2 ^ lba_bits)
    → Returns
        (λ (r : ℕ × Memory).
          (r.0 ≡ (length + 1) * 2 ^ lba_bits)
          × Placed m
              (prp_address m.host prp1 prp2 ((length + 1) * 2 ^ lba_bits))
              (slba * 2 ^ lba_bits)
              ((length + 1) * 2 ^ lba_bits)
              r.1)
        (do_perform_io to_host slba length prp1 prp2 m)
unfolding do_perform_io
do_perform_io-Placed slba length prp1 prp2 m b l a =
    let bytes = (length + 1) * 2 ^ lba_bits in
    let start : u64 (slba * 2 ^ lba_bits) ≡ slba * 2 ^ lba_bits = omega (arith, b) in
    rw start (
      Returns-bind (perform-all prp1 prp2 m bytes bytes (slba * 2 ^ lba_bits) (omega arith) l a)
        λ after h. returns (refl, h))
