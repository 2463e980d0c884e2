-- ===== src/Worker/Prp/Pieces.antt =====
-- The pieces of a write behind its first page, and the bytes that they move.
use nvme_virt.Prelude.{
  ℕ, zero, suc, ◌+◌, ◌-◌, ◌*◌, ◌/◌, ◌%◌, ◌≤◌, ◌<◌, ◌≡◌, refl, ap, ◌∙◌, some, true, false, ◌==◌,
  ◌&&◌, ltb, leb, if◌then◌else◌, Returns, returns, Returns-if, Returns-mono, Bool-cases, inl, inr,
  arith,
}
use nvme_virt.Worker.Prp.{Memory, to_storage, u64_at, list_entry, next_prp, io_size, move, perform}

-- The storage `after` holds what the address of each byte holds, on `n` bytes from `offset` on.
abbrev pub Moved : Memory → (ℕ → ℕ) → ℕ → ℕ → Memory → Type 0
Moved m address offset n after =
    (after.host ≡ m.host)
    × ((a : ℕ)
        → after.storage a ≡ (
            if leb offset a && ltb a (offset + n)
            then m.host (address (a - offset))
            else m.storage a))

-- byte `j` of the pages from entry `k` of the list on
abbrev pub list_address : (ℕ → ℕ) → ℕ → ℕ → ℕ → ℕ
list_address host list k j = u64_at host (list + 8 * (k + j / 4096)) + j % 4096

-- one piece, and then the rest
pub Moved-step :
    (m : Memory) (address rest : ℕ → ℕ) (paddr offset n remaining : ℕ) (after : Memory)
    → n ≤ remaining
    → ((j : ℕ) → j < n → address j ≡ paddr + j)
    → ((j : ℕ) → n ≤ j → j < remaining → address j ≡ rest (j - n))
    → Moved (move to_storage m paddr offset n) rest (offset + n) (remaining - n) after
    → Moved m address offset remaining after
Moved-step m address rest paddr offset n remaining after le near far (h, e) = (h, go)
  where
    go :
        (a : ℕ)
        → after.storage a ≡ (
            if leb offset a && ltb a (offset + remaining)
            then m.host (address (a - offset))
            else m.storage a)
    go a = elim (Bool-cases (leb (offset + n) a)) [
      | inl q ↦ elim (Bool-cases (ltb a (offset + remaining))) [
        | inl w ↦
            let same : address (a - offset) ≡ rest (a - (offset + n)) =
              far (a - offset) (ground (arith, q)) (ground (arith, q, w))
              ∙ ap rest (ground (arith, q)) in
            e a ∙ rw same (ground (arith, q, w, le))
        | inr w ↦ e a ∙ ground (arith, q, w, le)
      ]
      | inr q ↦ elim (Bool-cases (leb offset a)) [
        | inl w ↦
            let same : address (a - offset) ≡ paddr + (a - offset) =
              near (a - offset) (ground (arith, q, w)) in
            e a ∙ rw same (ground (arith, q, w, le))
        | inr w ↦ e a ∙ ground (arith, q, w, le)
      ]
    ]

pub near_entry :
    (entry : ℕ → ℕ) (k j : ℕ) → j < 4096 → entry (k + j / 4096) + j % 4096 ≡ entry k + j
near_entry entry k j h =
    let d : k + j / 4096 ≡ k = omega arith in let r : j % 4096 ≡ j = omega arith in rw (d, r) refl

pub far_entry :
    (entry : ℕ → ℕ) (k j : ℕ)
    → 4096 ≤ j
    → entry (k + j / 4096) + j % 4096 ≡ entry (k + 1 + (j - 4096) / 4096) + (j - 4096) % 4096
far_entry entry k j h =
    let d : k + 1 + (j - 4096) / 4096 ≡ k + j / 4096 = omega arith in
    let r : (j - 4096) % 4096 ≡ j % 4096 = omega arith in rw (d, r) refl

module _ (prp1 prp2 : ℕ) where
  pub next_prp-list :
      (host : ℕ → ℕ) (k offs remaining : ℕ)
      → 2 ≤ offs
      → prp2 % 4096 + 8 * k + 8 ≤ 4096
      → next_prp host prp1 prp2
          (record { prp_offs = offs; prp2_offs = k; list = some prp2 })
          remaining
        ≡ some (
          u64_at host (prp2 + 8 * k),
          record { prp_offs = offs + 1; prp2_offs = k + 1; list = some prp2 },
        )
  unfolding next_prp list_entry
  next_prp-list host k offs remaining o r =
      let c0 : (offs == 0) ≡ false = ground (arith, o) in
      let c1 : (offs == 1) ≡ false = ground (arith, o) in
      let fits : leb (prp2 % 4096 + 8 * k + 8) 4096 ≡ true = ground (arith, r) in
      rw (c0, c1, fits) refl

  pub perform-list :
      (fuel k offs remaining offset : ℕ) (m : Memory)
      → 2 ≤ offs
      → ((i : ℕ) → k ≤ i → 4096 * (i - k) < remaining → u64_at m.host (prp2 + 8 * i) % 4096 ≡ 0)
      → remaining ≤ fuel
      → remaining ≤ 4096 * ((4096 - prp2 % 4096) / 8 - k)
      → Returns (Moved m (list_address m.host prp2 k) offset remaining) (
          perform fuel to_storage prp1 prp2
            (record { prp_offs = offs; prp2_offs = k; list = some prp2 })
            remaining
            offset
            m)
  unfolding perform
  perform-list zero k offs remaining offset m o al f r =
      let done : remaining ≡ 0 = omega arith in rw done (returns (refl, λ a. ground arith))
  perform-list (suc fuel) k offs remaining offset m o al f r =
      Returns-if (remaining == 0) (λ z. returns (refl, λ a. ground (arith, z)))
        (λ z.
          let paddr = u64_at m.host (prp2 + 8 * k) in
          let room : prp2 % 4096 + 8 * k + 8 ≤ 4096 = ground (arith, z, r) in
          let n = io_size paddr remaining in
          let size : n ≡ (if leb remaining 4096 then remaining else 4096) =
            ground (arith, al k (omega arith) (ground (arith, z))) in
          rw (next_prp-list m.host k offs remaining o room) (
            Returns-mono
              (perform-list fuel (k + 1) (offs + 1) (remaining - n) (offset + n)
                (move to_storage m paddr offset n) (omega arith)
                (λ i h l. al i (omega (arith, h)) (ground (arith, size, h, l)))
                (ground (arith, size, z, f)) (ground (arith, size, z, r)))
              λ after.
                Moved-step m (list_address m.host prp2 k) (list_address m.host prp2 (k + 1)) paddr
                  offset n remaining after (ground (arith, size))
                  (λ j h.
                    near_entry (λ i. u64_at m.host (prp2 + 8 * i)) k j (ground (arith, size, h)))
                  (λ j h l.
                    let whole : n ≡ 4096 = ground (arith, size, h, l) in
                    rw whole (
                      far_entry (λ i. u64_at m.host (prp2 + 8 * i)) k j
                        (ground (arith, whole, h))))))
