-- ===== src/Worker/Prp/Places.antt =====
-- The bytes that a read moves, one by one.
use nvme_virt.Prelude.{
  ℕ, zero, suc, ◌+◌, ◌-◌, ◌*◌, ◌/◌, ◌%◌, ◌≤◌, ◌<◌, ◌≡◌, ◌≢◌, refl, sym, subst, ap, ◌∙◌, some, true,
  ◌==◌, ◌&&◌, ltb, leb, if◌then◌else◌, Returns, returns, Returns-if, Returns-mono, Bool-cases, inl,
  inr, arith,
}
use nvme_virt.Worker.Prp.{Memory, to_host, u64_at, io_size, copy, move, perform}
use nvme_virt.Worker.Prp.Pieces.{next_prp-list, near_entry, far_entry}

-- Byte `j` of the storage stands at its address in the host, and everything else is as before.
pub record Placed (m : Memory) (address : ℕ → ℕ) (offset n : ℕ) (after : Memory) : Type 0 where
  pub kept : after.storage ≡ m.storage
  pub placed : (j : ℕ) → j < n → after.host (address j) ≡ m.storage (offset + j)
  pub others : (a : ℕ) → ((j : ℕ) → j < n → a ≢ address j) → after.host a ≡ m.host a

-- The addresses of the bytes are different, and none is in the first `count` entries of the list.
pub record Apart (prp2 count : ℕ) (address : ℕ → ℕ) (n : ℕ) : Type 0 where
  pub inj : (i j : ℕ) → i < n → j < n → address i ≡ address j → i ≡ j
  pub list : (i b j : ℕ) → i < count → b < 8 → j < n → prp2 + 8 * i + b ≢ address j

-- the entries of the list, as they are before the transfer
abbrev pub Words : ℕ → ℕ → (ℕ → ℕ) → (ℕ → ℕ) → Type 0
Words prp2 count entry host = (i : ℕ) → i < count → u64_at host (prp2 + 8 * i) ≡ entry i

pub Apart-rest :
    (prp2 count n m : ℕ) (address rest : ℕ → ℕ)
    → n ≤ m
    → Apart prp2 count address m
    → ((j : ℕ) → j < m - n → rest j ≡ address (n + j))
    → Apart prp2 count rest (m - n)
Apart-rest prp2 count n m address rest le a far = record {
  inj = λ i j h k e.
      let same =
        a.inj (n + i) (n + j) (omega (arith, h)) (omega (arith, k)) (sym (far i h) ∙ e ∙ far j k) in
      omega (arith, same);
  list = λ i b j h k l e. a.list i b (n + j) h k (omega (arith, l)) (e ∙ far j l);
}

copy-outside :
    (dst src : ℕ → ℕ) (d s n a : ℕ) (address : ℕ → ℕ)
    → ((j : ℕ) → j < n → address j ≡ d + j)
    → ((j : ℕ) → j < n → a ≢ address j)
    → copy dst d src s n a ≡ dst a
copy-outside dst src d s n a address near out = elim (Bool-cases (leb d a && ltb a (d + n))) [
  | inl q ↦
      let j : a - d < n = ground (arith, q) in
      let at : a ≡ address (a - d) = ground (arith, q) ∙ sym (near (a - d) j) in
      absurd (out (a - d) j at)
  | inr q ↦ rw q refl
]

pub Placed-step :
    (m : Memory) (address rest : ℕ → ℕ) (prp2 count paddr offset n remaining : ℕ) (after : Memory)
    → n ≤ remaining
    → Apart prp2 count address remaining
    → ((j : ℕ) → j < n → address j ≡ paddr + j)
    → ((j : ℕ) → j < remaining - n → rest j ≡ address (n + j))
    → Placed (move to_host m paddr offset n) rest (offset + n) (remaining - n) after
    → Placed m address offset remaining after
Placed-step m address rest prp2 count paddr offset n remaining after le ap_ near far p = record {
  kept = p.kept;
  placed = λ j h. elim (Bool-cases (ltb j n)) [
    | inl q ↦
        let small : j < n = ground (arith, q) in
        let free : (i : ℕ) → i < remaining - n → address j ≢ rest i = λ i k e.
          let same = ap_.inj j (n + i) h (omega (arith, k)) (e ∙ far i k) in
          omega (arith, same, small) in
        p.others (address j) free
        ∙ ap (copy m.host paddr m.storage offset n) (near j small)
        ∙ here j small
    | inr q ↦
        let k : j - n < remaining - n = ground (arith, q, h) in
        let same : n + (j - n) ≡ j = ground (arith, q) in
        let on : offset + n + (j - n) ≡ offset + j = ground (arith, q) in
        ap after.host (ap address (sym same) ∙ sym (far (j - n) k))
        ∙ p.placed (j - n) k
        ∙ ap m.storage on
  ];
  others = λ a out.
      p.others a (λ i k e. out (n + i) (omega (arith, k)) (e ∙ far i k))
      ∙ copy-outside m.host m.storage paddr offset n a address near
          (λ j h. out j (omega (arith, h, le)));
}
  where
    here :
        (j : ℕ) → j < n → copy m.host paddr m.storage offset n (paddr + j) ≡ m.storage (offset + j)
    here j h =
        let inside : (leb paddr (paddr + j) && ltb (paddr + j) (paddr + n)) ≡ true =
          ground (arith, h) in
        let back : paddr + j - paddr ≡ j = omega arith in rw (inside, back) refl

pub Words-step :
    (m : Memory) (entry address : ℕ → ℕ) (prp2 count paddr offset n remaining : ℕ)
    → n ≤ remaining
    → Apart prp2 count address remaining
    → ((j : ℕ) → j < n → address j ≡ paddr + j)
    → Words prp2 count entry m.host
    → Words prp2 count entry (copy m.host paddr m.storage offset n)
Words-step m entry address prp2 count paddr offset n remaining le ap_ near w i h =
    let first : copy m.host paddr m.storage offset n (prp2 + 8 * i) ≡ m.host (prp2 + 8 * i) =
      subst (λ a. copy m.host paddr m.storage offset n a ≡ m.host a) (omega arith)
        (keep 0 (omega arith)) in
    rw
      (
        first,
        keep 1 (omega arith),
        keep 2 (omega arith),
        keep 3 (omega arith),
        keep 4 (omega arith),
        keep 5 (omega arith),
        keep 6 (omega arith),
        keep 7 (omega arith),
      )
      (w i h)
  where
    keep :
        (b : ℕ)
        → b < 8
        → copy m.host paddr m.storage offset n (prp2 + 8 * i + b) ≡ m.host (prp2 + 8 * i + b)
    keep b k =
        copy-outside m.host m.storage paddr offset n (prp2 + 8 * i + b) address near
          (λ j l. ap_.list i b j h k (omega (arith, l, le)))

module _ (prp1 prp2 count : ℕ) (entry : ℕ → ℕ) (room : count ≤ (4096 - prp2 % 4096) / 8) where
  pub perform-listed :
      (fuel k offs remaining offset : ℕ) (m : Memory)
      → 2 ≤ offs
      → remaining ≤ fuel
      → remaining ≤ 4096 * (count - k)
      → ((i : ℕ) → k ≤ i → 4096 * (i - k) < remaining → entry i % 4096 ≡ 0)
      → Words prp2 count entry m.host
      → Apart prp2 count (λ j. entry (k + j / 4096) + j % 4096) remaining
      → Returns (Placed m (λ j. entry (k + j / 4096) + j % 4096) offset remaining) (
          perform fuel to_host prp1 prp2
            (record { prp_offs = offs; prp2_offs = k; list = some prp2 })
            remaining
            offset
            m)
  unfolding perform
  perform-listed zero k offs remaining offset m o f r al w a =
      let done : remaining ≡ 0 = omega arith in
      rw done (
        returns
          (record { kept = refl; placed = λ j h. absurd (omega arith); others = λ b h. refl }))
  perform-listed (suc fuel) k offs remaining offset m o f r al w a =
      Returns-if (remaining == 0)
        (λ z. returns (record {
          kept = refl;
          placed = λ j h. absurd (ground (arith, z, h));
          others = λ b h. refl;
        }))
        (λ z.
          let inside : k < count = ground (arith, z, r) in
          let fits : prp2 % 4096 + 8 * k + 8 ≤ 4096 = omega (arith, inside, room) in
          let paddr = entry k in
          let n = io_size paddr remaining in
          let size : n ≡ (if leb remaining 4096 then remaining else 4096) =
            ground (arith, al k (omega arith) (ground (arith, z))) in
          let le : n ≤ remaining = ground (arith, size) in
          let near : (j : ℕ) → j < n → entry (k + j / 4096) + j % 4096 ≡ paddr + j =
            λ j h. near_entry entry k j (ground (arith, size, h)) in
          let far : (j : ℕ)
              → j < remaining - n
              → entry (k + 1 + j / 4096) + j % 4096 ≡ entry (k + (n + j) / 4096) + (n + j) % 4096 =
            λ j h.
              let whole : n ≡ 4096 = ground (arith, size, h) in
              let back : 4096 + j - 4096 ≡ j = omega arith in
              rw whole (
                subst
                  (λ x.
                    entry (k + 1 + x / 4096) + x % 4096
                    ≡ entry (k + (4096 + j) / 4096) + (4096 + j) % 4096)
                  back (sym (far_entry entry k (4096 + j) (omega arith)))) in
          rw (next_prp-list prp1 prp2 m.host k offs remaining o fits, w k inside)
            (Returns-mono
              (perform-listed fuel (k + 1) (offs + 1) (remaining - n) (offset + n)
                (move to_host m paddr offset n) (omega arith) (ground (arith, size, z, f))
                (ground (arith, size, z, r))
                (λ i h l. al i (omega (arith, h)) (ground (arith, size, h, l)))
                (Words-step m entry (λ j. entry (k + j / 4096) + j % 4096) prp2 count paddr offset n
                  remaining le a near w)
                (Apart-rest prp2 count n remaining _ _ le a far))
              λ after. Placed-step m _ _ prp2 count paddr offset n remaining after le a near far))
