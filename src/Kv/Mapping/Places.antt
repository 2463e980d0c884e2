-- ===== src/Kv/Mapping/Places.antt =====
-- The slot for a new key: the end of the chain, and the first empty slot behind it.
use nvme_virt.Prelude.{
  ℕ, zero, suc, ◌+◌, ◌-◌, ◌≤◌, ◌<◌, ◌≡◌, ◌≢◌, ◌⊎◌, refl, true, false, some, Returns-inv,
  Returns-bind, leb, ◌==◌, ==_iff, if◌then◌else◌, inl, inr, Returns, returns, Returns-if, arith,
}
use nvme_virt.Kv.State.{no_slot, KvTable, is_empty}
use nvme_virt.Kv.Mapping.{find_tail, slot_after, probe, find_next_slot, place}
use nvme_virt.Kv.Mapping.Chained.{IsChained}
use nvme_virt.Kv.Mapping.Search.{entry_at-in}

-- A taken slot whose link, if it has one, leads to an empty slot.
abbrev pub IsTail : KvTable → ℕ → Type 0
IsTail kv p =
    let e = kv.kv_mapping_table p in
    (p < kv.hash_slots)
    × (is_empty e ≡ false)
    × ((e.next_slot ≡ no_slot) ⊎ (is_empty (kv.kv_mapping_table e.next_slot) ≡ true))

module _ (kv : KvTable) (c : IsChained kv) where
  pub find_tail-IsTail :
      (fuel prevs s : ℕ)
      → s < kv.hash_slots
      → kv.hash_slots ≤ fuel + c.rank s
      → (is_empty (kv.kv_mapping_table s) ≡ true → IsTail kv prevs)
      → Returns (IsTail kv) (find_tail (suc fuel) kv prevs s)
  unfolding find_tail
  find_tail-IsTail zero prevs s h f before = absurd (omega (arith, c.bound s h))
  find_tail-IsTail (suc fuel) prevs s h f before =
      let e = kv.kv_mapping_table s in
      rw (entry_at-in kv s h) (
        Returns-if (is_empty e) (λ q. returns (before q))
          λ q.
            Returns-if (e.next_slot == no_slot)
              (λ z. returns (h, q, inl ((==_iff e.next_slot no_slot).0 z)))
              λ z.
                let (inside, up) = c.link s h (ground (arith, z)) in
                find_tail-IsTail fuel s e.next_slot inside (omega arith) (λ w. (h, q, inr w)))

  -- the steps from the slot `s` to the empty slot `free`
  abbrev steps_to : ℕ → ℕ → ℕ
  steps_to free s = if leb s free then free - s else free + kv.hash_slots - s

  pub probe-Returns :
      (free fuel s : ℕ)
      → free < kv.hash_slots
      → is_empty (kv.kv_mapping_table free) ≡ true
      → s < kv.hash_slots
      → steps_to free s < fuel
      → Returns
          (λ n. (n < kv.hash_slots) × (is_empty (kv.kv_mapping_table n) ≡ true))
          (probe fuel kv s)
  unfolding probe
  probe-Returns free zero s g e h f = absurd (omega arith)
  probe-Returns free (suc fuel) s g e h f = rw (entry_at-in kv s h) (
      Returns-if (is_empty (kv.kv_mapping_table s)) (λ q. returns (h, q))
        λ q.
          let other : s ≢ free = λ p. (let clash : true ≡ false = rw (← e, ← p) q in cc) in
          probe-Returns free fuel (slot_after kv s) g e (ground (arith, c.few_slots))
            (ground (arith, c.few_slots, other)))

-- The place of a new key whose search begins at `home`: an empty `home`, or an empty slot behind the
-- tail of the chain of a taken one.
abbrev pub Placed : KvTable → ℕ → ℕ × ℕ → Type 0
Placed kv home (n, prev) =
    (n < kv.hash_slots)
    × (is_empty (kv.kv_mapping_table n) ≡ true)
    × (((n ≡ home) × (prev ≡ no_slot))
        ⊎ ((is_empty (kv.kv_mapping_table home) ≡ false)
            × IsTail kv prev
            × (find_tail (suc kv.hash_slots) kv no_slot home ≡ some prev)))

pub place-Placed :
    (kv : KvTable) (home free : ℕ)
    → IsChained kv
    → home < kv.hash_slots
    → free < kv.hash_slots
    → is_empty (kv.kv_mapping_table free) ≡ true
    → Returns (Placed kv home) (place kv home)
unfolding place find_next_slot
place-Placed kv home free c h g e = rw (entry_at-in kv home h) (
    Returns-if (is_empty (kv.kv_mapping_table home)) (λ q. returns (h, q, inl (refl, refl)))
      (λ q.
        let (p, tail, t) =
          Returns-inv
            (find_tail-IsTail kv c kv.hash_slots no_slot home h (omega arith) (λ w. absurd (cc))) in
        rw tail (
          Returns-bind (probe-Returns kv c free (suc kv.hash_slots) p g e t.0 (ground arith))
            λ n found. returns (found.0, found.1, inr (q, t, tail)))))
