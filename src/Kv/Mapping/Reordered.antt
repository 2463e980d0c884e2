-- ===== src/Kv/Mapping/Reordered.antt =====
-- A table with one more key in it is still a forest of chains: the new slot goes last in the order.
use nvme_virt.Prelude.{
  ℕ, ◌-◌, ◌<◌, ◌≡◌, ◌≢◌, sym, ◌∙◌, true, false, ltb, ◌==◌, ==_iff, if◌then◌else◌, Bool-cases, inl,
  inr, arith,
}
use nvme_virt.Kv.State.{no_slot, KvTable, is_empty}
use nvme_virt.Kv.Mapping.Chained.{IsChained}
use nvme_virt.Kv.Mapping.Extended.{Extends}

module _ (kv kv' : KvTable) (n : ℕ) (c : IsChained kv) (x : Extends kv kv' n) where
  abbrev moved_rank : ℕ → ℕ
  moved_rank s =
      if s == n
      then kv.hash_slots - 1
      else if ltb (c.rank n) (c.rank s)
      then c.rank s - 1
      else c.rank s

  moved_bound : (s : ℕ) → s < kv.hash_slots → moved_rank s < kv.hash_slots
  moved_bound s h = ground (arith, c.bound s h, c.some_slots)

  below_last : (s : ℕ) → s < kv.hash_slots → s ≢ n → moved_rank s < moved_rank n
  below_last s h e = ground (arith, c.bound s h, c.bound n x.inside, c.distinct s n h x.inside)

  moved_distinct :
      (s t : ℕ) → s < kv.hash_slots → t < kv.hash_slots → moved_rank s ≡ moved_rank t → s ≡ t
  moved_distinct s t h g e = ground (
    arith,
    below_last s h,
    below_last t g,
    c.distinct s t h g,
    c.distinct s n h x.inside,
    c.distinct t n g x.inside,
  )

  moved_up :
      (s t : ℕ)
      → s < kv.hash_slots
      → t < kv.hash_slots
      → s ≢ n
      → c.rank s < c.rank t
      → moved_rank s < moved_rank t
  moved_up s t h g e up =
      ground (arith, below_last s h, c.distinct s n h x.inside, c.distinct t n g x.inside)

  new_ends :
      (s : ℕ)
      → is_empty (kv'.kv_mapping_table s) ≡ true
      → (kv'.kv_mapping_table s).next_slot ≡ no_slot
  new_ends s e = elim (Bool-cases (s == n)) [
    | inl q ↦ rw ((==_iff s n).0 q) x.now_last
    | inr q ↦ elim (x.others s (ground (arith, q))) [
      | inl same ↦ rw same (c.ends s (rw same at e))
      | inr (tail, same) ↦ absurd (let clash : true ≡ false = sym (rw same at e) ∙ tail.1 in cc)
    ]
  ]

  new_link :
      (s : ℕ)
      → s < kv.hash_slots
      → (kv'.kv_mapping_table s).next_slot ≢ no_slot
      → ((kv'.kv_mapping_table s).next_slot < kv.hash_slots)
        × (moved_rank s < moved_rank (kv'.kv_mapping_table s).next_slot)
  new_link s h e = elim (Bool-cases (s == n)) [
    | inl q ↦ absurd (e (rw ((==_iff s n).0 q) x.now_last))
    | inr q ↦
        let other : s ≢ n = ground (arith, q) in
        elim (x.others s other) [
          | inl same ↦
              let (inside, up) = c.link s h (rw same at e) in
              rw same (inside, moved_up s (kv.kv_mapping_table s).next_slot h inside other up)
          | inr (tail, same) ↦ rw same (x.inside, below_last s h other)
        ]
  ]

  pub extends-IsChained : IsChained kv'
  extends-IsChained = record {
    rank = moved_rank;
    some_slots = rw x.slots c.some_slots;
    few_slots = rw x.slots c.few_slots;
    bound = rw x.slots moved_bound;
    distinct = rw x.slots moved_distinct;
    ends = new_ends;
    link = rw x.slots new_link;
  }
