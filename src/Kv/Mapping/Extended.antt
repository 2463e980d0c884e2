-- ===== src/Kv/Mapping/Extended.antt =====
-- A table with one more key in it: what was found is still found, and other keys do not see the new one.
use nvme_virt.Prelude.{
  ℕ, zero, suc, ◌<◌, ◌≡◌, ◌≢◌, ◌⊎◌, refl, sym, ◌∙◌, true, false, Option, none, some, ◌==◌, ==_iff,
  if◌then◌else◌, Bool-cases, inl, inr, arith,
}
use nvme_virt.Kv.State.{no_slot, KvTable, Key, is_empty, same_bytes}
use nvme_virt.Kv.Mapping.{find_key, find_tail}
use nvme_virt.Kv.Mapping.Chained.{IsChained, IsShort}
use nvme_virt.Kv.Mapping.Search.{step_from, find_key-step, entry_at-in}
use nvme_virt.Kv.Mapping.Places.{IsTail}

-- The new slot `n` was empty and now ends its chain; another slot is as it was, or is the tail that now
-- leads to `n`.
pub record Extends (kv kv' : KvTable) (n : ℕ) : Type 0 where
  pub slots : kv'.hash_slots ≡ kv.hash_slots
  pub inside : n < kv.hash_slots
  pub was_empty : is_empty (kv.kv_mapping_table n) ≡ true
  pub now_full : is_empty (kv'.kv_mapping_table n) ≡ false
  pub now_last : (kv'.kv_mapping_table n).next_slot ≡ no_slot
  pub others :
      (s : ℕ)
      → s ≢ n
      → (kv'.kv_mapping_table s ≡ kv.kv_mapping_table s)
        ⊎ (IsTail kv s
            × (kv'.kv_mapping_table s ≡ record (kv.kv_mapping_table s) { next_slot = n }))

module _ (kv kv' : KvTable) (n : ℕ) (c : IsChained kv) (x : Extends kv kv' n) (q : Key)
    (k : IsShort q) where
  -- at the new slot a key that does not match it is not found
  at_new :
      (fuel : ℕ)
      → same_bytes q.bytes (kv'.kv_mapping_table n).key q.len ≡ false
      → find_key (suc fuel) kv' q n ≡ some none
  at_new fuel m =
      rw (find_key-step fuel kv' q n k (omega (arith, x.inside, x.slots)))
        (rw (x.now_full, m, x.now_last) refl)

  nothing_at_empty :
      (fuel t : ℕ) (r : Option ℕ)
      → t < kv.hash_slots
      → is_empty (kv.kv_mapping_table t) ≡ true
      → find_key fuel kv q t ≡ some r
      → r ≡ none
  nothing_at_empty zero t r h e p = absurd (unfold find_key in (cc))
  nothing_at_empty (suc fuel) t r h e p =
      let p' = sym (find_key-step fuel kv q t k h) ∙ p in ground (arith, p', e)

  -- the tail, which now leads to the new slot
  at_tail :
      (fuel s : ℕ) (r : Option ℕ)
      → s < kv.hash_slots
      → same_bytes q.bytes (kv'.kv_mapping_table n).key q.len ≡ false
      → IsTail kv s
      → step_from fuel kv q s ≡ some r
      → (if is_empty (kv.kv_mapping_table s)
          then some none
          else if same_bytes q.bytes (kv.kv_mapping_table s).key q.len
          then some (some s)
          else if n == no_slot
          then some none
          else find_key (suc fuel) kv' q n)
        ≡ some r
  at_tail fuel s r h m tail p =
      let a : n < kv.hash_slots = x.inside in
      let b : kv.hash_slots < no_slot = c.few_slots in
      let new : find_key (suc fuel) kv' q n ≡ some none = at_new fuel m in
      elim tail.2 [
        | inl last ↦ ground (arith, tail.1, last, new, a, b)
        | inr next ↦ ground (
          arith,
          tail.1,
          new,
          a,
          b,
          c.link s h,
          nothing_at_empty fuel (kv.kv_mapping_table s).next_slot r,
          next,
        )
      ]

  still_step :
      (fuel s : ℕ) (r : Option ℕ)
      → s < kv.hash_slots
      → same_bytes q.bytes (kv'.kv_mapping_table n).key q.len ≡ false
      → ((t : ℕ)
          → t < kv.hash_slots
          → find_key fuel kv q t ≡ some r
          → find_key (suc fuel) kv' q t ≡ some r)
      → step_from fuel kv q s ≡ some r
      → step_from (suc fuel) kv' q s ≡ some r
  still_step fuel s r h m rec p = elim (Bool-cases (s == n)) [
    | inl e ↦
        let same : s ≡ n = (==_iff s n).0 e in
        let was : step_from fuel kv q n ≡ some r = rw same at p in
        rw (same, x.now_full, m, x.now_last) (rw x.was_empty at was)
    | inr e ↦ elim (x.others s (ground (arith, e))) [
      | inl same ↦ rw same (ground (arith, c.link s h, rec (kv.kv_mapping_table s).next_slot))
      | inr (tail, same) ↦ rw same (at_tail fuel s r h m tail p)
    ]
  ]

  -- Every search that ends in `kv` ends in `kv'` with one more round, and finds the same.
  pub find_key-extends :
      (fuel s : ℕ) (r : Option ℕ)
      → s < kv.hash_slots
      → same_bytes q.bytes (kv'.kv_mapping_table n).key q.len ≡ false
      → find_key fuel kv q s ≡ some r
      → find_key (suc fuel) kv' q s ≡ some r
  find_key-extends zero s r h m p = absurd (unfold find_key in (cc))
  find_key-extends (suc fuel) s r h m p = rw (find_key-step (suc fuel) kv' q s k (rw x.slots h)) (
      still_step fuel s r h m (λ t g. find_key-extends fuel t r g m)
        (sym (find_key-step fuel kv q s k h) ∙ p))

  pub at_hit :
      (fuel : ℕ)
      → same_bytes q.bytes (kv'.kv_mapping_table n).key q.len ≡ true
      → find_key (suc fuel) kv' q n ≡ some (some n)
  at_hit fuel m =
      rw (find_key-step fuel kv' q n k (omega (arith, x.inside, x.slots))) (rw (x.now_full, m) refl)

  tail_step :
      (fuel prevs s : ℕ)
      → s < kv.hash_slots
      → find_tail (suc fuel) kv prevs s ≡ (
          if is_empty (kv.kv_mapping_table s)
          then some prevs
          else if (kv.kv_mapping_table s).next_slot == no_slot
          then some s
          else find_tail fuel kv s (kv.kv_mapping_table s).next_slot)
  tail_step fuel prevs s h = unfold find_tail in (rw (entry_at-in kv s h) refl)

  tail_at_empty :
      (fuel prevs s p : ℕ)
      → s < kv.hash_slots
      → is_empty (kv.kv_mapping_table s) ≡ true
      → find_tail fuel kv prevs s ≡ some p
      → prevs ≡ p
  tail_at_empty zero prevs s p h e f = absurd (unfold find_tail in (cc))
  tail_at_empty (suc fuel) prevs s p h e f =
      let f' = sym (tail_step fuel prevs s h) ∙ f in ground (arith, f', e)

  module _ (p : ℕ)
      (linked : kv'.kv_mapping_table p ≡ record (kv.kv_mapping_table p) { next_slot = n })
      (hit : same_bytes q.bytes (kv'.kv_mapping_table n).key q.len ≡ true) where
    -- one step of the search for the new key, at a slot that is taken
    new_step :
        (fuel s : ℕ)
        → s < kv.hash_slots
        → is_empty (kv.kv_mapping_table s) ≡ false
        → (s ≢ p
            → ((kv.kv_mapping_table s).next_slot ≢ no_slot)
              × (find_key (suc fuel) kv' q (kv.kv_mapping_table s).next_slot ≡ some (some n)))
        → step_from fuel kv q s ≡ some none
        → step_from (suc fuel) kv' q s ≡ some (some n)
    new_step fuel s h e rec f =
        let a : n < kv.hash_slots = x.inside in
        let b : kv.hash_slots < no_slot = c.few_slots in
        let new : find_key (suc fuel) kv' q n ≡ some (some n) = at_hit fuel hit in
        let other : s ≢ n =
          λ (t : s ≡ n). (let clash : true ≡ false = sym x.was_empty ∙ (rw (← t) e) in cc) in
        elim (Bool-cases (s == p)) [
          | inl t ↦
              let same : s ≡ p = (==_iff s p).0 t in
              rw (same, linked)
                (let f' : step_from fuel kv q p ≡ some none = rw same at f in
                  let e' : is_empty (kv.kv_mapping_table p) ≡ false = rw same at e in
                  ground (arith, f', e', a, b, new))
          | inr t ↦ elim (x.others s other) [
            | inl same ↦ rw same (ground (arith, e, rec (ground (arith, t))))
            | inr (tail, same) ↦ rw same (ground (arith, e, a, b, new))
          ]
        ]

    -- The search for the new key ends at the new slot behind the tail of its chain.
    pub find_key-new :
        (fuel g prevs s : ℕ)
        → s < kv.hash_slots
        → is_empty (kv.kv_mapping_table s) ≡ false
        → find_key fuel kv q s ≡ some none
        → find_tail g kv prevs s ≡ some p
        → find_key (suc fuel) kv' q s ≡ some (some n)
    find_key-new zero g prevs s h e f t = absurd (unfold find_key in (cc))
    find_key-new (suc fuel) zero prevs s h e f t = absurd (unfold find_tail in (cc))
    find_key-new (suc fuel) (suc g) prevs s h e f t =
        let f' : step_from fuel kv q s ≡ some none = sym (find_key-step fuel kv q s k h) ∙ f in
        let t' = sym (tail_step g prevs s h) ∙ t in
        let next = (kv.kv_mapping_table s).next_slot in
        rw (find_key-step (suc fuel) kv' q s k (rw x.slots h)) (
          new_step fuel s h e
            (λ other.
              let far : next ≢ no_slot = λ z. other (ground (arith, t', e, z)) in
              let (inside, up) = c.link s h far in
              let on : find_tail g kv s next ≡ some p = ground (arith, t', e, far) in
              let there : find_key fuel kv q next ≡ some none = ground (arith, f', e, far) in
              let full : is_empty (kv.kv_mapping_table next) ≡ false =
                elim (Bool-cases (is_empty (kv.kv_mapping_table next))) [
                  | inl w ↦ absurd (other (tail_at_empty g s next p inside w on))
                  | inr w ↦ w
                ] in
              (far, find_key-new fuel g s next inside full there on))
            f')
