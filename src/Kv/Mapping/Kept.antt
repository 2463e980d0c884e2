-- ===== src/Kv/Mapping/Kept.antt =====
-- The values that searches give in a table with one more key.
use nvme_virt.Prelude.{
  ℕ, suc, ◌≡◌, ◌≢◌, refl, sym, ap, ◌∙◌, true, false, Option, none, some, inl, inr, Returns-inv,
  arith,
}
use nvme_virt.Kv.State.{KvTable, Key, is_empty, same_bytes}
use nvme_virt.Kv.Mapping.{find_key}
use nvme_virt.Kv.Mapping.Chained.{IsChained, IsShort}
use nvme_virt.Kv.Mapping.Search.{home, find_key-Returns, find_key-full, find_key-settled}
use nvme_virt.Kv.Mapping.Extended.{Extends, find_key-extends}
use nvme_virt.Kv.Mapping.Reordered.{extends-IsChained}
use nvme_virt.Kv.Mapping.Removed.{home-lt, value_of, slot_value, value_of-slot}

module _ (kv kv' : KvTable) (n : ℕ) (c : IsChained kv) (x : Extends kv kv' n) where
  slot_value-kept :
      (t : ℕ)
      → is_empty (kv.kv_mapping_table t) ≡ false
      → slot_value kv' (some t) ≡ slot_value kv (some t)
  slot_value-kept t full =
      let other : t ≢ n =
        λ (e : t ≡ n). (let clash : true ≡ false = sym x.was_empty ∙ (rw (← e) full) in cc) in
      elim (x.others t other) [ inl same ↦ rw same refl | inr (tail, same) ↦ rw same refl ]

  slot_value-found :
      (q : Key) (r : Option ℕ)
      → IsShort q
      → find_key (suc kv.hash_slots) kv q (home kv q) ≡ some r
      → slot_value kv' r ≡ slot_value kv r
  slot_value-found q none k f = refl
  slot_value-found q (some t) k f =
      slot_value-kept t
        (find_key-full kv q c k t (suc kv.hash_slots) (home kv q) (home-lt kv q c) f)

  -- what a search in `kv'` with one more round gives is what a command learns
  pub value_of-at :
      (q : Key) (r : Option ℕ)
      → IsShort q
      → find_key (suc (suc kv.hash_slots)) kv' q (home kv q) ≡ some r
      → value_of kv' q ≡ some (slot_value kv' r)
  value_of-at q r k f =
      let c' = extends-IsChained kv kv' n c x in
      let f' : find_key (suc (suc kv'.hash_slots)) kv' q (home kv' q) ≡ some r = simp (x.slots) f in
      rw (
        value_of-slot kv' q c'.some_slots k,
        find_key-settled kv' q c' k (home kv' q) r (home-lt kv' q c') f',
      )

  pub value_of-kept :
      (q : Key)
      → IsShort q
      → same_bytes q.bytes (kv'.kv_mapping_table n).key q.len ≡ false
      → value_of kv' q ≡ value_of kv q
  value_of-kept q k m =
      let (r, f, _) =
        Returns-inv
          (find_key-Returns kv q c k kv.hash_slots (home kv q) (home-lt kv q c) (omega arith)) in
      value_of-at q r k
        (find_key-extends kv kv' n c x q k (suc kv.hash_slots) (home kv q) r (home-lt kv q c) m f)
      ∙ ap some (slot_value-found q r k f)
      ∙ sym (value_of-slot kv q c.some_slots k ∙ (rw f refl))
