-- ===== src/Kv/Namespace/Reached.antt =====
-- The mapping table of a key-value namespace after any commands that store, update and delete keys.
use nvme_virt.Prelude.{
  ℕ, zero, suc, ◌<◌, ◌≡◌, ◌≢◌, refl, sym, subst, ◌∙◌, some_inj, true, false, Option, none, some, ap,
  Bool-cases, inl, inr, Returns, returns, Returns-inv, arith,
}
use nvme_virt.Kv.State.{no_offset, no_slot, KvTable, Key, is_empty, same_bytes}
use nvme_virt.Kv.Mapping.{
  find_key, search_key, new_mapping_entry_by_key, update_mapping_entry, delete_mapping_entry,
  with_length, without,
}
use nvme_virt.Kv.Mapping.Chained.{IsChained, IsShort}
use nvme_virt.Kv.Mapping.Search.{
  home, get_hash_slot-home, step_from, find_key-step, search_key-Returns,
}
use nvme_virt.Kv.Mapping.Removed.{home-lt, erased-IsChained}
use nvme_virt.Kv.Mapping.Inserted.{new_mapping_entry_by_key-Inserted}
use nvme_virt.Kv.Namespace.{init_table}

-- A call that changes the table. A new key is stored only where it is not found and a slot is empty.
pub data Step : KvTable → KvTable → Type 0 where
  insert :
      (kv kv' : KvTable) (key : Key) (val_len val_offset free : ℕ)
      → IsShort key
      → search_key kv key ≡ some none
      → free < kv.hash_slots
      → is_empty (kv.kv_mapping_table free) ≡ true
      → val_offset < kv.storage_size
      → val_offset ≢ no_offset
      → new_mapping_entry_by_key kv key val_len val_offset ≡ some kv'
      → Step kv kv'
  update :
      (kv kv' : KvTable) (key : Key) (val_len r : ℕ)
      → IsShort key
      → update_mapping_entry kv key val_len ≡ some (r, kv')
      → Step kv kv'
  delete :
      (kv kv' : KvTable) (key : Key)
      → IsShort key
      → delete_mapping_entry kv key ≡ some kv'
      → Step kv kv'

pub data Reach (slots storage_size : ℕ) : KvTable → Type 0 where
  start : Reach slots storage_size (init_table slots storage_size)
  later :
      {kv kv' : KvTable} → Reach slots storage_size kv → Step kv kv' → Reach slots storage_size kv'

init_table-IsChained :
    (slots storage_size : ℕ)
    → 0 < slots
    → slots < no_slot
    → IsChained (init_table slots storage_size)
init_table-IsChained slots storage_size g h = record {
  rank = λ s. s;
  some_slots = g;
  few_slots = h;
  bound = λ s k. k;
  distinct = λ s t k l e. e;
  ends = λ s k. refl;
  link = λ s k n. absurd (n refl);
}

with_length-IsChained :
    (kv : KvTable) (val_len : ℕ) (found : Option ℕ)
    → IsChained kv
    → IsChained (with_length kv val_len found).1
with_length-IsChained kv val_len none c = c
with_length-IsChained kv val_len (some d) c = record {
  rank = c.rank;
  some_slots = c.some_slots;
  few_slots = c.few_slots;
  bound = c.bound;
  distinct = c.distinct;
  ends = λ s h. ground (arith, c.ends s);
  link = λ s h n. ground (arith, c.link s h);
}

without-IsChained : (kv : KvTable) (found : Option ℕ) → IsChained kv → IsChained (without kv found)
without-IsChained kv none c = c
without-IsChained kv (some d) c = erased-IsChained kv d c

Step-IsChained : {kv kv' : KvTable} → Step kv kv' → IsChained kv → IsChained kv'
unfolding update_mapping_entry delete_mapping_entry
Step-IsChained (insert kv kv' key val_len val_offset free k new g e small real done) c =
    let (kv'', done', (_, _, c')) =
      Returns-inv
        (new_mapping_entry_by_key-Inserted kv key val_len val_offset free c k new g e small real) in
    subst IsChained (some_inj (sym done' ∙ done)) c'
Step-IsChained (update kv kv' key val_len r k done) c =
    let (found, e, _) = Returns-inv (search_key-Returns kv key c k) in
    let same = some_inj (rw e at done) in
    subst (λ (t : ℕ × KvTable). IsChained t.1) same (with_length-IsChained kv val_len found c)
Step-IsChained (delete kv kv' key k done) c =
    let (found, e, _) = Returns-inv (search_key-Returns kv key c k) in
    subst IsChained (some_inj (rw e at done)) (without-IsChained kv found c)

Reach-IsChained :
    {slots storage_size : ℕ} {kv : KvTable}
    → 0 < slots
    → slots < no_slot
    → Reach slots storage_size kv
    → IsChained kv
Reach-IsChained {slots = slots} {storage_size = storage_size} g h start =
    init_table-IsChained slots storage_size g h
Reach-IsChained g h (later r s) = Step-IsChained s (Reach-IsChained g h r)

-- A slot holds the key: it is taken, and the bytes agree.
abbrev pub Holds : KvTable → Key → ℕ → Type 0
Holds kv key t =
    (t < kv.hash_slots)
    × (is_empty (kv.kv_mapping_table t) ≡ false)
    × (same_bytes key.bytes (kv.kv_mapping_table t).key key.len ≡ true)

module _ (kv : KvTable) (key : Key) (c : IsChained kv) (k : IsShort key) where
  Holds-step :
      (t fuel s : ℕ)
      → s < kv.hash_slots
      → ((u : ℕ) → u < kv.hash_slots → find_key fuel kv key u ≡ some (some t) → Holds kv key t)
      → step_from fuel kv key s ≡ some (some t)
      → Holds kv key t
  Holds-step t fuel s h rec p =
      elim (Bool-cases (same_bytes key.bytes (kv.kv_mapping_table s).key key.len)) [
        | inl e ↦
            let taken : is_empty (kv.kv_mapping_table s) ≡ false = ground (arith, p) in
            let same : s ≡ t = some_inj (some_inj (rw (taken, e) at p)) in
            subst (Holds kv key) same (h, taken, e)
        | inr e ↦
            rec (kv.kv_mapping_table s).next_slot (ground (arith, c.link s h, p, e))
              (ground (arith, p, e))
      ]

  find_key-Holds :
      (t fuel s : ℕ) → s < kv.hash_slots → find_key fuel kv key s ≡ some (some t) → Holds kv key t
  find_key-Holds t zero s h p = absurd (unfold find_key in (cc))
  find_key-Holds t (suc fuel) s h p =
      Holds-step t fuel s h (find_key-Holds t fuel) (sym (find_key-step fuel kv key s k h) ∙ p)

  search_key-Holds :
      Returns (λ (r : Option ℕ). (t : ℕ) → r ≡ some t → Holds kv key t) (search_key kv key)
  unfolding search_key
  search_key-Holds =
      let (r, found, _) = Returns-inv (search_key-Returns kv key c k) in
      rw found (
        returns λ t e.
          find_key-Holds t (suc kv.hash_slots) (home kv key) (home-lt kv key c)
            (rw (get_hash_slot-home kv key c.some_slots k) at (found ∙ ap some e)))

-- In every table that stores of new keys, updates and deletions make out of that of the construction, the
-- search for a key ends, and a slot that it finds is taken and holds the bytes of the key. Conditions:
-- the table has a slot, fewer than 2 ^ 32 - 1 slots, and the key fits an entry.
pub Reach-searches :
    {slots storage_size : ℕ} {kv : KvTable} (key : Key)
    → 0 < slots
    → slots < no_slot
    → Reach slots storage_size kv
    → IsShort key
    → Returns (λ (r : Option ℕ). (t : ℕ) → r ≡ some t → Holds kv key t) (search_key kv key)
Reach-searches {kv = kv} key g h r k = search_key-Holds kv key (Reach-IsChained g h r) k
