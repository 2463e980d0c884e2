-- ===== src/Admin/Layout/Tiled.antt =====
-- The namespaces tile the storage from its start.
use nvme_virt.Prelude.{
  ℕ, zero, suc, ◌+◌, ◌-◌, ◌<◌, ◌≤◌, ◌≡◌, refl, List, [], ◌∷◌, true, some, get_elem?, Returns,
  returns, Returns-bind, Returns-mono, some_inj, arith,
}
use nvme_virt.Admin.Layout.{
  NsConfig, Mapped, is_known, ns_size, namespaces_from, nvmev_namespace_init,
}

-- every type has an `init` function
unfoldable pub AllKnown : List NsConfig → Type 0
AllKnown [] = Unit
AllKnown (cfg ∷ cfgs) = (is_known cfg.ssd_type ≡ true) × AllKnown cfgs

-- The namespaces from number `i` on stand one behind the other from `addr` on, and end at or before
-- `end`; each has its capacity, or what is left, if that is less or the capacity is 0.
pub data Tiles (end : ℕ) : ℕ → ℕ → List NsConfig → List Mapped → Type 0 where
  none_left : {i addr : ℕ} → addr ≤ end → Tiles end i addr [] []
  one_more :
      {i addr : ℕ} {cfg : NsConfig} {cfgs : List NsConfig} {ns : Mapped} {rest : List Mapped}
      → ns.id ≡ i
      → ns.mapped ≡ addr
      → ns.size ≡ ns_size cfg (end - addr)
      → addr + ns.size ≤ end
      → Tiles end (i + 1) (addr + ns.size) cfgs rest
      → Tiles end i addr (cfg ∷ cfgs) (ns ∷ rest)

namespaces_from-Tiles :
    (i : ℕ) (cfgs : List NsConfig) (remaining addr : ℕ)
    → AllKnown cfgs
    → Returns (Tiles (addr + remaining) i addr cfgs) (namespaces_from i cfgs remaining addr)
unfolding namespaces_from AllKnown
namespaces_from-Tiles i [] remaining addr k = returns (none_left (omega arith))
namespaces_from-Tiles i (cfg ∷ cfgs) remaining addr k =
    let size = ns_size cfg remaining in
    let le : size ≤ remaining = ground arith in
    let same_end : addr + size + (remaining - size) ≡ addr + remaining = omega (arith, le) in
    let left : addr + remaining - addr ≡ remaining = omega arith in
    rw (k.0) (
      Returns-bind
        (rw same_end at (namespaces_from-Tiles (i + 1) cfgs (remaining - size) (addr + size) (k.1)))
        λ rest t. returns (one_more refl refl (rw left refl) (omega (arith, le)) t))

Tiles-inside :
    {end i addr : ℕ} {cfgs : List NsConfig} {nss : List Mapped} (k : ℕ) (a : Mapped)
    → Tiles end i addr cfgs nss
    → get_elem? nss k ≡ some a
    → (addr ≤ a.mapped) × (a.mapped + a.size ≤ end)
Tiles-inside k a (none_left h) e = absurd cc
Tiles-inside zero a (one_more {ns = ns} {rest = rest} id at size le t) e =
    let same : ns ≡ a = some_inj e in rw (← same) (omega (arith, at), omega (arith, at, le))
Tiles-inside (suc k) a (one_more {ns = ns} {rest = rest} id at size le t) e =
    let (low, high) = Tiles-inside k a t e in (omega (arith, low), high)

Tiles-apart :
    {end i addr : ℕ} {cfgs : List NsConfig} {nss : List Mapped} (k l : ℕ) (a b : Mapped)
    → Tiles end i addr cfgs nss
    → k < l
    → get_elem? nss k ≡ some a
    → get_elem? nss l ≡ some b
    → a.mapped + a.size ≤ b.mapped
Tiles-apart k l a b (none_left h) kl e f = absurd cc
Tiles-apart k zero a b (one_more id at size le t) kl e f = absurd (omega (arith, kl))
Tiles-apart zero (suc l) a b (one_more {ns = ns} id at size le t) kl e f =
    let same : ns ≡ a = some_inj e in rw (← same) (omega (arith, at, (Tiles-inside l b t f).0))
Tiles-apart (suc k) (suc l) a b (one_more id at size le t) kl e f =
    Tiles-apart k l a b t (omega (arith, kl)) e f

-- The namespaces are laid out: each gets its capacity or what is left, one stands behind the other from
-- the start of the storage on, and no two share a byte, nor does one reach behind the storage. Condition:
-- the types are known.
pub nvmev_namespace_init-Tiles :
    (cfgs : List NsConfig) (storage_size : ℕ)
    → AllKnown cfgs
    → Returns
        (λ (nss : List Mapped).
          Tiles storage_size 0 0 cfgs nss
          × ((k l : ℕ) (a b : Mapped)
              → k < l
              → get_elem? nss k ≡ some a
              → get_elem? nss l ≡ some b
              → (a.mapped + a.size ≤ b.mapped) × (b.mapped + b.size ≤ storage_size)))
        (nvmev_namespace_init cfgs storage_size)
nvmev_namespace_init-Tiles cfgs storage_size k =
    Returns-mono (namespaces_from-Tiles 0 cfgs storage_size 0 k) λ nss t.
      let from : 0 + storage_size ≡ storage_size = omega arith in
      let t' : Tiles storage_size 0 0 cfgs nss = rw from at t in
      (t', λ i j a b ij e f. (Tiles-apart i j a b t' ij e f, (Tiles-inside j b t' f).1))
