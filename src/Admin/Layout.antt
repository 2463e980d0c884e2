-- ===== src/Admin/Layout.antt =====
-- `NVMEV_NAMESPACE_INIT` of main.c: the part of the storage that each namespace gets, by the types and
-- capacities of ssd_config.h. The `init` function of its type takes these values.
pub mod Tiled
use nvme_virt.Prelude.{
  ℕ, zero, suc, ◌+◌, ◌-◌, List, [], ◌∷◌, Bool, true, false, Option, some, ◌==◌, if◌then◌else◌,
  min_of, ◌>>=◌, ◌>>◌, assert,
}

pub data SsdType : Type 0 where
  ssd_type_nvm ssd_type_conv ssd_type_zns ssd_type_kv : SsdType
  ssd_type_other : ℕ → SsdType

-- `NS_SSD_TYPE` and `NS_CAPACITY` of a namespace
pub record NsConfig : Type 0 where
  pub ssd_type : SsdType
  pub capacity : ℕ

-- What the `init` function of a namespace is called with; `mapped` is the distance of its address from
-- that of the storage.
pub record Mapped : Type 0 where
  pub id : ℕ
  pub ssd_type : SsdType
  pub size : ℕ
  pub mapped : ℕ

-- another type is a BUG_ON
abbrev pub is_known : SsdType → Bool
is_known (ssd_type_other n) = false
is_known _ = true

-- a capacity of 0 is all that remains
abbrev pub ns_size : NsConfig → ℕ → ℕ
ns_size cfg remaining_capacity =
    if cfg.capacity == 0 then remaining_capacity else min_of cfg.capacity remaining_capacity

pub namespaces_from : ℕ → List NsConfig → ℕ → ℕ → Option (List Mapped)
namespaces_from i [] remaining_capacity ns_addr = some []
namespaces_from i (cfg ∷ cfgs) remaining_capacity ns_addr = do
  let size = ns_size cfg remaining_capacity
  assert (is_known cfg.ssd_type)
  rest ← namespaces_from (i + 1) cfgs (remaining_capacity - size) (ns_addr + size)
  some (record { id = i; ssd_type = cfg.ssd_type; size = size; mapped = ns_addr } ∷ rest)

abbrev pub nvmev_namespace_init : List NsConfig → ℕ → Option (List Mapped)
nvmev_namespace_init cfgs storage_size = namespaces_from 0 cfgs storage_size 0
