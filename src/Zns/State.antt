-- ===== src/Zns/State.antt =====
-- nvme_zns.h, zns_ftl.h and the construction in zns_ftl.c: zone descriptors, zone resources and
-- the state of the zoned FTL. Of a descriptor the attributes that nothing sets are left out.
use nvme_virt.Prelude.{
  ℕ, zero, suc, ◌+◌, ◌-◌, ◌*◌, ◌/◌, ◌%◌, ◌^◌, List, [], ◌∷◌, Bool, false, Option, some, ltb, ◌==◌,
  if◌then◌else◌, set, replicate, u32, u64, sub64, ◌>>=◌, ◌>>◌, assert,
}
use nvme_virt.Buffer.{Buffer, buffer_init}
use nvme_virt.Ssd.Config.{Config, ZoneConfig, lba_bits}
use nvme_virt.Ssd.Params.{SsdParams, ssd_init_params}
use nvme_virt.Ssd.Layout.{Ssd, ssd_init}

pub data ZoneState : Type 0 where
  empty opened_impl opened_expl closed read_only full offline : ZoneState

pub data ZoneResourceType : Type 0 where
  active_zone open_zone zrwa_zone : ZoneResourceType

-- `indeterminate` is a status variable that was never assigned.
pub data Status : Type 0 where
  success invalid_field invalid_zone_operation zrwa_rsrc_unavail err_boundary err_full : Status
  err_read_only err_offline invalid_write no_active_zone no_open_zone : Status
  invalid_transition indeterminate : Status

abbrev pub zone_type_seq_write_required : ℕ
zone_type_seq_write_required = 2

pub record ZoneDescriptor : Type 0 where
  pub type : ℕ
  pub state : ZoneState
  pub zrwav : Bool
  pub zone_capacity : ℕ
  pub zslba : ℕ
  pub wp : ℕ

pub record ZoneResourceInfo : Type 0 where
  pub acquired_cnt : ℕ
  pub total_cnt : ℕ

pub record ZnsParams : Type 0 where
  pub nr_zones : ℕ
  pub nr_active_zones : ℕ
  pub nr_open_zones : ℕ
  pub dies_per_zone : ℕ
  pub zone_size : ℕ
  pub zone_wb_size : ℕ
  pub nr_zrwa_zones : ℕ
  pub zrwafg_size : ℕ
  pub zrwa_size : ℕ
  pub zrwa_buffer_size : ℕ
  pub lbas_per_zrwafg : ℕ
  pub lbas_per_zrwa : ℕ

-- `res_infos` as three fields; `storage` is the device's memory from `storage_base_addr` on.
pub record ZnsFtl : Type 0 where
  pub ssd : Ssd
  pub zp : ZnsParams
  pub active : ZoneResourceInfo
  pub opened : ZoneResourceInfo
  pub zrwa : ZoneResourceInfo
  pub zone_descs : List ZoneDescriptor
  pub zone_write_buffer : List Buffer
  pub zwra_buffer : List Buffer
  pub storage : ℕ → ℕ

abbrev pub lba_to_byte : ℕ → ℕ
lba_to_byte lba = u64 (lba * 2 ^ lba_bits)

abbrev pub byte_to_lba : ℕ → ℕ
byte_to_lba byte = byte / 2 ^ lba_bits

abbrev pub fresh_desc : ℕ → ℕ → ZoneDescriptor
fresh_desc zone_size zslba = record {
  type = zone_type_seq_write_required;
  state = empty;
  zrwav = false;
  zone_capacity = byte_to_lba zone_size;
  zslba = zslba;
  wp = zslba;
}

-- The loop of `__init_descriptor`, from the zone that starts at `zslba` on.
unfoldable pub init_zone_descs : ℕ → ℕ → ℕ → List ZoneDescriptor
init_zone_descs zone_size zero zslba = []
init_zone_descs zone_size (suc n) zslba =
    fresh_desc zone_size zslba ∷ init_zone_descs zone_size n (u64 (zslba + byte_to_lba zone_size))

abbrev pub init_resource : ZnsParams → ZoneResourceInfo
init_resource zp = record { acquired_cnt = 0; total_cnt = zp.nr_zones }

-- `old` is what `*zpp` held before: three initialisers read it. `none` is a failed assertion.
pub zns_init_params : ZoneConfig → ZnsParams → SsdParams → ℕ → Option ZnsParams
zns_init_params cfg old spp capacity = do
  let zp : ZnsParams = record {
    zone_size = u32 cfg.zone_size;
    nr_zones = u32 (capacity / cfg.zone_size);
    dies_per_zone = cfg.dies_per_zone;
    nr_active_zones = old.nr_zones;
    nr_open_zones = old.nr_zones;
    nr_zrwa_zones = cfg.max_zrwa_zones;
    zone_wb_size = cfg.zone_wb_size;
    zrwa_size = cfg.zrwa_size;
    zrwafg_size = cfg.zrwafg_size;
    zrwa_buffer_size = cfg.zrwa_buffer_size;
    lbas_per_zrwa = old.zrwa_size / spp.secsz;
    lbas_per_zrwafg = old.zrwafg_size / spp.secsz;
  }
  assert (capacity % zp.zone_size == 0)
  assert (zp.zone_size % spp.pgsz == 0)
  some zp

-- Buffers are only made where their size is not 0.
unfoldable pub zns_init_ftl : ZnsParams → Ssd → (ℕ → ℕ) → ZnsFtl
unfolding init_zone_descs
zns_init_ftl zp ssd mapped = record {
  ssd = ssd;
  zp = zp;
  active = init_resource zp;
  opened = init_resource zp;
  zrwa = init_resource zp;
  zone_descs = init_zone_descs zp.zone_size zp.nr_zones 0;
  zone_write_buffer =
      if zp.zone_wb_size == 0 then [] else replicate zp.nr_zones (buffer_init zp.zone_wb_size);
  zwra_buffer =
      if zp.zrwa_buffer_size == 0
      then []
      else replicate zp.nr_zones (buffer_init zp.zrwa_buffer_size);
  storage = mapped;
}

-- `zns_init_namespace`: one partition over the whole size.
pub zns_init_namespace : Config → ZoneConfig → ZnsParams → ℕ → (ℕ → ℕ) → Option ZnsFtl
zns_init_namespace cfg zone_cfg old size mapped = do
  spp ← ssd_init_params cfg size 1
  zp ← zns_init_params zone_cfg old spp size
  some (zns_init_ftl zp (ssd_init spp) mapped)

abbrev pub res_info : ZnsFtl → ZoneResourceType → ZoneResourceInfo
res_info ftl active_zone = ftl.active
res_info ftl open_zone = ftl.opened
res_info ftl zrwa_zone = ftl.zrwa

abbrev pub put_res : ZnsFtl → ZoneResourceType → ZoneResourceInfo → ZnsFtl
put_res ftl active_zone r = record ftl { active = r }
put_res ftl open_zone r = record ftl { opened = r }
put_res ftl zrwa_zone r = record ftl { zrwa = r }

abbrev pub is_zone_resource_avail : ZnsFtl → ZoneResourceType → Bool
is_zone_resource_avail ftl t = ltb (res_info ftl t).acquired_cnt (res_info ftl t).total_cnt

abbrev pub is_zone_resource_full : ZnsFtl → ZoneResourceType → Bool
is_zone_resource_full ftl t = (res_info ftl t).acquired_cnt == (res_info ftl t).total_cnt

-- `acquire_zone_resource` answers `is_zone_resource_avail`, and has this effect.
abbrev pub acquire_zone_resource : ZnsFtl → ZoneResourceType → ZnsFtl
acquire_zone_resource ftl t =
    let r = res_info ftl t in
    put_res ftl t (record r {
      acquired_cnt =
          if is_zone_resource_avail ftl t then u32 (r.acquired_cnt + 1) else r.acquired_cnt;
    })

-- The assertion in `release_zone_resource` is compiled out: the count wraps below 0.
abbrev pub release_zone_resource : ZnsFtl → ZoneResourceType → ZnsFtl
release_zone_resource ftl t =
    let r = res_info ftl t in
    put_res ftl t (record r { acquired_cnt = u32 (r.acquired_cnt + (2 ^ 32 - 1)) })

-- The descriptor `d` of zone `zid` is written back.
abbrev pub put_desc : ZnsFtl → ℕ → ZoneDescriptor → ZnsFtl
put_desc ftl zid d = record ftl { zone_descs = set ftl.zone_descs zid d }

abbrev pub change_zone_state : ZnsFtl → ℕ → ZoneDescriptor → ZoneState → ZnsFtl
change_zone_state ftl zid d s = put_desc ftl zid (record d { state = s })

-- Addresses. The products with a zone number are computed in 32 bits.
abbrev pub lbas_per_zone : ZnsFtl → ℕ
lbas_per_zone ftl = ftl.zp.zone_size / ftl.ssd.sp.secsz

abbrev pub lpns_per_zone : ZnsFtl → ℕ
lpns_per_zone ftl = ftl.zp.zone_size / ftl.ssd.sp.pgsz

unfoldable pub lpn_to_zone : ZnsFtl → ℕ → ℕ
lpn_to_zone ftl lpn = u32 (lpn / lpns_per_zone ftl)

unfoldable pub zone_to_slpn : ZnsFtl → ℕ → ℕ
zone_to_slpn ftl zid = u32 (u32 zid * lpns_per_zone ftl)

unfoldable pub lba_to_zone : ZnsFtl → ℕ → ℕ
lba_to_zone ftl lba = u32 (lba / lbas_per_zone ftl)

unfoldable pub zone_to_slba : ZnsFtl → ℕ → ℕ
zone_to_slba ftl zid = u32 (u32 zid * lbas_per_zone ftl)

unfoldable pub zone_to_elba : ZnsFtl → ℕ → ℕ
unfolding zone_to_slba
zone_to_elba ftl zid = sub64 (zone_to_slba ftl (u32 (zid + 1))) 1

unfoldable pub zone_to_elpn : ZnsFtl → ℕ → ℕ
unfolding zone_to_elba
zone_to_elpn ftl zid = zone_to_elba ftl zid / ftl.ssd.sp.secs_per_pg

unfoldable pub die_to_channel : ZnsFtl → ℕ → ℕ
die_to_channel ftl die = die % ftl.ssd.sp.nchs

unfoldable pub die_to_lun : ZnsFtl → ℕ → ℕ
die_to_lun ftl die = die / ftl.ssd.sp.nchs

unfoldable pub lba_to_lpn : ZnsFtl → ℕ → ℕ
lba_to_lpn ftl lba = lba / ftl.ssd.sp.secs_per_pg
