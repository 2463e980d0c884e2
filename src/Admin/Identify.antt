-- ===== src/Admin/Identify.antt =====
-- The identify commands and the log pages. A page of the host is written as the structure that it is
-- filled with. `none` is an access outside an array: a namespace that does not exist, or a log page read
-- behind its structure.
use nvme_virt.Prelude.{
  ℕ, zero, suc, ◌+◌, ◌*◌, ◌/◌, ◌%◌, ◌^◌, List, [], ◌∷◌, Option, some, none, ltb, leb, ◌==◌,
  if◌then◌else◌, get_elem?, u32, sub32, ◌>>=◌, ◌>>◌, assert,
}
use nvme_virt.Ssd.Config.{lba_bits}
use nvme_virt.Zns.State.{ZnsParams}
use nvme_virt.Admin.State.{
  Namespace, LbaFormat, IdNs, IdCtrl, IdZns, Page, id_ns, id_ctrl, id_zns, id_zns_ctrl, ns_list,
  ns_desc, smart_log, effects_log, zeros, Dev,
}
use nvme_virt.Admin.Queues.{nvme_sc_success, nvme_sc_invalid_opcode, make_cq_entry}

abbrev pub fill_page : Dev → ℕ → Page → Dev
fill_page dev prp1 page = record dev { written = (prp1, page) ∷ dev.written }

-- `len` bytes are copied, however long the structure is.
abbrev log_len : ℕ → ℕ → ℕ
log_len numdu numdl = u32 ((numdu * 2 ^ 16 + numdl + 1) * 4)

abbrev nvme_log_smart : ℕ
nvme_log_smart = 0x02

abbrev nvme_log_cmd_effects : ℕ
nvme_log_cmd_effects = 0x05

unfoldable pub admin_get_log_page : Dev → ℕ → (numdu numdl lid prp1 : ℕ) → Option Dev
admin_get_log_page dev eid numdu numdl lid prp1 =
    let len = log_len numdu numdl in
    let smart = do
      assert (leb len 512)
      make_cq_entry (fill_page dev prp1 (smart_log len)) eid nvme_sc_success
    in let effects = do
      assert (leb len 4096)
      make_cq_entry (fill_page dev prp1 (effects_log len)) eid nvme_sc_success
      in if lid == nvme_log_smart
        then smart
        else if lid == nvme_log_cmd_effects
        then effects
        else make_cq_entry (fill_page dev prp1 (zeros len)) eid nvme_sc_success

abbrev lba_formats : List LbaFormat
lba_formats =
    record { ms = 0; ds = 9; rp = 2 }
    ∷ record { ms = 8; ds = 9; rp = 2 }
    ∷ record { ms = 16; ds = 9; rp = 2 }
    ∷ record { ms = 0; ds = 12; rp = 0 }
    ∷ record { ms = 8; ds = 12; rp = 0 }
    ∷ record { ms = 64; ds = 12; rp = 0 }
    ∷ record { ms = 128; ds = 12; rp = 0 }
    ∷ []

-- `ns->nsze`, `ncap` and `nuse` count blocks of the format `flbas`, which LBA_BITS selects.
abbrev pub namespace_page : Namespace → Option IdNs
namespace_page ns = do
  assert (if lba_bits == 9 then lba_bits == 9 else lba_bits == 12)
  let flbas = if lba_bits == 9 then 0 else 3
  format ← get_elem? lba_formats flbas
  let nsze = ns.size / 2 ^ format.ds
  some (record {
    lbaf = lba_formats;
    flbas = flbas;
    nlbaf = 6;
    dps = 0;
    nsze = nsze;
    ncap = nsze;
    nuse = nsze;
  })

unfoldable pub admin_identify_namespace : Dev → ℕ → (nsid prp1 : ℕ) → Option Dev
admin_identify_namespace dev eid nsid prp1 = do
  ns ← get_elem? dev.ns (sub32 nsid 1)
  page ← namespace_page ns
  make_cq_entry (fill_page dev prp1 (id_ns page)) eid nvme_sc_success

-- The loop over the namespaces from `i` on, `n` of them.
pub namespaces_above : ℕ → ℕ → ℕ → List ℕ
namespaces_above zero i nsid = []
namespaces_above (suc n) i nsid =
    let rest = namespaces_above n (i + 1) nsid in if ltb nsid i then i ∷ rest else rest

unfoldable pub admin_identify_namespaces : Dev → ℕ → (nsid prp1 : ℕ) → Option Dev
admin_identify_namespaces dev eid nsid prp1 =
    make_cq_entry (fill_page dev prp1 (ns_list (namespaces_above dev.nr_ns 1 nsid))) eid
      nvme_sc_success

unfoldable pub admin_identify_namespace_desc : Dev → ℕ → (nsid prp1 : ℕ) → Option Dev
admin_identify_namespace_desc dev eid nsid prp1 = do
  ns ← get_elem? dev.ns (sub32 nsid 1)
  make_cq_entry (fill_page dev prp1 (ns_desc 4 1 ns.csi)) eid nvme_sc_success

abbrev nvme_csi_zns : ℕ
nvme_csi_zns = 2

-- The random write area of a namespace that has one: the sizes go into fields of 16 bits.
abbrev pub zns_page : ZnsParams → IdZns
zns_page zpp =
    let has_zrwa = ltb 0 zpp.nr_zrwa_zones in
    record {
      zoc = 0;
      ozcs = if has_zrwa then 2 else 0;
      mar = sub32 zpp.nr_active_zones 1;
      mor = sub32 zpp.nr_open_zones 1;
      numzrwa = if has_zrwa then sub32 zpp.nr_zrwa_zones 1 else 0;
      zrwafg = if has_zrwa then zpp.zrwafg_size % 2 ^ 16 else 0;
      zrwasz = if has_zrwa then zpp.zrwa_size % 2 ^ 16 else 0;
      zrwacap = if has_zrwa then 1 else 0;
      zsze = zpp.zone_size / 2 ^ lba_bits;
      zdes = 0;
    }

abbrev pub identify_zns_of : Dev → ℕ → ℕ → Namespace → Option ZnsParams → Option Dev
identify_zns_of dev eid prp1 ns none = make_cq_entry dev eid nvme_sc_success
identify_zns_of dev eid prp1 ns (some zpp) = do
  assert (ns.csi == nvme_csi_zns)
  make_cq_entry (fill_page dev prp1 (id_zns (zns_page zpp))) eid nvme_sc_success

unfoldable pub admin_identify_zns_namespace : Dev → ℕ → (nsid prp1 : ℕ) → Option Dev
admin_identify_zns_namespace dev eid nsid prp1 = do
  ns ← get_elem? dev.ns (sub32 nsid 1)
  identify_zns_of dev eid prp1 ns ns.zns

unfoldable pub admin_identify_zns_ctrl : Dev → ℕ → (prp1 : ℕ) → Option Dev
admin_identify_zns_ctrl dev eid prp1 =
    make_cq_entry (fill_page dev prp1 (id_zns_ctrl 0)) eid nvme_sc_success

unfoldable pub admin_identify_ctrl : Dev → ℕ → (prp1 : ℕ) → Option Dev
admin_identify_ctrl dev eid prp1 =
    let page : IdCtrl = record {
      nn = dev.nr_ns;
      oncs = 0;
      acl = 3;
      vwc = 0;
      sn = 1;
      mn = 1;
      fr = 2;
      mdts = dev.mdts % 2 ^ 8;
      sqes = 0x66;
      cqes = 0x44;
    } in
    make_cq_entry (fill_page dev prp1 (id_ctrl page)) eid nvme_sc_success

unfoldable pub admin_identify : Dev → ℕ → (cns nsid prp1 : ℕ) → Option Dev
admin_identify dev eid cns nsid prp1 =
    if cns == 0x00
    then admin_identify_namespace dev eid nsid prp1
    else if cns == 0x01
    then admin_identify_ctrl dev eid prp1
    else if cns == 0x02
    then admin_identify_namespaces dev eid nsid prp1
    else if cns == 0x03
    then admin_identify_namespace_desc dev eid nsid prp1
    else if cns == 0x05
    then admin_identify_zns_namespace dev eid nsid prp1
    else if cns == 0x06
    then admin_identify_zns_ctrl dev eid prp1
    else make_cq_entry dev eid nvme_sc_invalid_opcode
