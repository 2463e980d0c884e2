-- ===== src/Conv/State.antt =====
-- conv_ftl.h: the state of one FTL, and `conv_init_ftl`. A line is named by its index, which is also
-- its `id`. The priority queue of pqueue.c is the record of its calls.
use nvme_virt.Prelude.{
  ℕ, zero, suc, ◌+◌, List, [], ◌∷◌, Bool, true, Option, some, ◌==◌, get_elem?, replicate, u32,
  sub32, ◌>>=◌, ◌>>◌, assert,
}
use nvme_virt.Ssd.Layout.{Ppa, Ssd}
use nvme_virt.Ssd.Params.{SsdParams}

-- `op_area_pcent` is floating-point: only the percentage computed from it is kept.
pub record ConvParams : Type 0 where
  pub gc_thres_lines : ℕ
  pub gc_thres_lines_high : ℕ
  pub enable_gc_delay : Bool
  pub pba_pcent : ℕ

-- `entry` is the place in the two lists of `LineMgmt`.
pub record Line : Type 0 where
  pub id : ℕ
  pub ipc : ℕ
  pub vpc : ℕ
  pub pos : ℕ

pub record WritePointer : Type 0 where
  pub curline : ℕ
  pub ch : ℕ
  pub lun : ℕ
  pub pg : ℕ
  pub blk : ℕ
  pub pl : ℕ

pub record LineMgmt (Q : Type 0) : Type 0 where
  pub lines : List Line
  pub free_line_list : List ℕ
  pub victim_line_pq : Q
  pub full_line_list : List ℕ
  pub tt_lines : ℕ
  pub free_line_cnt : ℕ
  pub victim_line_cnt : ℕ
  pub full_line_cnt : ℕ

pub record WriteFlowControl : Type 0 where
  pub write_credits : ℕ
  pub credits_to_refill : ℕ

pub record ConvFtl (Q : Type 0) : Type 0 where
  pub ssd : Ssd
  pub cp : ConvParams
  pub maptbl : List Ppa
  pub rmap : List ℕ
  pub wp : WritePointer
  pub gc_wp : WritePointer
  pub lm : LineMgmt Q
  pub wfc : WriteFlowControl
  pub gc_cnt : ℕ

-- The calls of the queue of victim lines. Through its callbacks the queue reads and writes `vpc`,
-- its priority, and `pos` of the lines.
pub record VictimQueue (Q : Type 0) : Type 0 where
  pub pqueue_init : ℕ → Q
  pub pqueue_insert : Q → List Line → ℕ → Q × List Line
  pub pqueue_change_priority : Q → List Line → ℕ → ℕ → Q × List Line
  pub pqueue_peek : Q → Option ℕ
  pub pqueue_pop : Q → List Line → Q × List Line

abbrev pub invalid_lpn : ℕ
invalid_lpn = 0xffff_ffff_ffff_ffff

-- the fields of UNMAPPED_PPA
abbrev pub unmapped_ppa : Ppa
unmapped_ppa = record { pg = 65535; blk = 65535; pl = 255; lun = 255; ch = 255; rsv = 255 }

-- the lines from `i` on, `n` of them
pub init_line : ℕ → ℕ → List Line
init_line i zero = []
init_line i (suc n) = record { id = i; ipc = 0; vpc = 0; pos = 0 } ∷ init_line (i + 1) n

pub ids_from : ℕ → ℕ → List ℕ
ids_from i zero = []
ids_from i (suc n) = i ∷ ids_from (i + 1) n

abbrev pub init_maptbl : SsdParams → List Ppa
init_maptbl spp = replicate spp.tt_pgs unmapped_ppa

abbrev pub init_rmap : SsdParams → List ℕ
init_rmap spp = replicate spp.tt_pgs invalid_lpn

abbrev pub init_write_flow_control : SsdParams → WriteFlowControl
init_write_flow_control spp = record {
  write_credits = spp.pgs_per_line;
  credits_to_refill = spp.pgs_per_line;
}

abbrev pub conv_init_params : ℕ → ConvParams
conv_init_params pba_pcent = record {
  gc_thres_lines = 8;
  gc_thres_lines_high = 8;
  enable_gc_delay = true;
  pba_pcent = pba_pcent;
}

-- `list_first_entry_or_null` and `list_del_init`: `none` is the null pointer.
abbrev pub take_free : {Q : Type 0} → LineMgmt Q → List ℕ → Option (ℕ × LineMgmt Q)
take_free lm [] = Option.none
take_free lm (l ∷ rest) =
    some (l, record lm { free_line_list = rest; free_line_cnt = sub32 lm.free_line_cnt 1 })

abbrev pub get_next_free_line : {Q : Type 0} → LineMgmt Q → Option (ℕ × LineMgmt Q)
get_next_free_line lm = take_free lm lm.free_line_list

-- the pointer that `prepare_write_pointer` assigns
abbrev pub wp_at : ℕ → ℕ → WritePointer
wp_at curline id = record { curline = curline; ch = 0; lun = 0; pg = 0; blk = id; pl = 0 }

module _ {Q : Type 0} (pq : VictimQueue Q) where
  unfoldable pub init_lines : SsdParams → Option (LineMgmt Q)
  init_lines spp = do
    assert (spp.blks_per_pl == spp.tt_lines)
    some (record {
      lines = init_line 0 spp.blks_per_pl;
      free_line_list = ids_from 0 spp.blks_per_pl;
      victim_line_pq = pq.pqueue_init spp.tt_lines;
      full_line_list = [];
      tt_lines = spp.blks_per_pl;
      free_line_cnt = u32 spp.blks_per_pl;
      victim_line_cnt = 0;
      full_line_cnt = 0;
    })

  unfoldable pub prepare_write_pointer : LineMgmt Q → Option (WritePointer × LineMgmt Q)
  prepare_write_pointer lm = do
    (l, lm') ← get_next_free_line lm
    line ← get_elem? lm'.lines l
    some (wp_at l line.id, lm')

  unfoldable pub conv_init_ftl : ConvParams → Ssd → Option (ConvFtl Q)
  conv_init_ftl cpp ssd = do
    lm ← init_lines ssd.sp
    (wp, lm1) ← prepare_write_pointer lm
    (gc_wp, lm2) ← prepare_write_pointer lm1
    some (record {
      ssd = ssd;
      cp = cpp;
      maptbl = init_maptbl ssd.sp;
      rmap = init_rmap ssd.sp;
      wp = wp;
      gc_wp = gc_wp;
      lm = lm2;
      wfc = init_write_flow_control ssd.sp;
      gc_cnt = 0;
    })
