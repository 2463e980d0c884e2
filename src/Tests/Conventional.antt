-- ===== src/Tests/Conventional.antt =====
-- A conventional namespace of one part at concrete values.
use nvme_virt.Prelude.{ℕ, ◌≡◌, refl, List, [], ◌∷◌, Option, some, none, Returns, arith}
use nvme_virt.Ssd.Layout.{Ppa}
use nvme_virt.Channel.{chmodel_init}
use nvme_virt.Buffer.{buffer_init}
use nvme_virt.Conv.State.{
  ConvFtl, Line, WritePointer, VictimQueue, conv_init_params, init_maptbl, init_rmap,
  init_write_flow_control, wp_at,
}
use nvme_virt.Conv.Tables.Index.{pgidx-inj}
use nvme_virt.Conv.Lines.{step_wp}
use nvme_virt.Conv.Lines.Place.{Rows}
use nvme_virt.Conv.Lines.Order.{Stepped, step_wp-Stepped}
use nvme_virt.Conv.Collect.{running, gc_while_high}
use nvme_virt.Conv.Collect.Stuck.{gc_while_high-stuck}
use nvme_virt.Conv.Part.{ConvNs, load}
use nvme_virt.Tests.{small_spp}

abbrev last_in_block : WritePointer
last_in_block = record { curline = 3; ch = 1; lun = 1; pg = 1; blk = 3; pl = 0 }

small-Rows : Rows small_spp
small-Rows = record {
  some_page = omega arith;
  rows = 2;
  whole = refl;
  some_ch = omega arith;
  some_lun = omega arith;
  line = refl;
  pgs_small = omega arith;
  chs_small = omega arith;
  luns_small = omega arith;
}

step_wp-Stepped_example :
    Returns (Stepped small_spp last_in_block) (step_wp small_spp last_in_block)
step_wp-Stepped_example =
    step_wp-Stepped small_spp last_in_block small-Rows
      (record { ch = omega arith; lun = omega arith; pg = omega arith })

-- the same place in another line
abbrev other_line : WritePointer
other_line = record last_in_block { curline = 2; blk = 2 }

abbrev some_page : Ppa
some_page = record { pg = 3; blk = 2; pl = 0; lun = 1; ch = 1; rsv = 0 }

pgidx-inj_example :
    (some_page.ch ≡ 1)
    × (some_page.lun ≡ 1)
    × (some_page.pl ≡ 0)
    × (some_page.blk ≡ 2)
    × (some_page.pg ≡ 3)
pgidx-inj_example =
    pgidx-inj small_spp
      (record {
        pl = refl;
        lun = refl;
        ch = refl;
        tt = refl;
        small = omega arith;
        plane_small = omega arith;
      })
      some_page (record some_page { rsv = 1 })
      (record {
        ch = omega arith;
        lun = omega arith;
        pl = omega arith;
        blk = omega arith;
        pg = omega arith;
      })
      (record {
        ch = omega arith;
        lun = omega arith;
        pl = omega arith;
        blk = omega arith;
        pg = omega arith;
      })
      refl

abbrev first_of : List ℕ → Option ℕ
first_of [] = none
first_of (x ∷ xs) = some x

abbrev rest_of : List ℕ → List ℕ
rest_of [] = []
rest_of (x ∷ xs) = xs

-- victims in the order in which they come
abbrev in_order : VictimQueue (List ℕ)
in_order = record {
  pqueue_init = λ n. [];
  pqueue_insert = λ q lines l. (l ∷ q, lines);
  pqueue_change_priority = λ q lines pri l. (q, lines);
  pqueue_peek = first_of;
  pqueue_pop = λ q lines. (rest_of q, lines);
}

abbrev new_line : ℕ → Line
new_line i = record { id = i; ipc = 0; vpc = 0; pos = 0 }

-- a drive of four lines, its tables and lines as they are initialised; its flash is left out
abbrev new_ftl : ConvFtl (List ℕ)
new_ftl = record {
  ssd = record {
    sp = small_spp;
    ch = [];
    pcie = chmodel_init 3200;
    write_buffer = buffer_init 65536;
    ticks = 0;
  };
  cp = conv_init_params 107;
  maptbl = init_maptbl small_spp;
  rmap = init_rmap small_spp;
  wp = wp_at 0 0;
  gc_wp = wp_at 1 1;
  lm = record {
    lines = new_line 0 ∷ new_line 1 ∷ new_line 2 ∷ new_line 3 ∷ [];
    free_line_list = 2 ∷ 3 ∷ [];
    victim_line_pq = [];
    full_line_list = [];
    tt_lines = 4;
    free_line_cnt = 2;
    victim_line_cnt = 0;
    full_line_cnt = 0;
  };
  wfc = init_write_flow_control small_spp;
  gc_cnt = 0;
}

gc_while_high-stuck_example : gc_while_high (λ i. i) in_order 1000 new_ftl ≡ some (running new_ftl)
gc_while_high-stuck_example = gc_while_high-stuck (λ i. i) in_order 1000 new_ftl refl refl

abbrev one_part : ConvNs (List ℕ)
one_part = record {
  parts = new_ftl ∷ [];
  pcie = chmodel_init 3200;
  write_buffer = buffer_init 65536;
  ticks = 0;
  id = 0;
  nr_parts = 1;
  size = 0;
}

one_part-load : load one_part 0 ≡ some new_ftl
unfolding load
one_part-load = refl
