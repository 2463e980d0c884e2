-- ===== src/Conv/Namespace.antt =====
-- The namespace of conv_ftl.c: the FTLs of its partitions, which share the PCIe link and the write
-- buffer, its construction, flush, and the choice of a handler.
use nvme_virt.Prelude.{
  none, ℕ, zero, suc, ◌+◌, ◌*◌, ◌/◌, List, [], ◌∷◌, Bool, true, Option, some, if◌then◌else◌, u64,
  max_of, ◌>>=◌,
}
use nvme_virt.Ssd.Config.{Config}
use nvme_virt.Ssd.Params.{ssd_init_params}
use nvme_virt.Ssd.Layout.{Ssd, ssd_init}
use nvme_virt.Ssd.Timing.{ssd_next_idle_time}
use nvme_virt.Zns.Request.{RwRequest, InternalOp}
use nvme_virt.Conv.State.{ConvFtl, ConvParams, VictimQueue, conv_init_params, conv_init_ftl}
use nvme_virt.Conv.Collect.{GcLoop, ended, running, gc_while_high}
use nvme_virt.Conv.Part.{ConvNs, load, store}
use nvme_virt.Conv.Read.{conv_read}
use nvme_virt.Conv.Write.{conv_write}

-- the opcode, with the request of a read or a write
pub data ConvCommand : Type 0 where
  conv_cmd_write conv_cmd_read : RwRequest → ConvCommand
  conv_cmd_print_cmt : ConvCommand
  conv_cmd_flush : ConvCommand
  conv_cmd_other : ℕ → ConvCommand

-- What a handler leaves: whether it took the command, `ret->nsecs_target`, the operations it
-- scheduled, the newest first, and the namespace.
pub record Handled (Q : Type 0) : Type 0 where
  pub accepted : Bool
  pub nsecs_target : ℕ
  pub ops : List InternalOp
  pub ns : ConvNs Q

module _ {Q : Type 0} (pq : VictimQueue Q) where
  -- the loop over the partitions
  pub init_parts : ℕ → ConvParams → Ssd → Option (List (ConvFtl Q))
  init_parts zero cpp ssd = some []
  init_parts (suc n) cpp ssd = do
    ftl ← conv_init_ftl pq cpp ssd
    rest ← init_parts n cpp ssd
    some (ftl ∷ rest)

  unfoldable pub conv_init_namespace : Config → ℕ → ℕ → ℕ → Option (ConvNs Q)
  conv_init_namespace cfg pba_pcent id size = do
    let nr_parts = cfg.ssd_partitions
    let cpp = conv_init_params pba_pcent
    spp ← ssd_init_params cfg size nr_parts
    let ssd = ssd_init spp
    parts ← init_parts nr_parts cpp ssd
    some (record {
      parts = parts;
      pcie = ssd.pcie;
      write_buffer = ssd.write_buffer;
      ticks = ssd.ticks;
      id = id;
      nr_parts = nr_parts;
      size = u64 (size * 100) / cpp.pba_pcent;
    })

module _ (clock : ℕ → ℕ) {Q : Type 0} (pq : VictimQueue Q) where
  -- the loop of `conv_flush` over the parts from `i` on, `n` of them
  pub flush_parts : ℕ → ℕ → ConvNs Q → ℕ → Option (ℕ × ConvNs Q)
  flush_parts zero i ns latest = some (latest, ns)
  flush_parts (suc n) i ns latest = do
    ftl ← load ns i
    (t, ssd) ← ssd_next_idle_time clock ftl.ssd
    flush_parts n (i + 1) (store ns i (record ftl { ssd = ssd })) (max_of latest t)

  unfoldable pub conv_flush : ConvNs Q → Option (ℕ × ConvNs Q)
  conv_flush ns = flush_parts ns.nr_parts 0 (record ns { ticks = ns.ticks + 1 }) (clock ns.ticks)

  -- The `switch`; `target` is what `ret->nsecs_target` holds before it.
  pub serve : ConvNs Q → ConvCommand → ℕ → Option (Handled Q)
  serve ns (conv_cmd_write req) target = do
    r ← conv_write clock pq ns req
    some (record { accepted = r.accepted; nsecs_target = r.nsecs_target; ops = r.ops; ns = r.ns })
  serve ns (conv_cmd_read req) target = do
    r ← conv_read clock ns req
    some (record { accepted = r.accepted; nsecs_target = r.nsecs_target; ops = []; ns = r.ns })
  serve ns conv_cmd_print_cmt target =
      some (record { accepted = true; nsecs_target = target; ops = []; ns = ns })
  serve ns conv_cmd_flush target = do
    (t, ns') ← conv_flush ns
    some (record { accepted = true; nsecs_target = t; ops = []; ns = ns' })
  serve ns (conv_cmd_other c) target =
      some (record { accepted = true; nsecs_target = target; ops = []; ns = ns })

  -- A loop that has not ended gives no result.
  abbrev pub after_loop : GcLoop Q → Option (ConvFtl Q)
  after_loop (ended ftl) = some ftl
  after_loop (running ftl) = none

  -- `fuel` bounds the collections behind the command.
  unfoldable pub conv_proc_nvme_io_cmd : ℕ → ConvNs Q → ConvCommand → ℕ → Option (Handled Q)
  conv_proc_nvme_io_cmd fuel ns cmd target = do
    r ← serve ns cmd target
    let collect = do
      ftl ← load r.ns 0
      loop ← gc_while_high clock pq fuel ftl
      ftl' ← after_loop loop
      some (record r { ns = store r.ns 0 ftl' })
    if r.accepted then collect else some r
