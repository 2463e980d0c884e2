-- ===== src/Conv/Part.antt =====
-- A conventional namespace and its partitions: each FTL has its own flash, and a pointer to the PCIe
-- link, the write buffer and the clock that all of them share.
use nvme_virt.Prelude.{ℕ, List, Option, some, get_elem?, set, ◌>>=◌}
use nvme_virt.Channel.{ChannelModel}
use nvme_virt.Buffer.{Buffer}
use nvme_virt.Conv.State.{ConvFtl}

-- `pcie`, `write_buffer` and `ticks` stand for those fields of every part.
pub record ConvNs (Q : Type 0) : Type 0 where
  pub parts : List (ConvFtl Q)
  pub pcie : ChannelModel
  pub write_buffer : Buffer
  pub ticks : ℕ
  pub id : ℕ
  pub nr_parts : ℕ
  pub size : ℕ

module _ {Q : Type 0} where
  -- `conv_ftls[i]`, with what it shares
  unfoldable pub load : ConvNs Q → ℕ → Option (ConvFtl Q)
  load ns i = do
    ftl ← get_elem? ns.parts i
    some (record ftl {
      ssd = record (ftl.ssd) { pcie = ns.pcie; write_buffer = ns.write_buffer; ticks = ns.ticks };
    })

  -- what a call on `conv_ftls[i]` leaves
  unfoldable pub store : ConvNs Q → ℕ → ConvFtl Q → ConvNs Q
  store ns i ftl = record ns {
    parts = set ns.parts i ftl;
    pcie = ftl.ssd.pcie;
    write_buffer = ftl.ssd.write_buffer;
    ticks = ftl.ssd.ticks;
  }
