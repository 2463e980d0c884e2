-- ===== src/Tests/Admins.antt =====
-- The theorems on the admin queue at a device with two entries, and on the registers at a bring-up.
use nvme_virt.Prelude.{
  some, get_elem?, ◌+◌, ◌<◌, ◌≤◌, ℕ, zero, suc, ◌≡◌, refl, subst, some_inj, inr, List, [], ◌∷◌,
  none, replicate, Returns, arith,
}
use nvme_virt.Worker.Doorbell.{Completion, num_proc}
use nvme_virt.Admin.State.{create_cq, abort_cmd, AdminCommand, AdminQueue, Dev}
use nvme_virt.Admin.Posted.{Completes}
use nvme_virt.Admin.Run.{nvmev_proc_admin_sq}
use nvme_virt.Admin.Run.Served.{IsServed}
use nvme_virt.Admin.Run.Answered.{owed, AllServed, nvmev_proc_admin_sq-Posted}
use nvme_virt.Admin.Layout.{ssd_type_conv, ssd_type_zns, NsConfig, Mapped, nvmev_namespace_init}
use nvme_virt.Admin.Layout.Tiled.{AllKnown, Tiles, nvmev_namespace_init-Tiles}
use nvme_virt.Admin.Bars.{BarState}
use nvme_virt.Admin.Bars.Round.{SameRegisters}
use nvme_virt.Admin.Bars.Settled.{rounds, nvmev_proc_bars-settles}

abbrev no_completion : Completion
no_completion = record {
  command_id = 0;
  sq_id = 0;
  sq_head = 0;
  status = 0;
  result0 = 0;
  result1 = 0;
}

abbrev admin_queue : AdminQueue
admin_queue = record {
  phase = 1;
  sq_depth = 2;
  cq_depth = 2;
  cq_head = 1;
  nvme_sq =
      record { command_id = 7; request = create_cq 1 63 3 1 4096 }
      ∷ record { command_id = 8; request = abort_cmd }
      ∷ [];
  nvme_cq = no_completion ∷ no_completion ∷ [];
}

abbrev device : Dev
device = record {
  admin_q = admin_queue;
  sqes = replicate 73 none;
  cqes = replicate 73 none;
  dbs = λ i. 0;
  old_dbs = λ i. 1;
  nr_sq = 1;
  nr_cq = 1;
  nr_ns = 0;
  ns = [];
  mdts = 5;
  written = [];
}

abbrev host_cq : ℕ → ℕ → List Completion
host_cq address n = replicate n no_completion

device-AllServed : AllServed device
device-AllServed zero cmd e = subst (λ c. IsServed 73 73 [] c.request) (some_inj e) (omega arith)
device-AllServed (suc zero) cmd e = subst (λ c. IsServed 73 73 [] c.request) (some_inj e) tt
device-AllServed (suc (suc i)) cmd e = absurd (cc)

nvmev_proc_admin_sq-Posted_example :
    Returns
      (λ (dev' : Dev). Completes (owed (num_proc 2 0 1) admin_queue 1) admin_queue dev'.admin_q)
      (nvmev_proc_admin_sq host_cq 0 1 device)
nvmev_proc_admin_sq-Posted_example =
    nvmev_proc_admin_sq-Posted host_cq 0 1 device
      (record { head = omega arith; turn = omega arith; room = refl; entries = refl }) (omega arith)
      device-AllServed

-- the host has written all four registers of a new device
abbrev bring_up : BarState
bring_up = record {
  old_aqa = 0;
  old_asq = 0;
  old_acq = 0;
  old_cc = 0;
  bar = record {
    u_aqa = 0x1f_001f;
    u_asq = 0x1000;
    u_acq = 0x2000;
    u_cc = 0x46_0001;
    rdy = 0;
    shst = 0;
  };
  admin_q = none;
  dbs = λ i. 0;
  old_dbs = λ i. 0;
}

abbrev host_sq : ℕ → ℕ → List AdminCommand
host_sq address n = replicate n (record { command_id = 0; request = abort_cmd })

nvmev_proc_bars-settles_example :
    Returns
      (λ (s' : BarState).
        (s'.old_aqa ≡ 0x1f_001f)
        × (s'.old_asq ≡ 0x1000)
        × (s'.old_acq ≡ 0x2000)
        × (s'.old_cc ≡ 0x46_0001)
        × SameRegisters bring_up.bar s'.bar
        × (s'.bar.rdy ≡ 1)
        × (s'.admin_q
            ≡ some (record {
              phase = 1;
              sq_depth = 32;
              cq_depth = 32;
              cq_head = 0;
              nvme_sq = host_sq 0x1000 32;
              nvme_cq = host_cq 0x2000 32;
            })))
      (rounds host_sq host_cq 4 bring_up)
nvmev_proc_bars-settles_example =
    nvmev_proc_bars-settles host_sq host_cq bring_up (inr (omega arith))

-- a conventional namespace of a given capacity, and a zoned one with the rest
abbrev two_namespaces : List NsConfig
two_namespaces =
    record { ssd_type = ssd_type_conv; capacity = 4096 }
    ∷ record { ssd_type = ssd_type_zns; capacity = 0 }
    ∷ []

two_namespaces-AllKnown : AllKnown two_namespaces
unfolding AllKnown
two_namespaces-AllKnown = (refl, (refl, tt))

nvmev_namespace_init-Tiles_example :
    Returns
      (λ (nss : List Mapped).
        Tiles 10000 0 0 two_namespaces nss
        × ((k l : ℕ) (a b : Mapped)
            → k < l
            → get_elem? nss k ≡ some a
            → get_elem? nss l ≡ some b
            → (a.mapped + a.size ≤ b.mapped) × (b.mapped + b.size ≤ 10000)))
      (nvmev_namespace_init two_namespaces 10000)
nvmev_namespace_init-Tiles_example =
    nvmev_namespace_init-Tiles two_namespaces 10000 two_namespaces-AllKnown
