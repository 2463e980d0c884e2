-- ===== src/Ssd/Timing/Init.antt =====
-- A drive as `ssd_init` makes it.
use nvme_virt.Prelude.{
  ℕ, zero, suc, ◌<◌, ◌≡◌, refl, subst, some_inj, some, get_elem?, replicate, arith,
}
use nvme_virt.Channel.Window.{IsValid, HasCredits, chmodel_init-IsValid}
use nvme_virt.Ssd.Params.{SsdParams}
use nvme_virt.Ssd.Layout.{SsdChannel, get_ch, get_lun, ssd_init, ssd_init_ch, ssd_init_nand_lun}
use nvme_virt.Ssd.Timing.Calm.{Calm}

get_elem?-replicate {ℓ} :
    {A : Type ℓ} (n i : ℕ) (a : A) → i < n → get_elem? (replicate n a) i ≡ some a
get_elem?-replicate zero i a h = absurd (omega arith)
get_elem?-replicate (suc n) zero a h = refl
get_elem?-replicate (suc n) (suc i) a h = get_elem?-replicate n i a (omega arith)

replicate_all {ℓ κ} :
    {A : Type ℓ} (P : A → Type κ) (n i : ℕ) (a : A) {b : A}
    → P a
    → get_elem? (replicate n a) i ≡ some b
    → P b
replicate_all P zero i a p h = absurd (ground arith)
replicate_all P (suc n) zero a p h = subst P (some_inj h) p
replicate_all P (suc n) (suc i) a p h = replicate_all P n i a p h

ssd_init_ch-IsValid :
    (spp : SsdParams) → HasCredits spp.ch_bandwidth → IsValid (ssd_init_ch spp).perf_model
unfolding ssd_init_ch
ssd_init_ch-IsValid spp h =
    let v = chmodel_init-IsValid spp.ch_bandwidth h in
    record {
      head_in = v.head_in;
      valid_in = v.valid_in;
      some_credits = v.some_credits;
      credits = v.credits;
    }

-- A drive starts with all its LUNs, idle from time 0 on, and with channel models that are valid.
-- Condition: each link has the bandwidth for a credit in a slot.
pub ssd_init-Calm :
    (spp : SsdParams)
    → HasCredits spp.ch_bandwidth
    → HasCredits spp.pcie_bandwidth
    → Calm spp 0 (ssd_init spp)
unfolding ssd_init ssd_init_ch ssd_init_nand_lun get_lun get_ch
ssd_init-Calm spp g k = record {
  valid = record {
    pcie = chmodel_init-IsValid spp.pcie_bandwidth k;
    chs = λ i c h.
        replicate_all (λ (c : SsdChannel). IsValid c.perf_model) spp.nchs i (ssd_init_ch spp)
          (ssd_init_ch-IsValid spp g) h;
  };
  params = refl;
  luns = λ q c l. (
    ssd_init_nand_lun spp,
    rw (get_elem?-replicate spp.nchs q.ch (ssd_init_ch spp) c)
        (get_elem?-replicate spp.luns_per_ch q.lun (ssd_init_nand_lun spp) l),
    omega arith,
  );
}
