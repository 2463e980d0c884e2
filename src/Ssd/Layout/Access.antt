-- ===== src/Ssd/Layout/Access.antt =====
-- Reading a LUN or a channel behind a write of a LUN.
use nvme_virt.Prelude.{
  ◌≡◌, ◌≢◌, ◌⊎◌, inl, inr, some, Bool-cases, ==_iff, ◌==◌, get_elem?, set, arith,
  get_elem?-set_self, get_elem?-set_ne, get_elem?_bound,
}
use nvme_virt.Ssd.Layout.{Ssd, SsdChannel, NandLun, Ppa, get_ch, get_lun, put_lun}

module _ (ssd : Ssd) (ppa : Ppa) (old_ch ch : SsdChannel) (old lun : NandLun)
    (at : get_ch ssd ppa ≡ some old_ch) (there : get_elem? old_ch.lun ppa.lun ≡ some old)
    (same : ch.lun ≡ old_ch.lun) where
  pub get_lun-put_self : get_lun (put_lun ssd ppa ch lun) ppa ≡ some lun
  unfolding get_ch get_lun put_lun
  get_lun-put_self =
      let new = record ch { lun = set ch.lun ppa.lun lun } in
      rw (get_elem?-set_self ssd.ch ppa.ch new (get_elem?_bound ssd.ch ppa.ch at), same)
        (get_elem?-set_self old_ch.lun ppa.lun lun (get_elem?_bound old_ch.lun ppa.lun there))

  pub get_lun-put_ne :
      (q : Ppa)
      → (q.ch ≢ ppa.ch) ⊎ (q.lun ≢ ppa.lun)
      → get_lun (put_lun ssd ppa ch lun) q ≡ get_lun ssd q
  unfolding get_ch get_lun put_lun
  get_lun-put_ne q h =
      let new = record ch { lun = set ch.lun ppa.lun lun } in
      elim (Bool-cases (ppa.ch == q.ch)) [
        | inl e ↦
            let ch_eq : ppa.ch ≡ q.ch = (==_iff ppa.ch q.ch).0 e in
            rw
              (
                ← ch_eq,
                get_elem?-set_self ssd.ch ppa.ch new (get_elem?_bound ssd.ch ppa.ch at),
                at,
                same,
              )
              (get_elem?-set_ne old_ch.lun ppa.lun q.lun lun (ground arith))
        | inr e ↦ rw (get_elem?-set_ne ssd.ch ppa.ch q.ch new (ground arith))
      ]
