-- ===== src/Ssd/Timing/Idle.antt =====
-- `ssd_next_idle_time` is the latest of the clock and of the times at which the LUNs are free.
use nvme_virt.Prelude.{
  ℕ, zero, suc, ◌+◌, ◌≤◌, ◌<◌, ◌≡◌, ◌⊎◌, inl, inr, refl, List, [], ◌∷◌, some, length, get_elem?,
  arith, max_of, Returns, returns, Returns-bind, Returns-mono, some_inj, subst, sym, ◌∙◌,
}
use nvme_virt.Ssd.Layout.{NandLun, SsdChannel, Ssd}
use nvme_virt.Ssd.Timing.{latest_lun, latest_ch, ssd_next_idle_time}

-- `t` is `t0` or the time of an entry, and no earlier than any of the first `n` of them.
pub record IsLatest (n : ℕ) (luns : List NandLun) (t0 t : ℕ) : Type 0 where
  pub no_sooner : t0 ≤ t
  pub above : (j : ℕ) (l : NandLun) → j < n → get_elem? luns j ≡ some l → l.next_lun_avail_time ≤ t
  pub reached :
      (t ≡ t0)
      ⊎ ((j : ℕ) × (l : NandLun) × (j < n)
          × (get_elem? luns j ≡ some l)
          × (l.next_lun_avail_time ≡ t))

IsLatest-cons :
    (n : ℕ) (lun : NandLun) (luns : List NandLun) (t0 t : ℕ)
    → IsLatest n luns (max_of t0 lun.next_lun_avail_time) t
    → IsLatest (suc n) (lun ∷ luns) t0 t
IsLatest-cons n lun luns t0 t a = record {
  no_sooner = ground (arith, a.no_sooner);
  above = λ j.
      elim j
        as (λ j.
          (l : NandLun)
          → j < suc n
          → get_elem? (lun ∷ luns) j ≡ some l
          → l.next_lun_avail_time ≤ t) [
            | zero ↦ λ l lt e. ground (arith, a.no_sooner, e)
            | suc j ↦ λ l lt e. a.above j l (omega arith) e
          ];
  reached = elim a.reached [
    | inl e ↦ first (ground (arith, a.no_sooner))
    | inr (j, l, lt, at, e) ↦ inr (suc j, l, omega arith, at, e)
  ];
}
  where
    first :
        (t ≡ t0) ⊎ (lun.next_lun_avail_time ≡ t)
        → (t ≡ t0)
          ⊎ ((j : ℕ) × (l : NandLun) × (j < suc n)
              × (get_elem? (lun ∷ luns) j ≡ some l)
              × (l.next_lun_avail_time ≡ t))
    first (inl e) = inl e
    first (inr e) = inr (0, lun, omega arith, refl, e)

latest_lun-IsLatest :
    (n : ℕ) (luns : List NandLun) (t0 : ℕ)
    → n ≤ length luns
    → Returns (IsLatest n luns t0) (latest_lun n luns t0)
unfolding latest_lun
latest_lun-IsLatest zero luns t0 h =
    returns (record {
      no_sooner = omega arith;
      above = λ j l lt. absurd (omega arith);
      reached = inl refl;
    })
latest_lun-IsLatest (suc n) [] t0 h = absurd (omega arith)
latest_lun-IsLatest (suc n) (lun ∷ luns) t0 h =
    Returns-mono (latest_lun-IsLatest n luns (max_of t0 lun.next_lun_avail_time) (omega arith))
      (λ t a. IsLatest-cons n lun luns t0 t a)

-- The same over the first `n` channels of `m` LUNs each.
pub record IsLatestOf (m n : ℕ) (chs : List SsdChannel) (t0 t : ℕ) : Type 0 where
  pub no_sooner : t0 ≤ t
  pub above :
      (i j : ℕ) (c : SsdChannel) (l : NandLun)
      → i < n
      → j < m
      → get_elem? chs i ≡ some c
      → get_elem? c.lun j ≡ some l
      → l.next_lun_avail_time ≤ t
  pub reached :
      (t ≡ t0)
      ⊎ ((i j : ℕ) × (c : SsdChannel) × (l : NandLun) × (get_elem? chs i ≡ some c)
          × (get_elem? c.lun j ≡ some l)
          × (l.next_lun_avail_time ≡ t))

-- Each of the first `n` channels exists and has at least `m` LUNs.
abbrev pub HasLuns : ℕ → ℕ → List SsdChannel → Type 0
HasLuns m zero chs = Unit {0}
HasLuns m (suc n) [] = ⊥
HasLuns m (suc n) (ch ∷ chs) = (m ≤ length ch.lun) × HasLuns m n chs

IsLatestOf-cons :
    (m n : ℕ) (ch : SsdChannel) (chs : List SsdChannel) (t0 t1 t : ℕ)
    → IsLatest m ch.lun t0 t1
    → IsLatestOf m n chs t1 t
    → IsLatestOf m (suc n) (ch ∷ chs) t0 t
IsLatestOf-cons m n ch chs t0 t1 t a b = record {
  no_sooner = omega (arith, a.no_sooner, b.no_sooner);
  above = λ i.
      elim i
        as (λ i.
          (j : ℕ) (c : SsdChannel) (l : NandLun)
          → i < suc n
          → j < m
          → get_elem? (ch ∷ chs) i ≡ some c
          → get_elem? c.lun j ≡ some l
          → l.next_lun_avail_time ≤ t) [
            | zero ↦ λ j c l lt lt' e e'. omega (
              arith,
              b.no_sooner,
              a.above j l lt'
                  (subst (λ (d : SsdChannel). get_elem? d.lun j ≡ some l) (sym (some_inj e)) e'),
            )
            | suc i ↦ λ j c l lt lt' e e'. b.above i j c l (omega arith) lt' e e'
          ];
  reached = elim b.reached [
    | inl e ↦ first e a.reached
    | inr (i, j, c, l, at, there, e) ↦ inr (suc i, j, c, l, at, there, e)
  ];
}
  where
    first :
        t ≡ t1
        → (t1 ≡ t0)
          ⊎ ((j : ℕ) × (l : NandLun) × (j < m)
              × (get_elem? ch.lun j ≡ some l)
              × (l.next_lun_avail_time ≡ t1))
        → (t ≡ t0)
          ⊎ ((i j : ℕ) × (c : SsdChannel) × (l : NandLun) × (get_elem? (ch ∷ chs) i ≡ some c)
              × (get_elem? c.lun j ≡ some l)
              × (l.next_lun_avail_time ≡ t))
    first e (inl e') = inl (e ∙ e')
    first e (inr (j, l, lt, at, e')) = inr (0, j, ch, l, refl, at, e' ∙ sym e)

latest_ch-IsLatestOf :
    (m n : ℕ) (chs : List SsdChannel) (t0 : ℕ)
    → HasLuns m n chs
    → Returns (IsLatestOf m n chs t0) (latest_ch m n chs t0)
unfolding latest_ch
latest_ch-IsLatestOf m zero chs t0 h = returns (record {
  no_sooner = omega arith;
  above = λ i j c l lt. absurd (omega arith);
  reached = inl refl;
})
latest_ch-IsLatestOf m (suc n) [] t0 h = absurd h
latest_ch-IsLatestOf m (suc n) (ch ∷ chs) t0 h =
    Returns-bind (latest_lun-IsLatest m ch.lun t0 h.0) λ t1 a.
      Returns-mono (latest_ch-IsLatestOf m n chs t1 h.1)
        (λ t b. IsLatestOf-cons m n ch chs t0 t1 t a b)

-- A flush waits for exactly the latest LUN: the idle time is the maximum of the clock's reading and
-- of the times at which the device's LUNs are free, if all the LUNs that the parameters promise
-- exist. Nothing but the number of clock readings changes.
pub ssd_next_idle_time-IsLatestOf :
    (clock : ℕ → ℕ) (ssd : Ssd)
    → HasLuns ssd.sp.luns_per_ch ssd.sp.nchs ssd.ch
    → Returns
        (λ r.
          IsLatestOf ssd.sp.luns_per_ch ssd.sp.nchs ssd.ch (clock ssd.ticks) r.0
          × (r.1 ≡ record ssd { ticks = ssd.ticks + 1 }))
        (ssd_next_idle_time clock ssd)
unfolding ssd_next_idle_time
ssd_next_idle_time-IsLatestOf clock ssd h =
    Returns-bind (latest_ch-IsLatestOf ssd.sp.luns_per_ch ssd.sp.nchs ssd.ch (clock ssd.ticks) h)
      λ t a. returns (a, refl)
