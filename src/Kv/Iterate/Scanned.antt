-- ===== src/Kv/Iterate/Scanned.antt =====
-- What the scan of `kv_iter_read` puts into its buffer.
use nvme_virt.Prelude.{
  ℕ, zero, suc, ◌+◌, ◌-◌, ◌*◌, ◌<◌, ◌≤◌, ◌≡◌, ◌⊎◌, Bool, refl, sym, ◌∙◌, true, false, Bool-cases,
  inl, inr, if◌then◌else◌, ltb, leb, ◌&&◌, ◌==◌, ==_iff, arith,
}
use nvme_virt.Kv.State.{KvTable, MappingEntry}
use nvme_virt.Kv.Command.{IterContext}
use nvme_virt.Kv.Iterate.{Scan, scan, in_iterator, put_key}

module _ (kv : KvTable) (handle : IterContext) where
  abbrev pub is_wanted : ℕ → Bool
  is_wanted t = in_iterator handle (kv.kv_mapping_table t)

  -- the wanted slots among the `n` from `pos` on
  unfoldable pub count_wanted : ℕ → ℕ → ℕ
  count_wanted pos zero = 0
  count_wanted pos (suc n) = (if is_wanted pos then 1 else 0) + count_wanted (pos + 1) n

  -- A wanted slot is counted behind those before it.
  pub count_wanted-lt :
      (pos n m : ℕ) → n < m → is_wanted (pos + n) ≡ true → count_wanted pos n < count_wanted pos m
  unfolding count_wanted
  count_wanted-lt pos n zero h w = absurd (omega (arith, h))
  count_wanted-lt pos zero (suc m) h w =
      let here : pos + 0 ≡ pos = omega arith in
      let w' : is_wanted pos ≡ true = rw here at w in rw w' (omega arith)
  count_wanted-lt pos (suc n) (suc m) h w =
      let here : pos + suc n ≡ pos + 1 + n = omega arith in
      let w' : is_wanted (pos + 1 + n) ≡ true = rw here at w in
      omega (arith, count_wanted-lt (pos + 1) n m (omega (arith, h)) w')

  -- The buffer of `r` goes on from that of `s` with the keys of the wanted slots between the two
  -- positions, in their order, 20 bytes for each, and `r` stands at the end of the table, or at a wanted
  -- slot for which there is no room.
  pub record Scanned (s r : Scan) : Type 0 where
    pub behind : s.pos ≤ r.pos
    pub inside : r.pos ≤ kv.hash_slots
    pub counted : r.nr_keys ≡ s.nr_keys + count_wanted s.pos (r.pos - s.pos)
    pub offset : r.buf_offset ≡ s.buf_offset + 20 * count_wanted s.pos (r.pos - s.pos)
    pub keys :
        (t i : ℕ)
        → s.pos ≤ t
        → t < r.pos
        → is_wanted t ≡ true
        → i < 16
        → r.buf (s.buf_offset + 20 * count_wanted s.pos (t - s.pos) + 4 + i)
          ≡ (kv.kv_mapping_table t).key i
    pub room : s.buf_offset ≤ 1024 → r.buf_offset ≤ 1024
    pub kept : (a : ℕ) → a < s.buf_offset → r.buf a ≡ s.buf a
    pub stops :
        ((r.ended ≡ true) × (r.pos ≡ kv.hash_slots))
        ⊎ ((r.ended ≡ s.ended) × (is_wanted r.pos ≡ true) × (1024 < r.buf_offset + 20))

  count_next :
      (pos q : ℕ)
      → pos < q
      → count_wanted pos (q - pos)
        ≡ (if is_wanted pos then 1 else 0) + count_wanted (pos + 1) (q - (pos + 1))
  unfolding count_wanted
  count_next pos q h = let split : q - pos ≡ suc (q - (pos + 1)) = omega (arith, h) in rw split refl

  count_none : (pos : ℕ) → count_wanted pos (pos - pos) ≡ 0
  unfolding count_wanted
  count_none pos = let nothing : pos - pos ≡ 0 = omega arith in rw nothing refl

  scan_pass :
      (s r : Scan)
      → is_wanted s.pos ≡ false
      → Scanned (record s { pos = s.pos + 1 }) r
      → Scanned s r
  scan_pass s r w x =
      let next : (q : ℕ)
          → s.pos < q
          → count_wanted s.pos (q - s.pos) ≡ count_wanted (s.pos + 1) (q - (s.pos + 1)) =
        λ q h. count_next s.pos q h ∙ (rw w (omega arith)) in
      let all = next r.pos (omega (arith, x.behind)) in
      record {
        behind = omega (arith, x.behind);
        inside = x.inside;
        counted = omega (arith, x.counted, all);
        offset = omega (arith, x.offset, all);
        keys = λ t i g h y l. elim (Bool-cases (t == s.pos)) [
          | inl e ↦
              let same : t ≡ s.pos = (==_iff t s.pos).0 e in
              absurd (let clash : true ≡ false = sym y ∙ (rw same w) in cc)
          | inr e ↦ rw (next t (ground (arith, g, e))) (x.keys t i (ground (arith, g, e)) h y l)
        ];
        room = x.room;
        kept = x.kept;
        stops = x.stops;
      }

  put_key-key :
      (s : Scan) (e : MappingEntry) (i : ℕ)
      → i < 16
      → (put_key s e).buf (s.buf_offset + 4 + i) ≡ e.key i
  put_key-key s e i h =
      let in_key : (leb (s.buf_offset + 4) (s.buf_offset + 4 + i)
            && ltb (s.buf_offset + 4 + i) (s.buf_offset + 4 + 16))
          ≡ true =
        ground (arith, h) in
      let back : 0 + (s.buf_offset + 4 + i - (s.buf_offset + 4)) ≡ i = omega arith in
      rw (in_key, back) refl

  put_key-kept :
      (s : Scan) (e : MappingEntry) (a : ℕ) → a < s.buf_offset → (put_key s e).buf a ≡ s.buf a
  put_key-kept s e a h =
      let low : leb s.buf_offset a ≡ false = ground (arith, h) in
      let lower : leb (s.buf_offset + 4) a ≡ false = ground (arith, h) in rw (lower, low) refl

  scan_put :
      (s r : Scan)
      → is_wanted s.pos ≡ true
      → s.buf_offset + 20 ≤ 1024
      → Scanned (record (put_key s (kv.kv_mapping_table s.pos)) { pos = s.pos + 1 }) r
      → Scanned s r
  scan_put s r w few x =
      let next : (q : ℕ)
          → s.pos < q
          → count_wanted s.pos (q - s.pos) ≡ 1 + count_wanted (s.pos + 1) (q - (s.pos + 1)) =
        λ q h. count_next s.pos q h ∙ (rw w refl) in
      let all = next r.pos (omega (arith, x.behind)) in
      record {
        behind = omega (arith, x.behind);
        inside = x.inside;
        counted = omega (arith, x.counted, all);
        offset = omega (arith, x.offset, all);
        keys = λ t i g h y l. elim (Bool-cases (t == s.pos)) [
          | inl e ↦
              let same : t ≡ s.pos = (==_iff t s.pos).0 e in
              let here : s.buf_offset + 20 * count_wanted s.pos (t - s.pos) + 4 + i
                  ≡ s.buf_offset + 4 + i =
                rw same (omega (arith, count_none s.pos)) in
              rw (here, same)
                (x.kept (s.buf_offset + 4 + i) (omega (arith, l))
                  ∙ put_key-key s (kv.kv_mapping_table s.pos) i l)
          | inr e ↦
              let later : s.buf_offset + 20 * count_wanted s.pos (t - s.pos) + 4 + i
                  ≡ s.buf_offset
                    + 4
                    + 16
                    + 20 * count_wanted (s.pos + 1) (t - (s.pos + 1))
                    + 4
                    + i =
                omega (arith, next t (ground (arith, g, e))) in
              rw later (x.keys t i (ground (arith, g, e)) h y l)
        ];
        room = λ l. x.room (omega (arith, few));
        kept = λ a h. x.kept a (omega (arith, h)) ∙ put_key-kept s (kv.kv_mapping_table s.pos) a h;
        stops = x.stops;
      }

  scan_end : (s : Scan) → s.pos ≡ kv.hash_slots → Scanned s (record s { ended = true })
  scan_end s e = record {
    behind = omega arith;
    inside = omega (arith, e);
    counted = omega (arith, count_none s.pos);
    offset = omega (arith, count_none s.pos);
    keys = λ t i g h y l. absurd (omega (arith, g, h));
    room = λ l. l;
    kept = λ a h. refl;
    stops = inl (refl, e);
  }

  scan_full :
      (s : Scan)
      → s.pos < kv.hash_slots
      → is_wanted s.pos ≡ true
      → 1024 < s.buf_offset + 20
      → Scanned s s
  scan_full s h w full = record {
    behind = omega arith;
    inside = omega (arith, h);
    counted = omega (arith, count_none s.pos);
    offset = omega (arith, count_none s.pos);
    keys = λ t i g h y l. absurd (omega (arith, g, h));
    room = λ l. l;
    kept = λ a h. refl;
    stops = inr (refl, w, full);
  }

  scan_onward :
      (fuel : ℕ) (b : Scan)
      → b.pos ≤ kv.hash_slots
      → (b.pos < kv.hash_slots → Scanned b (scan fuel kv handle b))
      → Scanned b
          (if b.pos == kv.hash_slots then record b { ended = true } else scan fuel kv handle b)
  scan_onward fuel b h rec = elim (Bool-cases (b.pos == kv.hash_slots)) [
    | inl e ↦ rw e (scan_end b ((==_iff b.pos kv.hash_slots).0 e))
    | inr e ↦ rw e (rec (ground (arith, h, e)))
  ]

  -- The scan, from a slot of the table.
  pub scan-Scanned :
      (fuel : ℕ) (s : Scan)
      → s.pos < kv.hash_slots
      → fuel ≡ kv.hash_slots - s.pos
      → Scanned s (scan fuel kv handle s)
  unfolding scan
  scan-Scanned zero s h f = absurd (omega (arith, h, f))
  scan-Scanned (suc fuel) s h f = elim (Bool-cases (is_wanted s.pos)) [
    | inl w ↦ elim (Bool-cases (ltb 1024 (s.buf_offset + 4 + 16))) [
      | inl full ↦ rw (w, full) (scan_full s h w (ground (arith, full)))
      | inr room ↦
          let b = record (put_key s (kv.kv_mapping_table s.pos)) { pos = s.pos + 1 } in
          rw (w, room)
            (scan_put s _ w (ground (arith, room)) (
              scan_onward fuel b (omega (arith, h))
                λ more. scan-Scanned fuel b more (omega (arith, f))))
    ]
    | inr w ↦
        let b = record s { pos = s.pos + 1 } in
        rw w (
          scan_pass s _ w (
            scan_onward fuel b (omega (arith, h))
              λ more. scan-Scanned fuel b more (omega (arith, f))))
  ]
