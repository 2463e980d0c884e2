-- ===== src/Kv/State/Bytes.antt =====
-- The comparison of the first bytes of two arrays.
use nvme_virt.Prelude.{
  ℕ, zero, suc, ◌<◌, ◌≡◌, ◌≢◌, refl, true, false, ◌==◌, ==_iff, Bool-cases, inl, inr, arith,
}
use nvme_virt.Kv.State.{same_bytes}

pub same_bytes-apart : (a b : ℕ → ℕ) (n i : ℕ) → i < n → a i ≢ b i → same_bytes a b n ≡ false
unfolding same_bytes
same_bytes-apart a b zero i h e = absurd (omega arith)
same_bytes-apart a b (suc n) i h e = elim (Bool-cases (i == n)) [
  | inl q ↦
      let same : i ≡ n = (==_iff i n).0 q in let e' : a n ≢ b n = rw same at e in ground (arith, e')
  | inr q ↦ rw (same_bytes-apart a b n i (ground (arith, q)) e) refl
]

pub same_bytes-all : (a b : ℕ → ℕ) (n : ℕ) → ((i : ℕ) → i < n → a i ≡ b i) → same_bytes a b n ≡ true
unfolding same_bytes
same_bytes-all a b zero h = refl
same_bytes-all a b (suc n) h =
    ground (arith, h n (omega arith), same_bytes-all a b n (λ i g. h i (omega (arith, g))))
