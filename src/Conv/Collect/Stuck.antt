-- ===== src/Conv/Collect/Stuck.antt =====
-- The loop that collects garbage behind every command, when the queue of victims is empty.
use nvme_virt.Prelude.{ℕ, zero, suc, ◌≡◌, refl, Bool, true, some, none}
use nvme_virt.Conv.State.{ConvFtl, VictimQueue}
use nvme_virt.Conv.Collect.{running, should_gc_high, do_gc, gc_while_high, select_victim_line}

module _ (clock : ℕ → ℕ) {Q : Type 0} (pq : VictimQueue Q) where
  do_gc-no_victim :
      (ftl : ConvFtl Q) (force : Bool)
      → pq.pqueue_peek ftl.lm.victim_line_pq ≡ none
      → do_gc clock pq ftl force ≡ some ftl
  unfolding do_gc select_victim_line
  do_gc-no_victim ftl force h = rw (h, do_gc, select_victim_line) refl

  -- The loop never ends: after any number of rounds it has met no fault, is still running, and the FTL is
  -- as it was. Condition: the free lines are at or below the threshold, and no line is a victim.
  pub gc_while_high-stuck :
      (fuel : ℕ) (ftl : ConvFtl Q)
      → should_gc_high ftl ≡ true
      → pq.pqueue_peek ftl.lm.victim_line_pq ≡ none
      → gc_while_high clock pq fuel ftl ≡ some (running ftl)
  unfolding gc_while_high
  gc_while_high-stuck zero ftl high h = rw high refl
  gc_while_high-stuck (suc fuel) ftl high h =
      rw (high, do_gc-no_victim ftl true h) (gc_while_high-stuck fuel ftl high h)
