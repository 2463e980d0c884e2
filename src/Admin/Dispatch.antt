-- ===== src/Admin/Dispatch.antt =====
-- `nvmev_proc_dbs` of main.c: one pass of the dispatcher over the doorbells. `none` is a queue outside the
-- arrays of queues, or a fault of a handler.
use nvme_virt.Prelude.{
  ℕ, zero, suc, ◌+◌, List, [], ◌∷◌, Option, some, none, ◌==◌, if◌then◌else◌, get_elem?, set, ◌>>=◌,
}
use nvme_virt.Worker.Doorbell.{SubmissionQueue, Completion, nvmev_proc_io_sq, nvmev_proc_io_cq}
use nvme_virt.Admin.State.{IoSq, IoCq, Dev, set_db, sq_db, cq_db}
use nvme_virt.Admin.Run.{nvmev_proc_admin_sq}

-- The submission queues as the completions count them, and back.
abbrev pub io_sq : Option IoSq → Option SubmissionQueue
io_sq none = none
io_sq (some io) = some (io.sq)

abbrev pub put_sq : Option IoSq → Option SubmissionQueue → Option IoSq
put_sq (some io) (some sq) = some (record io { sq = sq })
put_sq io sq = io

pub io_sqs : List (Option IoSq) → List (Option SubmissionQueue)
io_sqs [] = []
io_sqs (io ∷ ios) = io_sq io ∷ io_sqs ios

pub put_sqs : List (Option IoSq) → List (Option SubmissionQueue) → List (Option IoSq)
put_sqs (io ∷ ios) (sq ∷ sqs) = put_sq io sq ∷ put_sqs ios sqs
put_sqs ios sqs = ios

module _ {S : Type 0} (proc_io : ℕ → ℕ → S → Option (Option ℕ × S)) where
  -- A submission queue with the index `qid`, which may not exist; `proc_io` is `__nvmev_proc_io` on it.
  abbrev pub proc_sq_at : Option IoSq → ℕ → Dev → S → Option (Dev × S)
  proc_sq_at none qid dev s = some (dev, s)
  proc_sq_at (some io) qid dev s =
      let new_db = dev.dbs (sq_db qid) in
      let old_db = dev.old_dbs (sq_db qid) in
      let fetch = do
        (latest, sq, s') ← nvmev_proc_io_sq (proc_io qid) io.sq new_db old_db s
        some (
          record dev {
            sqes = set dev.sqes qid (some (record io { sq = sq }));
            old_dbs = set_db dev.old_dbs (sq_db qid) latest;
          },
          s',
        )
      in if new_db == old_db then some (dev, s) else fetch

  -- the submission queues from `qid` on, `n` of them
  pub proc_sqs : ℕ → ℕ → Dev → S → Option (Dev × S)
  proc_sqs zero qid dev s = some (dev, s)
  proc_sqs (suc n) qid dev s = do
    io ← get_elem? dev.sqes qid
    (dev', s') ← proc_sq_at io qid dev s
    proc_sqs n (qid + 1) dev' s'

  abbrev pub proc_cq_at : Option IoCq → ℕ → Dev → Option Dev
  proc_cq_at none qid dev = some dev
  proc_cq_at (some io) qid dev =
      let new_db = dev.dbs (cq_db qid) in
      let old_db = dev.old_dbs (cq_db qid) in
      let take = do
        (cq, sqes) ← nvmev_proc_io_cq io.cq new_db old_db (io_sqs dev.sqes)
        some (record dev {
          cqes = set dev.cqes qid (some (record io { cq = cq }));
          sqes = put_sqs dev.sqes sqes;
          old_dbs = set_db dev.old_dbs (cq_db qid) new_db;
        })
      in if new_db == old_db then some dev else take

  pub proc_cqs : ℕ → ℕ → Dev → Option Dev
  proc_cqs zero qid dev = some dev
  proc_cqs (suc n) qid dev = do
    io ← get_elem? dev.cqes qid
    dev' ← proc_cq_at io qid dev
    proc_cqs n (qid + 1) dev'

  -- The doorbells of the admin queue; that of its completions is only noted.
  pub proc_admin_dbs : (ℕ → ℕ → List Completion) → Dev → Option Dev
  proc_admin_dbs host_cq dev = do
    let served = do
      dev' ← nvmev_proc_admin_sq host_cq (dev.dbs 0) (dev.old_dbs 0) dev
      some (record dev' { old_dbs = set_db dev'.old_dbs 0 (dev.dbs 0) })
    dev' ← if dev.dbs 0 == dev.old_dbs 0 then some dev else served
    some (record dev' { old_dbs = set_db dev'.old_dbs 1 (dev'.dbs 1) })

  pub nvmev_proc_dbs : (ℕ → ℕ → List Completion) → Dev → S → Option (Dev × S)
  nvmev_proc_dbs host_cq dev s = do
    dev1 ← proc_admin_dbs host_cq dev
    (dev2, s') ← proc_sqs dev1.nr_sq 1 dev1 s
    dev3 ← proc_cqs dev2.nr_cq 1 dev2
    some (dev3, s')
