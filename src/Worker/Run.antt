-- ===== src/Worker/Run.antt =====
-- `nvmev_io_worker` of io.c without DMA: one pass over the queue of a worker. The signalling of
-- interrupts behind a pass is left out. `none` is an index outside an array, a missing completion
-- queue, a fault of the data transfer, or fuel that ran out.
pub mod Visit
use nvme_virt.Prelude.{
  ℕ, zero, suc, ◌+◌, ◌-◌, List, [], ◌∷◌, Bool, true, false, Option, some, none, ◌==◌, leb,
  if◌then◌else◌, get_elem?, set, sub32, ◌>>=◌,
}
use nvme_virt.Zns.Request.{BufferRef}
use nvme_virt.Worker.State.{Work, Worker, null}
use nvme_virt.Worker.Doorbell.{CompletionQueue, fill_cq_result}
use nvme_virt.Worker.Prp.{Memory, Direction, do_perform_io}

-- The fields of `struct nvme_rw_command` that a transfer reads.
pub record IoCommand : Type 0 where
  pub direction : Direction
  pub nsid : ℕ
  pub slba : ℕ
  pub length : ℕ
  pub prp1 : ℕ
  pub prp2 : ℕ

-- What a worker shares with the host and the dispatcher: the host's memory, the storage of each
-- namespace, the completion queues, and the calls of `buffer_release` so far, the newest first.
pub record Env : Type 0 where
  pub host : ℕ → ℕ
  pub storages : List (ℕ → ℕ)
  pub cqes : List (Option CompletionQueue)
  pub releases : List (BufferRef × ℕ)

abbrev pub post : Option CompletionQueue → Env → Work → Option Env
post none env w = none
post (some cq) env w = some (record env { cqes = set env.cqes w.cqid (some (fill_cq_result cq w)) })

-- the branch for `nsecs_target <= curr_nsecs`
unfoldable pub complete : Env → Work → Option Env
complete env w =
    let posted = do cq ← get_elem? env.cqes w.cqid; post cq env w
    in if w.is_internal
      then some (record env { releases = (w.write_buffer, w.buffs_to_release) ∷ env.releases })
      else posted

module _ (command : ℕ → ℕ → Option IoCommand) where
  -- `__do_perform_io` for the command in the entry of its submission queue
  unfoldable pub transfer_data : Env → Work → Option Env
  transfer_data env w = do
    cmd ← command w.sqid w.sq_entry
    storage ← get_elem? env.storages (sub32 cmd.nsid 1)
    (n, m) ←
        do_perform_io cmd.direction cmd.slba cmd.length cmd.prp1 cmd.prp2
          (record { host = env.host; storage = storage })
    some (record env { host = m.host; storages = set env.storages (sub32 cmd.nsid 1) m.storage })

  -- `if (w->is_copied == false)`
  abbrev pub copied : Env → Work → Option (Work × Env)
  copied env w = do
    let move = do
      env' ← if w.is_internal then some env else transfer_data env w
      some (record w { is_copied = true }, env')
    if w.is_copied then some (w, env) else move

  -- `if (w->nsecs_target <= curr_nsecs)`
  abbrev pub finish : ℕ → Work → Env → Option (Work × Env)
  finish now w env = do
    let due = do env' ← complete env w; some (record w { is_completed = true }, env')
    if leb w.nsecs_target now then due else some (w, env)

  -- the body of the loop at one entry
  unfoldable pub visit : ℕ → Work → Env → Option (Work × Env)
  visit now w env =
      let run = do (w', env') ← copied env w; finish now w' env'
      in if w.is_completed then some (w, env) else run

  -- `while (curr != -1)`; `clock k` is the local clock at the k-th entry, corrected to the wall clock.
  pub pass : ℕ → (ℕ → ℕ) → ℕ → Worker → ℕ → Env → Option (Worker × Env)
  pass zero clock k worker curr env = if curr == null then some (worker, env) else none
  pass (suc fuel) clock k worker curr env =
      let step = do
        w ← get_elem? worker.work_queue curr
        (w', env') ← visit (clock k) w env
        pass fuel clock (k + 1)
            (record worker { work_queue = set worker.work_queue curr w'; latest_nsecs = clock k })
            w'.next env'
      in if curr == null then some (worker, env) else step
