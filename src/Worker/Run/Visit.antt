-- ===== src/Worker/Run/Visit.antt =====
-- What a worker does at one entry of its queue.
use nvme_virt.Prelude.{
  ℕ, ◌≡◌, refl, ◌∷◌, true, false, Option, some, leb, ◌||◌, if◌then◌else◌, get_elem?, set, Returns,
  returns, Returns-bind, Returns-if, Returns-inv, Option-cases, sub32, if_elim, sym, ap, ◌∙◌, subst,
  inl, inr, arith,
}
use nvme_virt.Worker.Prp.{do_perform_io}
use nvme_virt.Worker.State.{Work}
use nvme_virt.Worker.Doorbell.{CompletionQueue, fill_cq_result}
use nvme_virt.Worker.Run.{IoCommand, Env, complete, transfer_data, copied, finish, visit}

-- The queues and the releases are as before.
abbrev pub Quiet : Env → Env → Type 0
Quiet env env' = (env'.cqes ≡ env.cqes) × (env'.releases ≡ env.releases)

-- An entry with a completion to report: a request's goes to its queue, and an internal one releases
-- its buffer.
pub record Reported (cq : CompletionQueue) (env : Env) (w : Work) (env' : Env) : Type 0 where
  pub cqes :
      env'.cqes
      ≡ (if w.is_internal then env.cqes else set env.cqes w.cqid (some (fill_cq_result cq w)))
  pub releases : env'.releases ≡ (
      if w.is_internal then (w.write_buffer, w.buffs_to_release) ∷ env.releases else env.releases)

-- The memory of the host and the storages behind the visit of an entry that is not completed: those of
-- the transfer, if the data are not copied yet and the entry has any, and as before if not.
abbrev pub Transferred : (ℕ → ℕ → Option IoCommand) → Env → Work → Env → Type 0
Transferred command env w env' =
    Returns (λ (e : Env). (env'.host ≡ e.host) × (env'.storages ≡ e.storages))
      (if w.is_copied || w.is_internal then some env else transfer_data command env w)

pub record Visited (command : ℕ → ℕ → Option IoCommand) (now : ℕ) (cq : CompletionQueue) (env : Env)
    (w : Work) (after : Work × Env) : Type 0 where
  pub completed : after.0.is_completed ≡ (w.is_completed || leb w.nsecs_target now)
  pub copied : w.is_completed ≡ false → after.0.is_copied ≡ true
  pub links :
      (after.0.next ≡ w.next) × (after.0.prev ≡ w.prev) × (after.0.nsecs_target ≡ w.nsecs_target)
  pub once : w.is_completed ≡ true → after.1 ≡ env
  pub data_moved : w.is_completed ≡ false → Transferred command env w after.1
  pub early : w.is_completed ≡ false → leb w.nsecs_target now ≡ false → Quiet env after.1
  pub due : w.is_completed ≡ false → leb w.nsecs_target now ≡ true → Reported cq env w after.1

module _ (command : ℕ → ℕ → Option IoCommand) where
  transfer_data-Quiet :
      (env : Env) (w : Work)
      → Returns (λ (e : Env). Unit {0}) (transfer_data command env w)
      → Returns (Quiet env) (transfer_data command env w)
  unfolding transfer_data
  transfer_data-Quiet env w r =
      let (env', h, p) = Returns-inv r in
      elim (Option-cases (command w.sqid w.sq_entry)) [
        | inl e ↦ absurd (ground (arith, h, e))
        | inr (cmd, e) ↦ elim (Option-cases (get_elem? env.storages (sub32 cmd.nsid 1))) [
          | inl f ↦ absurd (ground (arith, h, e, f))
          | inr (storage, f) ↦
              elim (Option-cases (
                do_perform_io cmd.direction cmd.slba cmd.length cmd.prp1 cmd.prp2
                  (record { host = env.host; storage = storage }))) [
                    | inl g ↦ absurd (ground (arith, h, e, f, g))
                    | inr (m, g) ↦ rw (e, f, g) (returns (refl, refl))
                  ]
        ]
      ]

  copied-Quiet :
      (env : Env) (w : Work)
      → Returns (λ (e : Env). Unit {0}) (transfer_data command env w)
      → Returns
          (λ (r : Work × Env).
            (record w { is_copied = true } ≡ r.0) × Quiet env r.1 × Transferred command env w r.1)
          (copied command env w)
  copied-Quiet env w r =
      Returns-if w.is_copied
        (λ c.
          returns (
            ap (λ b. record w { is_copied = b }) (sym c),
            (refl, refl),
            rw c (returns (refl, refl)),
          ))
        (λ c.
          Returns-bind
            {Q = λ (s : Work × Env).
              (record w { is_copied = true } ≡ s.0) × Quiet env s.1 × Transferred command env w s.1}
            (Returns-if {P = λ (e : Env). Quiet env e × Transferred command env w e} w.is_internal
              (λ i. rw (c, i) (returns ((refl, refl), returns (refl, refl))))
              (λ i.
                let (env', h, q) = Returns-inv (transfer_data-Quiet env w r) in
                rw (h, c, i) (returns (q, returns (refl, refl)))))
            λ env' q. returns (refl, q.0, q.1))

  complete-Reported :
      (cq : CompletionQueue) (w : Work) (env env1 : Env)
      → get_elem? env.cqes w.cqid ≡ some (some cq)
      → Quiet env env1
      → Returns
          (λ (e : Env). Reported cq env w e × (e.host ≡ env1.host) × (e.storages ≡ env1.storages))
          (complete env1 (record w { is_copied = true }))
  unfolding complete fill_cq_result
  complete-Reported cq w env env1 at q =
      let at1 : get_elem? env1.cqes w.cqid ≡ some (some cq) =
        ap (λ l. get_elem? l w.cqid) q.0 ∙ at in
      Returns-if w.is_internal
        (λ i. returns (
          record {
            cqes =
                if_elim (λ l. env1.cqes ≡ l) w.is_internal (λ _. q.0)
                  (λ o. absurd (ground (arith, i, o)));
            releases =
                if_elim (λ l. (w.write_buffer, w.buffs_to_release) ∷ env1.releases ≡ l)
                  w.is_internal (λ _. ap (λ l. (w.write_buffer, w.buffs_to_release) ∷ l) q.1)
                  (λ o. absurd (ground (arith, i, o)));
          },
          refl,
          refl,
        ))
        (λ i.
          let done = some (fill_cq_result cq w) in
          rw at1 (
            returns (
              record {
                cqes =
                    if_elim (λ l. set env1.cqes w.cqid done ≡ l) w.is_internal
                      (λ o. absurd (ground (arith, i, o))) (λ _. ap (λ l. set l w.cqid done) q.0);
                releases =
                    if_elim (λ l. env1.releases ≡ l) w.is_internal
                      (λ o. absurd (ground (arith, i, o))) (λ _. q.1);
              },
              refl,
              refl,
            )))

  finish-Visited :
      (now : ℕ) (cq : CompletionQueue) (w : Work) (env env1 : Env)
      → w.is_completed ≡ false
      → get_elem? env.cqes w.cqid ≡ some (some cq)
      → Quiet env env1
      → Transferred command env w env1
      → Returns
          (Visited command now cq env w)
          (finish command now (record w { is_copied = true }) env1)
  finish-Visited now cq w env env1 fresh at q m =
      Returns-if (leb w.nsecs_target now)
        (λ t. Returns-bind (complete-Reported cq w env env1 at q) λ env2 reported. returns (record {
          data_moved = λ _. rw (reported.1, reported.2) m;
          completed = ground (arith, t, fresh);
          copied = λ _. refl;
          links = (refl, refl, refl);
          once = λ o. absurd (ground (arith, o, fresh));
          early = λ _ o. absurd (ground (arith, o, t));
          due = λ _ _. reported.0;
        }))
        (λ t. returns (record {
          data_moved = λ _. m;
          completed = ground (arith, t, fresh);
          copied = λ _. refl;
          links = (refl, refl, refl);
          once = λ o. absurd (ground (arith, o, fresh));
          early = λ _ _. q;
          due = λ _ o. absurd (ground (arith, o, t));
        }))

  -- At an entry of its queue that is not completed a worker moves the data if it has not done so yet, and
  -- only then changes the memory of the host or a storage; it reports the completion exactly when the
  -- target time has come and it has not been reported before: then and only then a completion is
  -- posted, or a buffer released. Condition: the transfer of the data and the completion queue exist.
  pub visit-Visited :
      (now : ℕ) (cq : CompletionQueue) (w : Work) (env : Env)
      → Returns (λ (e : Env). Unit {0}) (transfer_data command env w)
      → get_elem? env.cqes w.cqid ≡ some (some cq)
      → Returns (Visited command now cq env w) (visit command now w env)
  unfolding visit complete
  visit-Visited now cq w env moves at =
      Returns-if w.is_completed
        (λ done. returns (record {
          data_moved = λ o. ground (arith, done, o);
          completed = ground (arith, done);
          copied = λ o. ground (arith, done, o);
          links = (refl, refl, refl);
          once = λ _. refl;
          early = λ o. ground (arith, done, o);
          due = λ o. ground (arith, done, o);
        }))
        (λ fresh. Returns-bind (copied-Quiet env w moves) λ r p.
          subst (λ v. Returns (Visited command now cq env w) (finish command now v r.1)) p.0
            (finish-Visited now cq w env r.1 fresh at p.1 p.2))
