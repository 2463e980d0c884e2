-- ===== src/Admin/Run/Answered.antt =====
-- What a doorbell of the admin queue leads to: one completion for each command that is not an abort.
use nvme_virt.Prelude.{
  ℕ, zero, suc, ◌<◌, ◌≡◌, refl, sym, subst, ◌∙◌, ap, List, [], ◌++◌, Option, some, none, ltb, ◌==◌,
  get_elem?, length, length-set, get_elem?_total, lt→ltb, Returns, returns, Returns-bind,
  Returns-mono, Returns-if, Returns-assert, arith,
}
use nvme_virt.Worker.Doorbell.{Completion, num_proc, next_entry}
use nvme_virt.Admin.State.{
  AdminRequest, create_cq, delete_cq, create_sq, delete_sq, get_log_page, identify, set_features,
  get_features, abort_cmd, async_event, unhandled, AdminCommand, AdminQueue, Dev,
}
use nvme_virt.Admin.Queues.{admin_create_cq, admin_delete_cq, admin_create_sq, admin_delete_sq}
use nvme_virt.Admin.Run.{
  admin_set_features, admin_get_features, admin_request, proc_admin_req, proc_admin_entries,
  nvmev_proc_admin_sq,
}
use nvme_virt.Admin.Posted.{IsRing, Completes, all_answered, Posted-none, Completes-trans}
use nvme_virt.Admin.Run.Served.{IsServed, answers, Served, posted, log_page-Served, identify-Served}

module _ (host_cq : ℕ → ℕ → List Completion) where
  admin_request-Served :
      (dev : Dev) (eid : ℕ) (q : AdminRequest) (cmd : AdminCommand)
      → IsRing dev.admin_q
      → get_elem? dev.admin_q.nvme_sq eid ≡ some cmd
      → IsServed (length dev.sqes) (length dev.cqes) dev.ns q
      → Returns (Served dev (answers q (eid, cmd.command_id))) (admin_request host_cq dev eid q)
  unfolding admin_request admin_create_cq admin_delete_cq admin_create_sq admin_delete_sq
      admin_set_features admin_get_features
  admin_request-Served dev eid (delete_sq qid) cmd r h s =
      Returns-assert (ltb qid (length dev.sqes)) (lt→ltb qid (length dev.sqes) s)
        (posted dev eid r cmd h _ 0 0 0 refl (length-set dev.sqes qid none) refl refl)
  admin_request-Served dev eid (create_sq sqid cqid qsize sq_flags prp1) cmd r h s =
      Returns-assert (ltb sqid (length dev.sqes)) (lt→ltb sqid (length dev.sqes) s)
        (posted dev eid r cmd h _ 0 0 0 refl (length-set dev.sqes sqid _) refl refl)
  admin_request-Served dev eid (get_log_page numdu numdl lid prp1) cmd r h s =
      log_page-Served dev eid r cmd h numdu numdl lid prp1 s
  admin_request-Served dev eid (delete_cq qid) cmd r h s =
      Returns-assert (ltb qid (length dev.cqes)) (lt→ltb qid (length dev.cqes) s)
        (posted dev eid r cmd h _ 0 0 0 refl refl (length-set dev.cqes qid none) refl)
  admin_request-Served dev eid (create_cq cqid qsize cq_flags irq_vector prp1) cmd r h s =
      Returns-assert (ltb cqid (length dev.cqes)) (lt→ltb cqid (length dev.cqes) s)
        (posted dev eid r cmd h _ 0 0 0 refl refl (length-set dev.cqes cqid _) refl)
  admin_request-Served dev eid (identify cns nsid prp1) cmd r h s =
      identify-Served dev eid r cmd h cns nsid prp1 s
  admin_request-Served dev eid abort_cmd cmd r h s =
      returns ((Posted-none dev.admin_q r, all_answered), refl, refl, refl)
  admin_request-Served dev eid (set_features fid dword11) cmd r h s =
      Returns-if (fid == 0x07) (λ q. posted dev eid r cmd h _ 0 _ 0 refl refl refl refl)
        (λ q. posted dev eid r cmd h dev 0 0 0 refl refl refl refl)
  admin_request-Served dev eid (get_features fid) cmd r h s =
      posted dev eid r cmd h dev 0 _ 0 refl refl refl refl
  admin_request-Served dev eid async_event cmd r h s =
      posted dev eid r cmd h dev 0 0 0 refl refl refl refl
  admin_request-Served dev eid (unhandled opcode) cmd r h s =
      posted dev eid r cmd h dev 1 0 0 refl refl refl refl

abbrev answers_of : Option AdminCommand → ℕ → List (ℕ × ℕ)
answers_of none eid = []
answers_of (some cmd) eid = answers cmd.request (eid, cmd.command_id)

-- What is answered of `n` entries of the submission queue, from `curr` on.
pub owed : ℕ → AdminQueue → ℕ → List (ℕ × ℕ)
owed zero q curr = []
owed (suc n) q curr =
    answers_of (get_elem? q.nvme_sq curr) curr ++ owed n q (next_entry q.sq_depth curr)

owed-same :
    (n curr : ℕ) (q q' : AdminQueue)
    → q'.nvme_sq ≡ q.nvme_sq
    → q'.sq_depth ≡ q.sq_depth
    → owed n q' curr ≡ owed n q curr
unfolding owed
owed-same zero curr q q' e d = refl
owed-same (suc n) curr q q' e d =
    ap (λ sq. answers_of (get_elem? sq curr) curr ++ owed n q' (next_entry q'.sq_depth curr)) e
    ∙ ap (λ depth. answers_of (get_elem? q.nvme_sq curr) curr ++ owed n q' (next_entry depth curr))
        d
    ∙ ap (λ x. answers_of (get_elem? q.nvme_sq curr) curr ++ x)
        (owed-same n (next_entry q.sq_depth curr) q q' e d)

-- every command in the submission queue can be served
abbrev pub AllServed : Dev → Type 0
AllServed dev =
    (i : ℕ) (cmd : AdminCommand)
    → get_elem? dev.admin_q.nvme_sq i ≡ some cmd
    → IsServed (length dev.sqes) (length dev.cqes) dev.ns cmd.request

module _ (host_cq : ℕ → ℕ → List Completion) where
  AllServed-Served :
      (dev dev' : Dev) (n : List (ℕ × ℕ)) → AllServed dev → Served dev n dev' → AllServed dev'
  AllServed-Served dev dev' n all (p, s, c, ns) i cmd found =
      let before = all i cmd (rw p.0.same_sq at found) in
      subst (λ x. IsServed x (length dev'.cqes) dev'.ns cmd.request) (sym s)
        (subst (λ x. IsServed (length dev.sqes) x dev'.ns cmd.request) (sym c)
          (subst (λ x. IsServed (length dev.sqes) (length dev.cqes) x cmd.request) (sym ns) before))

  proc_admin_entries-Posted :
      (n curr : ℕ) (dev : Dev)
      → IsRing dev.admin_q
      → curr < dev.admin_q.sq_depth
      → AllServed dev
      → Returns
          (λ (dev' : Dev). Completes (owed n dev.admin_q curr) dev.admin_q dev'.admin_q)
          (proc_admin_entries host_cq n curr dev)
  unfolding proc_admin_entries proc_admin_req owed
  proc_admin_entries-Posted zero curr dev r h all =
      returns (Posted-none dev.admin_q r, all_answered)
  proc_admin_entries-Posted (suc n) curr dev r h all =
      let (cmd, found) = get_elem?_total dev.admin_q.nvme_sq curr (omega (arith, h, r.entries)) in
      rw found (
        Returns-bind
          (admin_request-Served host_cq dev curr cmd.request cmd r found (all curr cmd found))
          λ dev' s.
            let depth = s.0.0.same_sq_depth in
            let inside : next_entry dev'.admin_q.sq_depth curr < dev'.admin_q.sq_depth =
              ground (arith, h, depth) in
            Returns-mono
              (proc_admin_entries-Posted n (next_entry dev'.admin_q.sq_depth curr) dev' s.0.0.ring
                inside
                (AllServed-Served dev dev' (answers cmd.request (curr, cmd.command_id)) all s))
              λ dev'' p.
                let same : owed n dev'.admin_q (next_entry dev'.admin_q.sq_depth curr)
                    ≡ owed n dev.admin_q (next_entry dev.admin_q.sq_depth curr) =
                  ap (λ d. owed n dev'.admin_q (next_entry d curr)) depth
                  ∙ owed-same n (next_entry dev.admin_q.sq_depth curr) dev.admin_q dev'.admin_q
                      s.0.0.same_sq depth in
                Completes-trans (answers cmd.request (curr, cmd.command_id))
                  (owed n dev.admin_q (next_entry dev.admin_q.sq_depth curr)) dev.admin_q
                  dev'.admin_q dev''.admin_q (omega (arith, r.head)) s.0
                  (subst (λ k. Completes k dev'.admin_q dev''.admin_q) same p))

  -- A doorbell of the admin queue is served: each command between the old and the new doorbell that is
  -- not an abort gets one completion, in order, with its identifier, its entry and the phase, at the head,
  -- which it moves on; head and phase count on by one for each, modulo two rounds, every other
  -- completion is as before at each step, and the commands and sizes stay. Conditions: the queue is a ring, the old doorbell is in it, and each
  -- command in it names queues and namespaces that exist and asks for no more of a log page than there is.
  pub nvmev_proc_admin_sq-Posted :
      (new_db old_db : ℕ) (dev : Dev)
      → IsRing dev.admin_q
      → old_db < dev.admin_q.sq_depth
      → AllServed dev
      → Returns
          (λ (dev' : Dev).
            Completes
              (owed (num_proc dev.admin_q.sq_depth new_db old_db) dev.admin_q old_db)
              dev.admin_q
              dev'.admin_q)
          (nvmev_proc_admin_sq host_cq new_db old_db dev)
  unfolding nvmev_proc_admin_sq
  nvmev_proc_admin_sq-Posted new_db old_db dev r h all =
      proc_admin_entries-Posted (num_proc dev.admin_q.sq_depth new_db old_db) old_db dev r h all
