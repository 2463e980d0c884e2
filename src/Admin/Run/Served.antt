-- ===== src/Admin/Run/Served.antt =====
-- The commands that write a page of the host: each posts its completion.
use nvme_virt.Prelude.{
  ℕ, ◌+◌, ◌*◌, ◌^◌, ◌≤◌, ◌<◌, ◌≡◌, refl, sym, subst, List, true, Option, some, none, ltb, leb, ◌==◌,
  ◌||◌, get_elem?, length, sub32, u32, [], ◌∷◌, lt→ltb, Returns, returns, Returns-bind, Returns-if,
  Returns-assert, arith,
}
use nvme_virt.Zns.State.{ZnsParams}
use nvme_virt.Admin.State.{
  AdminRequest, create_cq, delete_cq, create_sq, delete_sq, get_log_page, identify, abort_cmd,
  Namespace, Dev, AdminCommand,
}
use nvme_virt.Admin.Queues.{post_result, make_cq_entry_results}
use nvme_virt.Admin.Identify.{
  admin_get_log_page, admin_identify, identify_zns_of, admin_identify_namespace,
  admin_identify_ctrl, admin_identify_namespaces, admin_identify_namespace_desc,
  admin_identify_zns_namespace, admin_identify_zns_ctrl,
}
use nvme_virt.Admin.Posted.{IsRing, Completes, post_result-Completes}

-- a namespace with zone parameters has the zoned command set
abbrev pub HasSet : Option ZnsParams → ℕ → Type 0
HasSet none csi = Unit {0}
HasSet (some zpp) csi = csi ≡ 2

-- A command that reads nothing outside the arrays of the device: its queue or its namespace exists, and
-- a log page is not longer than its structure.
abbrev pub IsServed : ℕ → ℕ → List Namespace → AdminRequest → Type 0
IsServed sqs cqs ns (create_cq cqid qsize cq_flags irq_vector prp1) = cqid < cqs
IsServed sqs cqs ns (delete_cq qid) = qid < cqs
IsServed sqs cqs ns (create_sq sqid cqid qsize sq_flags prp1) = sqid < sqs
IsServed sqs cqs ns (delete_sq qid) = qid < sqs
IsServed sqs cqs ns (get_log_page numdu numdl lid prp1) =
    (lid ≡ 0x02 → u32 ((numdu * 2 ^ 16 + numdl + 1) * 4) ≤ 512)
    × (lid ≡ 0x05 → u32 ((numdu * 2 ^ 16 + numdl + 1) * 4) ≤ 4096)
IsServed sqs cqs ns (identify cns nsid prp1) =
    ((cns == 0) || (cns == 3) || (cns == 5)) ≡ true
    → Returns (λ (n : Namespace). HasSet n.zns n.csi) (get_elem? ns (sub32 nsid 1))
IsServed _ _ _ _ = Unit {0}

-- what is answered of a command: an abort gets no completion
abbrev pub answers : AdminRequest → ℕ × ℕ → List (ℕ × ℕ)
answers abort_cmd x = []
answers _ x = x ∷ []

-- What a command leaves: its completions are posted, and the arrays have their sizes.
abbrev pub Served : Dev → List (ℕ × ℕ) → Dev → Type 0
Served dev commands dev' =
    Completes commands dev.admin_q dev'.admin_q
    × (length dev'.sqes ≡ length dev.sqes)
    × (length dev'.cqes ≡ length dev.cqes)
    × (dev'.ns ≡ dev.ns)

make_cq_entry_results-Served :
    (dev base : Dev) (eid ret result0 result1 : ℕ)
    → IsRing base.admin_q
    → {cmd : AdminCommand} → get_elem? base.admin_q.nvme_sq eid ≡ some cmd
    → dev.admin_q ≡ base.admin_q
    → length dev.sqes ≡ length base.sqes
    → length dev.cqes ≡ length base.cqes
    → dev.ns ≡ base.ns
    → Returns
        (Served base ((eid, cmd.command_id) ∷ []))
        (make_cq_entry_results dev eid ret result0 result1)
unfolding make_cq_entry_results
make_cq_entry_results-Served dev base eid ret result0 result1 r {cmd} found q s c n =
    let found' : get_elem? dev.admin_q.nvme_sq eid ≡ some cmd = rw q found in
    let inside : ltb dev.admin_q.cq_head (length dev.admin_q.nvme_cq) ≡ true =
      lt→ltb dev.admin_q.cq_head (length dev.admin_q.nvme_cq)
        (rw q (omega (arith, r.room, r.head))) in
    rw (found', inside)
      (returns (
        subst
            (λ x.
              Completes ((eid, cmd.command_id) ∷ []) base.admin_q
                (post_result x cmd.command_id eid ret result0 result1))
            (sym q) (post_result-Completes base.admin_q cmd.command_id eid ret result0 result1 r),
        s,
        c,
        n,
      ))

module _ (dev : Dev) (eid : ℕ) (r : IsRing dev.admin_q) (cmd : AdminCommand)
    (h : get_elem? dev.admin_q.nvme_sq eid ≡ some cmd) where
  abbrev here : List (ℕ × ℕ)
  here = (eid, cmd.command_id) ∷ []

  pub posted :
      (dev' : Dev) (ret result0 result1 : ℕ)
      → dev'.admin_q ≡ dev.admin_q
      → length dev'.sqes ≡ length dev.sqes
      → length dev'.cqes ≡ length dev.cqes
      → dev'.ns ≡ dev.ns
      → Returns (Served dev here) (make_cq_entry_results dev' eid ret result0 result1)
  posted dev' ret result0 result1 =
      make_cq_entry_results-Served dev' dev eid ret result0 result1 r h

  pub log_page-Served :
      (numdu numdl lid prp1 : ℕ)
      → IsServed (length dev.sqes) (length dev.cqes) dev.ns (get_log_page numdu numdl lid prp1)
      → Returns (Served dev here) (admin_get_log_page dev eid numdu numdl lid prp1)
  unfolding admin_get_log_page
  log_page-Served numdu numdl lid prp1 (smart, effects) =
      let len = u32 ((numdu * 2 ^ 16 + numdl + 1) * 4) in
      Returns-if (lid == 0x02)
        (λ q.
          Returns-assert (leb len 512) (ground (arith, smart, q))
            (posted _ 0 0 0 refl refl refl refl))
        λ q.
          Returns-if (lid == 0x05)
            (λ w.
              Returns-assert (leb len 4096) (ground (arith, effects, w))
                (posted _ 0 0 0 refl refl refl refl))
            λ w. posted _ 0 0 0 refl refl refl refl

  identify_zns-Served :
      (prp1 : ℕ) (n : Namespace) (zns : Option ZnsParams)
      → HasSet zns n.csi
      → Returns (Served dev here) (identify_zns_of dev eid prp1 n zns)
  identify_zns-Served prp1 n none k = posted _ 0 0 0 refl refl refl refl
  identify_zns-Served prp1 n (some zpp) k =
      Returns-assert (n.csi == 2) (ground (arith, k)) (posted _ 0 0 0 refl refl refl refl)

  pub identify-Served :
      (cns nsid prp1 : ℕ)
      → IsServed (length dev.sqes) (length dev.cqes) dev.ns (identify cns nsid prp1)
      → Returns (Served dev here) (admin_identify dev eid cns nsid prp1)
  unfolding admin_identify admin_identify_namespace admin_identify_ctrl admin_identify_namespaces
      admin_identify_namespace_desc admin_identify_zns_namespace admin_identify_zns_ctrl
  identify-Served cns nsid prp1 s =
      Returns-if (cns == 0x00)
        (λ q. Returns-bind (s (rw q refl)) λ n k. posted _ 0 0 0 refl refl refl refl)
        λ a.
          Returns-if (cns == 0x01) (λ q. posted _ 0 0 0 refl refl refl refl)
            λ b.
              Returns-if (cns == 0x02) (λ q. posted _ 0 0 0 refl refl refl refl)
                λ c.
                  Returns-if (cns == 0x03)
                    (λ q.
                      Returns-bind (s (rw (a, q) refl)) λ n k. posted _ 0 0 0 refl refl refl refl)
                    λ d.
                      Returns-if (cns == 0x05)
                        (λ q.
                          Returns-bind (s (rw (a, d, q) refl))
                            λ n k. identify_zns-Served prp1 n n.zns k)
                        λ e.
                          Returns-if (cns == 0x06) (λ q. posted _ 0 0 0 refl refl refl refl)
                            λ f. posted _ 1 0 0 refl refl refl refl
