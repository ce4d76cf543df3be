-- ===== src/Protocol/Serve.antt =====
-- An offload from end to end: the host's `hes_offload` against the cluster's job loop.
use k9r.Base.{
  ℕ, ◌*◌, ◌<◌, ◌≡◌, ◌≢◌, ◌↔◌, ◌∙◌, refl, ap, sym, false, arith, update_self, add32, sub32,
  if◌then◌else◌, ltb, lt→ltb, le→ltb,
}
use k9r.Machine.{Config}
use k9r.Job.{Mailbox, err_none}
use k9r.Host.State.{Host}
use k9r.Host.Engines.{is_no_cluster, engines}
use k9r.Host.Post.{Descriptor, publish, fill}
use k9r.Host.Post.Effects.{post-eq-publish, mbox-publish}
use k9r.Host.Wait.{wait, result_of, max_heartbeats, heartbeat_polls}
use k9r.Host.Wait.First.{wait-result_of}
use k9r.Host.Offload.{Env, offload, await}
use k9r.Cluster.Scratch.{Heap}
use k9r.Cluster.Loop.{Cluster, accept, finish, as_word}
use k9r.Cluster.Loop.Safety.{accept_frame, accept-runs}

module _ (c : Config) (heap : Heap) (t₁ t₂ : ℕ) (cl : Cluster) where
  -- The cluster when it has taken the job of the mailbox `m`, and the mailbox when it is done.
  abbrev pub taken : Mailbox → Cluster
  taken m = accept c heap t₁ (record cl { mbox = m })

  abbrev pub done : Mailbox → Mailbox
  done m = (finish c t₂ (taken m)).mbox

  -- The job is done when the host polls for the time `delay`.
  abbrev pub answers : ℕ → Env
  answers delay engine m k = if ltb k delay then m else done m

  done-fields :
      (m : Mailbox)
      → ((done m).done_seq ≡ m.seq)
        × ((done m).error ≡ (taken m).mbox.error)
        × ((done m).trap_cause ≡ m.trap_cause)
        × ((done m).cycles ≡ sub32 t₂ t₁)
        × ((done m).nb_cores ≡ c.nb_compute)
        × ((done m).staged ≡ as_word (taken m).staged)
  unfolding finish
  done-fields m =
      let (mbox, served, t0) = accept_frame c heap t₁ (record cl { mbox = m }) in
      (served, refl, ap (λ b. b.trap_cause) mbox, ap (λ t. sub32 t₂ t) t0, refl, refl)

  -- The mailbox that a post leaves.
  abbrev pub posted_mbox : ℕ → Descriptor → Host → Mailbox
  posted_mbox engine d h = fill (engines engine) d (add32 (h.next_seq engine) 1) (h.mbox engine)

  answers-done : (delay engine : ℕ) (m : Mailbox) → answers delay engine m delay ≡ done m
  answers-done delay engine m = rw (le→ltb delay delay (omega arith))

  answers-before : (delay engine j : ℕ) (m : Mailbox) → j < delay → answers delay engine m j ≡ m
  answers-before delay engine j m lt = rw (lt→ltb j delay lt)

  await-result :
      (engine delay : ℕ) (d : Descriptor) (h : Host)
      → is_no_cluster engine ≡ false
      → delay < max_heartbeats * heartbeat_polls
      → (h.mbox engine).done_seq ≢ add32 (h.next_seq engine) 1
      → let m = posted_mbox engine d h in
        (wait (answers delay engine m) engine (publish engine d h)).1 ≡ result_of (done m)
  unfolding publish fill
  await-result engine delay d h ok hd old =
      let m = posted_mbox engine d h in
      let number : (publish engine d h).next_seq engine ≡ m.seq = update_self h.next_seq engine _ in
      let busy : (publish engine d h).in_flight engine ≢ 0 =
        ground (arith, update_self h.in_flight engine 1) in
      let seen = answers-done delay engine m in
      let collected =
        wait-result_of (answers delay engine m) engine (publish engine d h) delay ok busy hd
          (ap (λ b. b.done_seq) seen ∙ (done-fields m).0 ∙ sym number)
          (λ j lt e.
            old (sym (ap (λ b. b.done_seq) (answers-before delay engine j m lt)) ∙ e ∙ number)) in
      collected.0 ∙ ap result_of seen

  offload-result :
      (engine delay : ℕ) (d : Descriptor) (h : Host)
      → is_no_cluster engine ≡ false
      → h.in_flight engine ≡ 0
      → delay < max_heartbeats * heartbeat_polls
      → (h.mbox engine).done_seq ≢ add32 (h.next_seq engine) 1
      → (offload (answers delay) engine d h).1 ≡ result_of (done (posted_mbox engine d h))
  unfolding offload await
  offload-result engine delay d h ok idle hd old =
      rw (post-eq-publish engine d h ok idle, mbox-publish engine d h)
        (await-result engine delay d h ok hd old)

  trap-posted_mbox :
      (engine : ℕ) (d : Descriptor) (h : Host)
      → ((posted_mbox engine d h).trap_cause ≡ (h.mbox engine).trap_cause)
        × ((posted_mbox engine d h).kernel_id ≡ d.kernel)
  unfolding fill
  trap-posted_mbox engine d h = (refl, refl)

  result_of-ok_iff :
      (b : Mailbox) → b.trap_cause ≡ 0 → ((result_of b).ok ≢ 0) ↔ (b.error ≡ err_none)
  result_of-ok_iff b e = ground arith

  -- What the host reads of an offload is what the cluster did. With a cluster that has no job in
  -- flight and no trap, whose last job number is not the next one, and that answers within the
  -- polls: the result has the error with which the cluster took or refused the job, the cycles
  -- between its two clock reads, its number of compute cores, and whether it staged the operands.
  -- It is a success exactly if the cluster did not refuse the job, and then the kernel that the
  -- cluster ran is the one that the host asked for.
  pub offload-served :
      (engine delay : ℕ) (d : Descriptor) (h : Host)
      → is_no_cluster engine ≡ false
      → h.in_flight engine ≡ 0
      → delay < max_heartbeats * heartbeat_polls
      → (h.mbox engine).done_seq ≢ add32 (h.next_seq engine) 1
      → (h.mbox engine).trap_cause ≡ 0
      → let m = posted_mbox engine d h in
        let r = (offload (answers delay) engine d h).1 in
        (r.error ≡ (taken m).mbox.error)
        × (r.cycles ≡ sub32 t₂ t₁)
        × (r.nb_cores ≡ c.nb_compute)
        × (r.staged ≡ as_word (taken m).staged)
        × ((r.ok ≢ 0) ↔ ((taken m).mbox.error ≡ err_none))
        × (r.ok ≢ 0 → (taken m).active_kernel ≡ d.kernel)
  offload-served engine delay d h ok idle hd old trap =
      let m = posted_mbox engine d h in
      let (number, error, traps, cycles, cores, staged) = done-fields m in
      let (same_trap, kernel) = trap-posted_mbox engine d h in
      let good = result_of-ok_iff (done m) (traps ∙ same_trap ∙ trap) in
      let runs = accept-runs c heap t₁ (record cl { mbox = m }) in
      rw (offload-result engine delay d h ok idle hd old) (
        error,
        cycles,
        cores,
        staged,
        (λ k. sym error ∙ good.0 k, λ e. good.1 (error ∙ e)),
        λ k. (runs (sym error ∙ good.0 k)).0 ∙ kernel,
      )
