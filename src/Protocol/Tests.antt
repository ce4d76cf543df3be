-- ===== src/Protocol/Tests.antt =====
-- The protocol's theorems on a job that runs through it.
use k9r.Base.{update, ◌⊎◌, ◌≡◌, ◌≢◌, ◌↔◌, refl, inl, array_of, [], ◌∷◌, ◌++◌, true, false, arith}
use k9r.Machine.{snitch}
use k9r.Job.{Mailbox}
use k9r.Host.State.{Host}
use k9r.Host.Post.{Descriptor, post, publish}
use k9r.Host.Offload.{offload}
use k9r.Cluster.Scratch.{Heap}
use k9r.Cluster.Stage.Effects.{outputs_out}
use k9r.Cluster.Loop.{
  Cluster, accept, finish, wake, after_stage, try_stage, begin_job, publish as publish_error,
  as_word,
}
use k9r.Protocol.System.{
  asleep, running, System, Reach, here, next, works, posts, waits, gives_up, wakes, finishes,
  host_posts, cluster_moves, cluster_finishes,
}
use k9r.Protocol.Invariant.{IsConsistent, SameJob, SameJob-refl}
use k9r.Protocol.Safety.{collects_own_job, post_never_overwrites}
use k9r.Protocol.Serve.{offload-served, posted_mbox, answers, taken}
use k9r.Protocol.GiveUp.{late_results_misdirected}

abbrev blank : Mailbox
blank = record {
  magic = 0x48455331;
  alive_mask = 511;
  seq = 0;
  kernel_id = 0;
  nargs = 0;
  done_seq = 0;
  cycles = 0;
  trap_cause = 0;
  nb_cores = 9;
  flags = 0;
  staged = 0;
  error = 0;
  args = λ _. 0;
  probe = λ _. 0;
}

abbrev fresh : Host
fresh = record {
  mbox = λ _. blank;
  stores = [];
  log = [];
  next_seq = λ _. 0;
  in_flight = λ _. 0;
  busy_cycles = λ _. 0;
  failure_count = 0;
  sample_idx = 0;
  sample_total = 0;
}

abbrev doorbell : Cluster
doorbell = record {
  mbox = blank;
  active_args = λ _. 0;
  active_kernel = 0;
  scratch_base = 0;
  scratch_stride = 0;
  served = 0;
  ops = [];
  staged = false;
  t0 = 0;
  dma = record { src = 0; dst = 0; src_stride = 0; dst_stride = 0; reps = 0; issued = [] };
}

abbrev heap : Heap
heap = record { start = 0x10000210; limit = 0x10017000 }

abbrev job : Descriptor
job = record {
  kernel = 2;
  args = array_of (0x80000000 ∷ 0x80001000 ∷ 0x80002000 ∷ 10 ∷ 4 ∷ 8 ∷ []) 0;
  nargs = 6;
  flags = 0;
}

-- Before the job, with it posted, with the host waiting for it, and with it taken.
abbrev quiet : System
quiet = record {
  host = fresh;
  cluster = doorbell;
  phase = asleep;
  waiting = false;
  posted = blank;
  nb_posts = 0;
  abandoned = false;
}

abbrev posted : System
posted = host_posts snitch heap 1 quiet (publish 1 job fresh)

abbrev waited : System
waited = record posted {
  host = record posted.host { in_flight = update posted.host.in_flight 1 0 };
  waiting = true;
}

abbrev busy : System
busy = cluster_moves snitch heap 1 waited (accept snitch heap 3 waited.cluster) running

-- The job is done.
abbrev over : System
over = cluster_finishes snitch heap 1 9 busy

-- The host gives up, and posts the job again while the cluster works.
abbrev given : System
given = record busy { waiting = false; abandoned = true }

abbrev again : System
again = host_posts snitch heap 1 given (publish 1 job given.host)

quiet-IsConsistent : IsConsistent 1 quiet
quiet-IsConsistent = record {
  base = 0;
  taken = 0;
  done = 0;
  shared = refl;
  number = refl;
  seq = refl;
  served = refl;
  published = refl;
  posted_first = omega arith;
  job = SameJob-refl blank;
  progress = inl (refl, refl);
  quiet = λ few idle free kept. refl;
}

Reach-busy : Reach snitch heap 1 quiet busy
unfolding post wake publish
Reach-busy =
    next (next (next here (posts job (publish 1 job fresh) refl refl)) (waits refl (omega arith)))
      (works (wakes 3 busy.cluster refl refl))

Reach-over : Reach snitch heap 1 quiet over
Reach-over = next Reach-busy (works (finishes 9 refl))

Reach-given : Reach snitch heap 1 quiet given
unfolding publish accept after_stage try_stage begin_job publish_error
Reach-given = next Reach-busy (gives_up refl (omega arith))

collects_own_job_example :
    (over.phase ≡ asleep)
    × (over.cluster.served ≡ over.host.next_seq 1)
    × SameJob (over.host.mbox 1) over.posted
unfolding publish finish accept after_stage try_stage begin_job publish_error
collects_own_job_example =
    collects_own_job snitch heap 1 refl quiet-IsConsistent Reach-over (omega arith) refl

-- The second post, after the wait has given up.
post_never_overwrites_example :
    (given.abandoned ≡ true)
    ⊎ ((given.phase ≡ asleep)
        × (given.cluster.served ≡ given.cluster.mbox.seq)
        × (given.cluster.mbox.done_seq ≡ given.cluster.mbox.seq))
unfolding post publish accept after_stage try_stage begin_job publish_error
post_never_overwrites_example =
    post_never_overwrites snitch heap 1 refl job (publish 1 job given.host) quiet-IsConsistent
      Reach-given (omega arith) refl refl

abbrev booted : Mailbox
booted = record blank { alive_mask = 0x1ff; nb_cores = 9 }

offload-served_example :
    let m = posted_mbox snitch heap 3 9 doorbell 1 job fresh in
    let r = (offload (answers snitch heap 3 9 doorbell 2) 1 job fresh).1 in
    (r.error ≡ (taken snitch heap 3 9 doorbell m).mbox.error)
    × (r.cycles ≡ 6)
    × (r.nb_cores ≡ 8)
    × (r.staged ≡ as_word (taken snitch heap 3 9 doorbell m).staged)
    × ((r.ok ≢ 0) ↔ ((taken snitch heap 3 9 doorbell m).mbox.error ≡ 0))
    × (r.ok ≢ 0 → (taken snitch heap 3 9 doorbell m).active_kernel ≡ 2)
offload-served_example =
    offload-served snitch heap 3 9 doorbell 1 2 job fresh refl refl (omega arith) (omega arith) refl

-- A cluster that still works on a staged job whose result is 320 bytes at 0x10000380.
abbrev given_up : Cluster
given_up = record doorbell {
  ops = record { op = record { arg = 2; is_output = true; bytes = 320 }; local = 0x10000380 } ∷ [];
  staged = true;
  served = 1;
}

late_results_misdirected_example :
    let (h', status) = post 1 job fresh in
    let t = finish snitch 9 (record given_up { mbox = h'.mbox 1 }) in
    (status ≡ 0) × (t.dma.issued ≡ [] ++ outputs_out job.args given_up.ops) × (t.mbox.done_seq ≡ 1)
late_results_misdirected_example =
    late_results_misdirected snitch 1 9 job fresh given_up refl refl refl (omega arith)
