-- ===== src/Host/Tests.antt =====
-- The host's modules on one small job.
use k9r.Base.{
  ◌↔◌, ℕ, ◌+◌, ◌%◌, ◌<◌, ◌≡◌, ◌≢◌, ◌⊎◌, ◌↔◌, refl, List, [], ◌∷◌, true, arith, u32, min, ltb,
  if◌then◌else◌,
}
use k9r.Machine.{mailbox_max_args}
use k9r.Job.{Mailbox}
use k9r.Host.State.{Host, Line, gave_up, no_result}
use k9r.Host.Engines.{engines}
use k9r.Host.Post.{Descriptor, post, doorbell}
use k9r.Host.Post.Effects.{post-taken}
use k9r.Host.Wait.{wait}
use k9r.Host.Wait.First.{wait-collects, wait-gives_up}
use k9r.Host.Offload.{check, offload, offload_checked, matmul_job, failures, Env}
use k9r.Host.Offload.Accounting.{offload_checked-counts, post_twice_counts_once}

abbrev blank : Mailbox
blank = record {
  magic = 0x48455331;
  alive_mask = 511;
  seq = 0;
  kernel_id = 0;
  nargs = 0;
  done_seq = 0;
  cycles = 0;
  trap_cause = 0;
  nb_cores = 9;
  flags = 0;
  staged = 0;
  error = 0;
  args = λ _. 0;
  probe = λ _. 0;
}

abbrev pub fresh : Host
fresh = record {
  mbox = λ _. blank;
  stores = [];
  log = [];
  next_seq = λ _. 0;
  in_flight = λ _. 0;
  busy_cycles = λ _. 0;
  failure_count = 0;
  sample_idx = 0;
  sample_total = 0;
}

-- A job is out on the Spatz cluster, under number 1.
abbrev waiting_host : Host
waiting_host = record fresh { next_seq = λ _. 1; in_flight = λ _. 1 }

-- Done with the third poll, after 500 cycles.
abbrev third : ℕ → Mailbox
third k = if ltb k 2 then blank else record blank { done_seq = 1; cycles = 500; nb_cores = 8 }

abbrev job : Descriptor
job = matmul_job 0x80000000 0x80001000 0x80002000 10 4 8

first_post_taken :
    let (h', status) = post 2 job fresh in
    let m = h'.mbox 2 in
    (status ≡ 0)
    × ((j : ℕ) → m.args j ≡ (if ltb j (min 6 mailbox_max_args) then job.args j else 0))
    × (m.kernel_id ≡ 2)
    × ((engines 2).requires_staging ≡ true → m.flags % 2 ≡ 1)
    × (m.seq ≡ u32 (0 + 1))
    × (h'.next_seq 2 ≡ m.seq)
    × (h'.in_flight 2 ≡ 1)
    × (h'.stores ≡ doorbell (engines 2) ∷ [])
    × (m.done_seq ≡ 0)
    × ((other : ℕ) → other ≢ 2 → h'.mbox other ≡ blank)
first_post_taken = post-taken 2 job fresh refl refl

-- The doorbell of Spatz: core 0 at 0x120030.
doorbell_spatz : doorbell (engines 2) ≡ record { addr = 0x120030; value = 1 }
doorbell_spatz = refl

third-before : (j : ℕ) → j < 2 → (third j).done_seq ≢ 1
third-before j lt = ground arith

wait-collects_example :
    let (h', r) = wait third 2 waiting_host in
    (r.cycles ≡ (third 2).cycles)
    × (r.nb_cores ≡ (third 2).nb_cores)
    × (r.staged ≡ (third 2).staged)
    × (r.error ≡ (third 2).error)
    × ((r.ok ≢ 0) ↔ (((third 2).trap_cause ≡ 0) × ((third 2).error ≡ 0)))
    × (h'.busy_cycles 2 ≡ 500)
    × (h'.in_flight 2 ≡ 0)
    × (h'.mbox 2 ≡ third 2)
wait-collects_example =
    wait-collects third 2 waiting_host 2 refl (omega arith) (omega arith) refl third-before

wait-gives_up_example :
    let (h', r) = wait (λ _. blank) 2 waiting_host in
    (r ≡ no_result)
    × ((lines : List Line) × (h'.log ≡ gave_up "spatz" 1 ∷ lines))
    × (h'.in_flight 2 ≡ 0)
    × (h'.busy_cycles ≡ waiting_host.busy_cycles)
wait-gives_up_example =
    wait-gives_up (λ _. blank) 2 waiting_host refl (omega arith) (λ j lt. omega arith)

-- The mailbox answers at once, with an error.
abbrev refusing : Env
refusing engine m k = record m { done_seq = m.seq; error = 1 }

offload_checked-counts_example :
    let (h', status) = offload_checked refusing 2 "MatMul" job fresh in
    let r = (offload refusing 2 job fresh).1 in
    ((r.ok ≢ 0) × (status ≡ 0) × (failures h' ≡ 0))
    ⊎ ((r.ok ≡ 0) × (status ≡ 1) × (failures h' ≡ 1))
offload_checked-counts_example = offload_checked-counts refusing 2 "MatMul" job fresh

post_twice_counts_once_example :
    let (h₁, s₁) = post 2 job fresh in
    let (h₂, s₂) = post 2 job h₁ in
    let (h₃, r₁) = wait third 2 h₂ in
    let (h₄, c₁) = check 2 "MatMul" r₁ h₃ in
    let (h₅, r₂) = wait third 2 h₄ in
    let (h₆, c₂) = check 2 "MatMul" r₂ h₅ in
    (s₁ ≡ 0) × (s₂ ≡ 1) × (c₁ ≡ 0) × (c₂ ≡ 1) × (failures h₆ ≡ 1)
post_twice_counts_once_example =
    post_twice_counts_once 2 "MatMul" job job fresh third third 2 refl refl (omega arith) refl
      third-before refl refl
