-- ===== src/Host/Post.antt =====
-- `hes_post` of runtime/mesh/hes_host.c: a job descriptor is written and published.
pub mod Effects
use k9r.Base.{
  ℕ, zero, suc, ◌+◌, ◌*◌, ◌^◌, ◌%◌, Array, List, [], ◌∷◌, Bool, true, false, ◌||◌, not, ◌==◌, ltb,
  if◌then◌else◌, update, add32, u32,
}
use k9r.Machine.{mailbox_max_args}
use k9r.Job.{Mailbox}
use k9r.Host.State.{Host, Line, busy, Store}
use k9r.Host.Engines.{Engine, engines, is_no_cluster}

-- `args[i] = src[i]` for `i < nargs`, at most `rounds` times.
unfoldable pub write_args : ℕ → ℕ → ℕ → Array ℕ → Array ℕ → Array ℕ
write_args zero i nargs src args = args
write_args (suc rounds) i nargs src args =
    let rest = write_args rounds (i + 1) nargs src (update args i (src i)) in
    if ltb i nargs then rest else args

-- `flags |= HES_JOB_STAGE`: bit 0 is set.
abbrev pub set_stage : ℕ → ℕ
set_stage flags = if flags % 2 == 0 then flags + 1 else flags

-- The store of `ring_doorbell`.
abbrev pub doorbell : Engine → Store
doorbell e = record { addr = add32 e.periph e.clint_set; value = u32 (2 ^ e.ctrl_core) }

-- A job as its caller describes it.
pub record Descriptor : Type 0 where
  pub kernel : ℕ
  pub args : Array ℕ
  pub nargs : ℕ
  pub flags : ℕ

-- The mailbox once the descriptor is written and published under the number `seq`.
unfoldable pub fill : Engine → Descriptor → ℕ → Mailbox → Mailbox
unfolding write_args
fill e d seq m = record m {
  args = write_args mailbox_max_args 0 d.nargs d.args m.args;
  kernel_id = d.kernel;
  nargs = d.nargs;
  flags = if e.requires_staging then set_stage d.flags else d.flags;
  seq = seq;
}

-- The part of `hes_post` behind its guards.
unfoldable pub publish : ℕ → Descriptor → Host → Host
unfolding fill
publish engine d h =
    let e = engines engine in
    let seq = add32 (h.next_seq engine) 1 in
    record h {
      mbox = update h.mbox engine (fill e d seq (h.mbox engine));
      next_seq = update h.next_seq engine seq;
      stores = doorbell e ∷ h.stores;
      in_flight = update h.in_flight engine 1;
    }

-- The new state, and the status that is returned.
unfoldable pub post : ℕ → Descriptor → Host → Host × ℕ
post engine d h =
    if is_no_cluster engine
    then (h, 1)
    else if h.in_flight engine == 0
    then (publish engine d h, 0)
    else (record h { log = busy (engines engine).name ∷ h.log }, 1)
