-- ===== src/Host/Post/Effects.antt =====
-- What `hes_post` writes when it takes a job, and what it leaves alone when it refuses one.
use k9r.Base.{
  ℕ, zero, suc, ◌+◌, ◌%◌, ◌≡◌, ◌≢◌, refl, sym, Array, ◌∷◌, true, false, ◌&&◌, ltb, leb,
  if◌then◌else◌, update, add32, u32, arith, update_self, update_ne, min,
}
use k9r.Machine.{mailbox_max_args}
use k9r.Job.{Mailbox}
use k9r.Host.State.{Host}
use k9r.Host.Engines.{Engine, engines, is_no_cluster}
use k9r.Host.Post.{write_args, Descriptor, fill, publish, post, doorbell}

write_args_lem :
    (rounds i nargs : ℕ) (src args : Array ℕ) (j : ℕ)
    → write_args rounds i nargs src args j
      ≡ (if leb i j && ltb j (min nargs (i + rounds)) then src j else args j)
unfolding write_args
write_args_lem zero i nargs src args j = ground arith
write_args_lem (suc rounds) i nargs src args j =
    ground (arith, write_args_lem rounds (i + 1) nargs src (update args i (src i)) j)

-- The guards let the job through.
pub post-eq-publish :
    (engine : ℕ) (d : Descriptor) (h : Host)
    → is_no_cluster engine ≡ false
    → h.in_flight engine ≡ 0
    → post engine d h ≡ (publish engine d h, 0)
unfolding post
post-eq-publish engine d h ok idle = rw (ok, idle)

pub mbox-publish :
    (engine : ℕ) (d : Descriptor) (h : Host)
    → (publish engine d h).mbox engine
      ≡ fill (engines engine) d (add32 (h.next_seq engine) 1) (h.mbox engine)
unfolding publish
mbox-publish engine d h = update_self h.mbox engine _

args-fill :
    (e : Engine) (d : Descriptor) (seq : ℕ) (m : Mailbox) (j : ℕ)
    → (fill e d seq m).args j
      ≡ (if ltb j (min d.nargs mailbox_max_args) then d.args j else m.args j)
unfolding fill
args-fill e d seq m j = ground (arith, write_args_lem mailbox_max_args 0 d.nargs d.args m.args j)

flags-fill :
    (e : Engine) (d : Descriptor) (seq : ℕ) (m : Mailbox)
    → e.requires_staging ≡ true
    → (fill e d seq m).flags % 2 ≡ 1
unfolding fill
flags-fill e d seq m req = ground arith

-- A job that is taken is written whole into the mailbox of its engine: each of the first `nargs`
-- arguments, at most sixteen of them, and the other slots as they were; the kernel; flags that ask
-- for staging wherever the engine needs it; a job number one above the last one of that engine, as
-- a 32-bit number. The control core's doorbell is rung, the engine counts as busy, and the part of
-- the mailbox that the cluster writes is left alone, as are the mailboxes of other engines. This
-- holds for an engine that is a cluster and has no job in flight.
pub post-taken :
    (engine : ℕ) (d : Descriptor) (h : Host)
    → is_no_cluster engine ≡ false
    → h.in_flight engine ≡ 0
    → let (h', status) = post engine d h in
      let m = h'.mbox engine in
      (status ≡ 0)
      × ((j : ℕ)
          → m.args j
            ≡ (if ltb j (min d.nargs mailbox_max_args) then d.args j else (h.mbox engine).args j))
      × (m.kernel_id ≡ d.kernel)
      × ((engines engine).requires_staging ≡ true → m.flags % 2 ≡ 1)
      × (m.seq ≡ u32 (h.next_seq engine + 1))
      × (h'.next_seq engine ≡ m.seq)
      × (h'.in_flight engine ≡ 1)
      × (h'.stores ≡ doorbell (engines engine) ∷ h.stores)
      × (m.done_seq ≡ (h.mbox engine).done_seq)
      × ((other : ℕ) → other ≢ engine → h'.mbox other ≡ h.mbox other)
post-taken engine d h ok idle =
    let m = fill (engines engine) d (add32 (h.next_seq engine) 1) (h.mbox engine) in
    rw (post-eq-publish engine d h ok idle, mbox-publish engine d h)
      (
        refl,
        args-fill (engines engine) d (add32 (h.next_seq engine) 1) (h.mbox engine),
        unfold fill in refl,
        flags-fill (engines engine) d (add32 (h.next_seq engine) 1) (h.mbox engine),
        unfold fill in refl,
        unfold fill publish in update_self h.next_seq engine _,
        unfold publish in update_self h.in_flight engine 1,
        unfold publish in refl,
        unfold fill in refl,
        unfold publish in λ other ne. update_ne h.mbox engine _ (λ e. ne (sym e)),
      )
