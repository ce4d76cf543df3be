-- ===== src/Protocol/Safety.antt =====
-- What the job numbers and the `in_flight` flag of runtime/mesh/hes_host.c protect.
use k9r.Base.{
  ℕ, ◌<◌, ◌⊎◌, u32_mod, true, Bool-cases, ◌≡◌, ◌∙◌, refl, ap, sym, inl, inr, false, arith,
}
use mathlib.Core.Path.{subst}
use k9r.Machine.{Config}
use k9r.Job.{Mailbox}
use k9r.Host.State.{Host}
use k9r.Host.Engines.{is_no_cluster, engine_init}
use k9r.Host.Post.{Descriptor, post}
use k9r.Cluster.Scratch.{Heap}
use k9r.Cluster.Loop.{Cluster, boot}
use k9r.Protocol.System.{asleep, System, Reach}
use k9r.Protocol.Invariant.{
  IsConsistent, SameJob, SameJob-refl, numbered, seen_done, Reach-IsConsistent, post-idle,
}

next_seq-engine_init :
    (engine : ℕ) (h : Host)
    → is_no_cluster engine ≡ false
    → (engine_init h).next_seq engine ≡ (h.mbox engine).done_seq
unfolding engine_init
next_seq-engine_init engine h ok = ground arith

seq-boot : (c : Config) (m : Mailbox) → ((boot c m).seq ≡ 0) × ((boot c m).done_seq ≡ 0)
unfolding boot
seq-boot c m = (refl, refl)

mbox-engine_init : (h : Host) → (engine_init h).mbox ≡ h.mbox
unfolding engine_init
mbox-engine_init h = refl

-- Boot and `hes_engine_init` leave host and cluster in agreement: once a cluster has booted, with
-- nothing served and its control core at the doorbell, and the host has taken up the job numbers,
-- the protocol's invariant holds between the host and that cluster.
init-IsConsistent :
    (c : Config) (m : Mailbox) (engine : ℕ) (h : Host) (s : Cluster)
    → is_no_cluster engine ≡ false
    → h.mbox engine ≡ boot c m
    → s.mbox ≡ boot c m
    → s.served ≡ 0
    → IsConsistent engine (record {
      host = engine_init h;
      cluster = s;
      phase = asleep;
      waiting = false;
      posted = boot c m;
      nb_posts = 0;
      abandoned = false;
    })
init-IsConsistent c m engine h s ok hm sm served =
    let (seq, done) = seq-boot c m in
    let seq' : s.mbox.seq ≡ 0 = ap (λ t. t.seq) sm ∙ seq in
    let done' : s.mbox.done_seq ≡ 0 = ap (λ t. t.done_seq) sm ∙ done in
    let taken : (engine_init h).next_seq engine ≡ 0 =
      next_seq-engine_init engine h ok ∙ ap (λ t. t.done_seq) hm ∙ done in
    record {
      shared = ap (λ f. f engine) (mbox-engine_init h) ∙ hm ∙ sym sm;
      number = taken ∙ sym seq';
      job = subst (λ t. SameJob t (boot c m)) (sym sm) (SameJob-refl (boot c m));
      base = 0;
      taken = 0;
      done = 0;
      seq = seq';
      served = served;
      published = done';
      posted_first = omega arith;
      progress = inl (refl, refl);
      quiet = λ few idle free kept. refl;
    }

module _ (c : Config) (heap : Heap) (engine : ℕ) (cluster : is_no_cluster engine ≡ false) where
  -- A job's number is never read as done before the job is, also after waits that gave up and posts
  -- that were taken while the cluster still worked on an older job: in every state reached from a
  -- consistent one with fewer than 2 ^ 32 posts, if a poll sees the number of the last post as done,
  -- then the control core is back at the doorbell, the last job that it served has that number, and
  -- the descriptor in the mailbox is the one that was posted last.
  pub collects_own_job :
      {s t : System}
      → IsConsistent engine s
      → Reach c heap engine s t
      → t.nb_posts < u32_mod
      → (t.host.mbox engine).done_seq ≡ t.host.next_seq engine
      → (t.phase ≡ asleep)
        × (t.cluster.served ≡ t.host.next_seq engine)
        × SameJob (t.host.mbox engine) t.posted
  collects_own_job {t} v r few d =
      let w = Reach-IsConsistent c heap engine cluster r v in
      let seen : w.done ≡ t.nb_posts = seen_done c heap engine cluster t w few d in
      let last : w.taken ≡ t.nb_posts = ground (arith, w.progress, seen, w.posted_first) in
      (
        ground (arith, w.progress, seen, w.posted_first),
        w.served ∙ ap (numbered w.base) last ∙ sym w.seq ∙ sym w.number,
        subst (λ m. SameJob m t.posted) (sym w.shared) w.job,
      )

  -- No descriptor is overwritten while the cluster may still read it, unless a wait gave up: in every
  -- state reached from a consistent one with fewer than 2 ^ 32 posts, if the host is not in a wait
  -- and a post succeeds, then a wait has given up and the job of the mailbox is not done since, or
  -- the control core is at the doorbell and has served and published the job of the mailbox.
  pub post_never_overwrites :
      {s t : System} (d : Descriptor) (h : Host)
      → IsConsistent engine s
      → Reach c heap engine s t
      → t.nb_posts < u32_mod
      → t.waiting ≡ false
      → post engine d t.host ≡ (h, 0)
      → (t.abandoned ≡ true)
        ⊎ ((t.phase ≡ asleep)
            × (t.cluster.served ≡ t.cluster.mbox.seq)
            × (t.cluster.mbox.done_seq ≡ t.cluster.mbox.seq))
  post_never_overwrites {t} d h v r few free e =
      let w = Reach-IsConsistent c heap engine cluster r v in
      let idle = post-idle engine d t.host h cluster e in
      elim (Bool-cases t.abandoned) [
        | inl gone ↦ inl gone
        | inr kept ↦
            let all_done : w.done ≡ t.nb_posts = w.quiet few idle free kept in
            let last : w.taken ≡ t.nb_posts =
              ground (arith, w.progress, all_done, w.posted_first) in
            inr (
              ground (arith, w.progress, all_done, w.posted_first),
              w.served ∙ ap (numbered w.base) last ∙ sym w.seq,
              w.published ∙ ap (numbered w.base) all_done ∙ sym w.seq,
            )
      ]

  -- A poll would see the job of the last post as done.
  abbrev pub Collectable : System → Type 0
  Collectable u = (u.host.mbox engine).done_seq ≡ u.host.next_seq engine
