-- ===== src/Protocol/Invariant.antt =====
-- Which job the mailbox holds, in every reachable state.
use k9r.Base.{
  ℕ, ◌+◌, ◌%◌, ◌≤◌, ◌<◌, ◌≡◌, ◌≢◌, ◌⊎◌, inl, inr, ◌∙◌, refl, ap, sym, some, true, false, arith,
  update_self, u32_mod, add32, Array, update, Bool, Bool-cases,
}
use mathlib.Core.Path.{subst}
use k9r.Machine.{Config}
use k9r.Job.{Mailbox}
use k9r.Host.State.{Host}
use k9r.Host.Engines.{is_no_cluster}
use k9r.Host.Post.{Descriptor, post}
use k9r.Host.Post.Effects.{post-taken}
use k9r.Cluster.Scratch.{Heap}
use k9r.Cluster.Loop.{Cluster, wake, finish, accept}
use k9r.Cluster.Loop.Safety.{accept_frame}
use k9r.Protocol.System.{
  asleep, running, System, Work, wakes, finishes, Step, works, posts, waits, collects, gives_up,
  Reach, here, next, cluster_moves, cluster_finishes,
}

-- The fields of a mailbox that describe the job.
pub record SameJob (a b : Mailbox) : Type 0 where
  pub seq : a.seq ≡ b.seq
  pub kernel : a.kernel_id ≡ b.kernel_id
  pub nargs : a.nargs ≡ b.nargs
  pub flags : a.flags ≡ b.flags
  pub args : a.args ≡ b.args

-- The number of post `n`, counted from one with the number `base`.
abbrev pub numbered : (base n : ℕ) → ℕ
numbered base n = (base + n) % u32_mod

-- The same numbers are of the same post, if there are fewer than 2 ^ 32.
pub numbered_unique :
    (base i n : ℕ) → i ≤ n → n < u32_mod → numbered base i ≡ numbered base n → i ≡ n
numbered_unique base i n le few e = omega arith

module _ (engine : ℕ) where
  -- The cluster has served the post `taken` last and has published the post `done`, which is an
  -- earlier one while it works. If no job is in flight or waited for, and none was abandoned, all is
  -- done.
  pub record IsConsistent (s : System) : Type 0 where
    pub base : ℕ
    pub taken : ℕ
    pub done : ℕ
    pub shared : s.host.mbox engine ≡ s.cluster.mbox
    pub number : s.host.next_seq engine ≡ s.cluster.mbox.seq
    pub seq : s.cluster.mbox.seq ≡ numbered base s.nb_posts
    pub served : s.cluster.served ≡ numbered base taken
    pub published : s.cluster.mbox.done_seq ≡ numbered base done
    pub posted_first : taken ≤ s.nb_posts
    pub job : SameJob s.cluster.mbox s.posted
    pub progress : ((s.phase ≡ asleep) × (done ≡ taken)) ⊎ ((s.phase ≡ running) × (done < taken))
    pub quiet :
        s.nb_posts < u32_mod
        → s.host.in_flight engine ≡ 0
        → s.waiting ≡ false
        → s.abandoned ≡ false
        → done ≡ s.nb_posts

-- What a post that succeeds does to the fields of the invariant.
record Posted (engine : ℕ) (g h : Host) : Type 0 where
  idle : g.in_flight engine ≡ 0
  seq : (h.mbox engine).seq ≡ add32 (g.next_seq engine) 1
  number : h.next_seq engine ≡ (h.mbox engine).seq
  flight : h.in_flight engine ≡ 1
  done_seq : (h.mbox engine).done_seq ≡ (g.mbox engine).done_seq

pub post-idle :
    (engine : ℕ) (d : Descriptor) (g h : Host)
    → is_no_cluster engine ≡ false
    → post engine d g ≡ (h, 0)
    → g.in_flight engine ≡ 0
unfolding post
post-idle engine d g h ok e = ground arith

post-Posted :
    (engine : ℕ) (d : Descriptor) (g h : Host)
    → is_no_cluster engine ≡ false
    → post engine d g ≡ (h, 0)
    → Posted engine g h
post-Posted engine d g h ok e =
    let idle = post-idle engine d g h ok e in
    let (s, args, k, f, seq, number, flight, stores, done, other) = post-taken engine d g ok idle in
    let same : (post engine d g).0 ≡ h = ap (λ p. p.0) e in
    record {
      idle = idle;
      seq = subst (λ t. (t.mbox engine).seq ≡ add32 (g.next_seq engine) 1) same seq;
      number = subst (λ t. t.next_seq engine ≡ (t.mbox engine).seq) same number;
      flight = subst (λ t. t.in_flight engine ≡ 1) same flight;
      done_seq = subst (λ t. (t.mbox engine).done_seq ≡ (g.mbox engine).done_seq) same done;
    }

-- What waking does to them.
record Woken (s t : Cluster) : Type 0 where
  fresh : s.served ≢ s.mbox.seq
  served : t.served ≡ s.mbox.seq
  mbox : t.mbox ≡ record s.mbox { error = t.mbox.error }

wake-accept :
    (c : Config) (heap : Heap) (now : ℕ) (s t : Cluster)
    → wake c heap now s ≡ some t
    → (s.served ≢ s.mbox.seq) × (accept c heap now s ≡ t)
unfolding wake
wake-accept c heap now s t e = ground arith

wake-Woken :
    (c : Config) (heap : Heap) (now : ℕ) (s t : Cluster) → wake c heap now s ≡ some t → Woken s t
wake-Woken c heap now s t e =
    let (fresh, same) = wake-accept c heap now s t e in
    let (mbox, served, t0) = accept_frame c heap now s in
    record {
      fresh = fresh;
      served = subst (λ u. u.served ≡ s.mbox.seq) same served;
      mbox = subst (λ u. u.mbox ≡ record s.mbox { error = u.mbox.error }) same mbox;
    }

-- What finishing does to them.
pub record Finished (s t : Cluster) : Type 0 where
  pub served : t.served ≡ s.served
  pub done_seq : t.mbox.done_seq ≡ s.served
  pub job : SameJob t.mbox s.mbox

pub finish-Finished : (c : Config) (now : ℕ) (s : Cluster) → Finished s (finish c now s)
unfolding finish
finish-Finished c now s = record {
  served = refl;
  done_seq = refl;
  job = record { seq = refl; kernel = refl; nargs = refl; flags = refl; args = refl };
}

SameJob-trans : {a b c : Mailbox} → SameJob a b → SameJob b c → SameJob a c
SameJob-trans p q = record {
  seq = p.seq ∙ q.seq;
  kernel = p.kernel ∙ q.kernel;
  nargs = p.nargs ∙ q.nargs;
  flags = p.flags ∙ q.flags;
  args = p.args ∙ q.args;
}

SameJob-error : {a b : Mailbox} {n : ℕ} → a ≡ record b { error = n } → SameJob a b
SameJob-error e = record {
  seq = ap (λ m. m.seq) e;
  kernel = ap (λ m. m.kernel_id) e;
  nargs = ap (λ m. m.nargs) e;
  flags = ap (λ m. m.flags) e;
  args = ap (λ m. m.args) e;
}

pub SameJob-refl : (a : Mailbox) → SameJob a a
SameJob-refl a = record { seq = refl; kernel = refl; nargs = refl; flags = refl; args = refl }

module _ (c : Config) (heap : Heap) (engine : ℕ) (cluster : is_no_cluster engine ≡ false) where
  wakes-IsConsistent :
      (now : ℕ) (s : System) (t : Cluster)
      → s.phase ≡ asleep
      → wake c heap now s.cluster ≡ some t
      → IsConsistent engine s
      → IsConsistent engine (cluster_moves c heap engine s t running)
  wakes-IsConsistent now s t a w v =
      let p = wake-Woken c heap now s.cluster t w in
      let job : SameJob t.mbox s.cluster.mbox = SameJob-error p.mbox in
      let kept : t.mbox.done_seq ≡ s.cluster.mbox.done_seq = ap (λ m. m.done_seq) p.mbox in
      let all_done : v.done ≡ v.taken = ground (arith, v.progress) in
      let new : v.taken ≢ s.nb_posts =
        λ e. p.fresh (v.served ∙ ap (numbered v.base) e ∙ sym v.seq) in
      record {
        base = v.base;
        taken = s.nb_posts;
        done = v.done;
        shared = update_self s.host.mbox engine t.mbox;
        number = v.number ∙ sym job.seq;
        seq = job.seq ∙ v.seq;
        served = p.served ∙ v.seq;
        published = kept ∙ v.published;
        posted_first = omega arith;
        job = SameJob-trans job v.job;
        progress = inr (refl, omega (arith, all_done, new, v.posted_first));
        quiet = λ few idle free kept'.
            absurd (new (omega (arith, v.quiet few idle free kept', all_done)));
      }

  pub finishes-IsConsistent :
      (now : ℕ) (s : System)
      → s.phase ≡ running
      → IsConsistent engine s
      → IsConsistent engine (cluster_finishes c heap engine now s)
  finishes-IsConsistent now s r v =
      let t : Cluster = finish c now s.cluster in
      let p = finish-Finished c now s.cluster in
      let busy : v.done < v.taken = ground (arith, v.progress) in
      record {
        base = v.base;
        taken = v.taken;
        done = v.taken;
        shared = update_self s.host.mbox engine t.mbox;
        number = v.number ∙ sym p.job.seq;
        seq = p.job.seq ∙ v.seq;
        served = p.served ∙ v.served;
        published = p.done_seq ∙ v.served;
        posted_first = v.posted_first;
        job = SameJob-trans p.job v.job;
        progress = inl (refl, refl);
        quiet = λ few idle free left. elim (Bool-cases s.abandoned) [
          | inr never ↦ absurd (omega (arith, v.quiet few idle free never, busy, v.posted_first))
          | inl once ↦
              let same : s.cluster.served ≡ s.cluster.mbox.seq = ground (arith, once, left) in
              numbered_unique v.base v.taken s.nb_posts v.posted_first few
                (sym v.served ∙ same ∙ v.seq)
        ];
      }

  Work-IsConsistent :
      {s t : System} → Work c heap engine s t → IsConsistent engine s → IsConsistent engine t
  Work-IsConsistent {s} (wakes now t a w) v = wakes-IsConsistent now s t a w v
  Work-IsConsistent {s} (finishes now r) v = finishes-IsConsistent now s r v

  -- The host sees the job of the last post as done.
  pub seen_done :
      (s : System)
      → (v : IsConsistent engine s) → s.nb_posts < u32_mod
      → (s.host.mbox engine).done_seq ≡ s.host.next_seq engine
      → v.done ≡ s.nb_posts
  seen_done s v few d =
      let le : v.done ≤ v.taken = ground (arith, v.progress) in
      numbered_unique v.base v.done s.nb_posts (omega (arith, le, v.posted_first)) few
        (sym v.published ∙ sym (ap (λ m. m.done_seq) v.shared) ∙ d ∙ v.number ∙ v.seq)

  -- Steps of a wait move flags only.
  waiting-IsConsistent :
      (s : System) (waiting abandoned : Bool) (flags : Array ℕ)
      → (v : IsConsistent engine s)
      → (s.nb_posts < u32_mod
          → flags engine ≡ 0
          → waiting ≡ false
          → abandoned ≡ false
          → v.done ≡ s.nb_posts)
      → IsConsistent engine (record s {
        host = record s.host { in_flight = flags };
        waiting = waiting;
        abandoned = abandoned;
      })
  waiting-IsConsistent s waiting abandoned flags v quiet = record {
    base = v.base;
    taken = v.taken;
    done = v.done;
    shared = v.shared;
    number = v.number;
    seq = v.seq;
    served = v.served;
    published = v.published;
    posted_first = v.posted_first;
    job = v.job;
    progress = v.progress;
    quiet = quiet;
  }

  pub Step-IsConsistent :
      {s t : System} → Step c heap engine s t → IsConsistent engine s → IsConsistent engine t
  Step-IsConsistent (works w) v = Work-IsConsistent w v
  Step-IsConsistent {s} (posts d h free e) v =
      let p = post-Posted engine d s.host h cluster e in
      record {
        base = v.base;
        taken = v.taken;
        done = v.done;
        shared = refl;
        number = p.number;
        seq = omega (arith, p.seq, v.number, v.seq);
        served = v.served;
        published = p.done_seq ∙ ap (λ m. m.done_seq) v.shared ∙ v.published;
        posted_first = omega (arith, v.posted_first);
        job = SameJob-refl (h.mbox engine);
        progress = v.progress;
        quiet = λ few idle free' kept. absurd (omega (arith, p.flight, idle));
      }
  Step-IsConsistent {s} (waits free f) v =
      waiting-IsConsistent s true s.abandoned (update s.host.in_flight engine 0) v
        (λ few idle free' kept. ground arith)
  Step-IsConsistent {s} (collects w d) v =
      waiting-IsConsistent s false s.abandoned s.host.in_flight v
        (λ few idle free kept. seen_done s v few d)
  Step-IsConsistent {s} (gives_up w d) v =
      waiting-IsConsistent s false true s.host.in_flight v (λ few idle free kept. ground arith)

  pub Reach-IsConsistent :
      {s t : System} → Reach c heap engine s t → IsConsistent engine s → IsConsistent engine t
  Reach-IsConsistent here v = v
  Reach-IsConsistent (next r st) v = Step-IsConsistent st (Reach-IsConsistent r v)
