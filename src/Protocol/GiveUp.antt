-- ===== src/Protocol/GiveUp.antt =====
-- After a wait that gave up: the cluster still works on the job, and `in_flight` no longer says so.
use k9r.Base.{
  ℕ, ◌<◌, ◌≡◌, ◌∙◌, refl, ap, List, [], ◌∷◌, ◌++◌, true, false, All, arith, min, ltb, lt→ltb, Array,
  if◌then◌else◌,
}
use k9r.Machine.{Config, mailbox_max_args}
use k9r.Host.State.{Host}
use k9r.Host.Engines.{is_no_cluster}
use k9r.Host.Post.{Descriptor, post}
use k9r.Host.Post.Effects.{post-taken}
use k9r.Cluster.Stage.{Placed}
use k9r.Cluster.Stage.Effects.{outputs_out, issued-stage_out}
use k9r.Cluster.Loop.{Cluster, finish}
use k9r.Cluster.Loop.Safety.{done_seq-finish}

-- Results go where the arguments of the descriptor say, at the time when they go out.
outputs_out-eq :
    (a b : Array ℕ) (ps : List Placed)
    → All (λ p. a p.op.arg ≡ b p.op.arg) ps
    → outputs_out a ps ≡ outputs_out b ps
outputs_out-eq a b [] h = refl
outputs_out-eq a b (p ∷ ps) h = ground (arith, outputs_out-eq a b ps h.1, h.0)

issued-finish :
    (c : Config) (now : ℕ) (s : Cluster)
    → s.staged ≡ true
    → (finish c now s).dma.issued ≡ s.dma.issued ++ outputs_out s.mbox.args s.ops
unfolding finish
issued-finish c now s st = rw (st, issued-stage_out s.mbox.args s.ops s.dma)

slots-eq :
    (a b : Array ℕ) (n : ℕ) (ps : List Placed)
    → ((j : ℕ) → j < n → a j ≡ b j)
    → All (λ p. p.op.arg < n) ps
    → All (λ p. a p.op.arg ≡ b p.op.arg) ps
slots-eq a b n [] same h = tt
slots-eq a b n (p ∷ ps) same h = (same p.op.arg h.0, slots-eq a b n ps same h.1)

first_args : (j n x y : ℕ) → j < n → (if ltb j n then x else y) ≡ x
first_args j n x y lt = rw (lt→ltb j n lt)

-- Where the cluster still works on a staged job that the host has given up, so that nothing counts
-- as in flight, a new post is taken, and the late results of the old job are then copied to the
-- addresses of the new job: one transfer for each output of the old job, into the buffer that the
-- new descriptor names in that slot. The job that this publishes as done is the old one. This is
-- for a new descriptor with an argument for each slot that the old job staged.
pub late_results_misdirected :
    (c : Config) (engine now : ℕ) (d : Descriptor) (h : Host) (s : Cluster)
    → is_no_cluster engine ≡ false
    → h.in_flight engine ≡ 0
    → s.staged ≡ true
    → All (λ p. p.op.arg < min d.nargs mailbox_max_args) s.ops
    → let (h', status) = post engine d h in
      let t = finish c now (record s { mbox = h'.mbox engine }) in
      (status ≡ 0)
      × (t.dma.issued ≡ s.dma.issued ++ outputs_out d.args s.ops)
      × (t.mbox.done_seq ≡ s.served)
late_results_misdirected c engine now d h s ok idle st slots =
    let taken = post-taken engine d h ok idle in
    let h' : Host = (post engine d h).0 in
    let same : (j : ℕ) → j < min d.nargs mailbox_max_args → (h'.mbox engine).args j ≡ d.args j =
      λ j lt. taken.1 j ∙ first_args j (min d.nargs mailbox_max_args) _ _ lt in
    (
      taken.0,
      issued-finish c now (record s { mbox = h'.mbox engine }) st
          ∙ ap (λ l. s.dma.issued ++ l)
              (outputs_out-eq (h'.mbox engine).args d.args s.ops (
                slots-eq (h'.mbox engine).args d.args (min d.nargs mailbox_max_args) s.ops same
                  slots)),
      done_seq-finish c now (record s { mbox = h'.mbox engine }),
    )
