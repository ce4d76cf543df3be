-- ===== src/App/Kws.antt =====
-- `main` of runtime/mesh/kws_main.c. Floats, the generated network and its data are parameters, and
-- so are what the clusters do (`env`), what the feature buffers hold when clip `n` is classified
-- (`memory n`), and the reads of mcycle.
pub mod Idle
pub mod Overlap
use k9r.Base.{
  ℕ, zero, suc, ◌+◌, ◌/◌, ◌%◌, ◌^◌, ◌-◌, Array, ◌∷◌, Bool, ◌&&◌, not, ◌==◌, ltb, if◌then◌else◌,
  add32, add64,
}
use k9r.Host.State.{Host, absent, disagrees, kws_score}
use k9r.Host.Engines.{engine_snitch, engine_spatz, engine_busy, engine_init}
use k9r.Host.Wait.{wait}
use k9r.Host.Offload.{Env, MfccJob, set_sample, failures, check, await, offload_mfcc, post_mfcc}
use k9r.App.Argmax.{argmax}
use k9r.App.Mnist.{Run, report_absent}

-- The build's choices and the generated data. `job` is what `make_job` sets; `audio` and `features`
-- are addresses, of the clips and of the two buffers.
pub record Setup (F : Type 0) : Type 0 where
  pub run_clips : ℕ
  pub pipelined : Bool
  pub frontend : ℕ
  pub job : MfccJob
  pub audio : Array ℕ
  pub features : Array ℕ
  pub feat_elems : ℕ
  pub nb_classes : ℕ
  pub labels : Array ℕ
  pub reference : Array ℕ
  pub mfcc_ref : ℕ → Array F

-- The float operations: `fabs_diff a b` is `fabsf(a - b)`, `drifted d` is `!(d <= 1e-3f)`, and
-- `micros d` is `(uint64_t)(d * 1e6f)`.
pub record Floats (F : Type 0) : Type 0 where
  pub fzero : F
  pub gt : F → F → Bool
  pub fabs_diff : F → F → F
  pub drifted : F → Bool
  pub micros : F → ℕ

-- The reads of mcycle around the collection of clip `n`'s features, and around the loop.
pub record Clock : Type 0 where
  pub w0 : Array ℕ
  pub w1 : Array ℕ
  pub c0 : ℕ
  pub c1 : ℕ

-- The variables of the loop over clips.
pub record Clips (F : Type 0) : Type 0 where
  pub host : Host
  pub correct : ℕ
  pub agree : ℕ
  pub maxdiff : F
  pub fe_wait : ℕ

abbrev sub64 : ℕ → ℕ → ℕ
sub64 a b = (a + 2 ^ 64 - b) % 2 ^ 64

module _ {F : Type 0} (fl : Floats F) (setup : Setup F) (env : Env) (memory : ℕ → ℕ → Array F)
    (network : Array F → ℕ → Host → Run F) (clock : Clock) where
  -- The front-end's job for clip `n`, into the buffer `n & 1`.
  abbrev pub job_of : ℕ → MfccJob
  job_of n = record setup.job { audio = setup.audio n; out = setup.features (n % 2) }

  abbrev pub is_last : ℕ → Bool
  is_last n = not (ltb (add32 n 1) setup.run_clips)

  -- Before the classifier: the post of the next clip.
  unfoldable pub post_next : ℕ → Host → Host
  post_next n h =
      if setup.pipelined && not (is_last n)
      then (post_mfcc setup.frontend (job_of (n + 1)) h).0
      else h

  -- After it: the next clip's features are collected, or computed.
  unfoldable pub collect_next : ℕ → Host → Host
  collect_next n h =
      if is_last n
      then h
      else if setup.pipelined
      then (let (h', r) = await env setup.frontend h in check setup.frontend "Mfcc" r h').0
      else (offload_mfcc env setup.frontend (job_of (n + 1)) h).0

  -- The loop over the features of clip `n`, the first `i` of them.
  unfoldable pub drift : Array F → ℕ → ℕ → F → F
  drift feat n zero m = m
  drift feat n (suc i) m =
      let before = drift feat n i m in
      let d = fl.fabs_diff (feat i) (setup.mfcc_ref n i) in if fl.gt d before then d else before

  -- The run of the network on clip `n`, whose features stand in buffer `n & 1`.
  abbrev pub features_of : ℕ → Array F
  features_of n = memory n (setup.features (n % 2))

  unfoldable pub run_clip : ℕ → Host → Run F
  run_clip n h = network (features_of n) n (post_next n (set_sample (add32 n 1) setup.run_clips h))

  -- A prediction that is not the reference model's is reported.
  unfoldable pub report_clip : ℕ → ℕ → Host → Host
  report_clip n got h =
      if got == setup.reference n
      then h
      else record h { log = disagrees n got (setup.reference n) ∷ h.log }

  unfoldable pub clip : ℕ → Clips F → Clips F
  clip n s =
      let r = run_clip n s.host in
      let got = argmax fl.gt r.outputs setup.nb_classes in
      record {
        host = collect_next n (report_clip n got r.host);
        correct = if got == setup.labels n then add32 s.correct 1 else s.correct;
        agree = if got == setup.reference n then add32 s.agree 1 else s.agree;
        maxdiff = drift (features_of n) n setup.feat_elems s.maxdiff;
        fe_wait =
            if is_last n
            then s.fe_wait
            else add64 s.fe_wait (sub64 (clock.w1 (n + 1)) (clock.w0 (n + 1)));
      }

  -- The loop, after `n` clips. The features of clip 0 are computed first.
  unfoldable pub clips : ℕ → Host → Clips F
  clips zero h = record {
    host = (offload_mfcc env setup.frontend (job_of 0) h).0;
    correct = 0;
    agree = 0;
    maxdiff = fl.fzero;
    fe_wait = add64 0 (sub64 (clock.w1 0) (clock.w0 0));
  }
  clips (suc n) h = clip n (clips n h)

  -- The host when it starts on the clips.
  abbrev pub ready : Host → Host
  ready h = report_absent engine_spatz (report_absent engine_snitch (engine_init h))

  -- The state at the end, and the exit status.
  unfoldable pub main : Host → Host × ℕ
  main h =
      let s = clips setup.run_clips (ready h) in
      let fe_busy = engine_busy setup.frontend s.host in
      let total = sub64 clock.c1 clock.c0 in
      let hidden = if ltb s.fe_wait fe_busy then fe_busy - s.fe_wait else 0 in
      let line =
        kws_score setup.run_clips s.correct s.agree (fl.micros s.maxdiff) total
          (total / (if setup.run_clips == 0 then 1 else setup.run_clips)) setup.frontend fe_busy
          s.fe_wait hidden (engine_busy engine_snitch s.host) (engine_busy engine_spatz s.host)
          (if setup.pipelined then 1 else 0) (failures s.host) in
      (
        record s.host { log = line ∷ s.host.log },
        if (s.agree == setup.run_clips) && (failures s.host == 0) && not (fl.drifted s.maxdiff)
            then 0
            else 1,
      )
