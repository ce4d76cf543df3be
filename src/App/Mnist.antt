-- ===== src/App/Mnist.antt =====
-- `main` of runtime/mesh/mnist_main.c. The network, its labels and the reference predictions are
-- generated: `network img h` is the run of the graph on image `img`, from the host's state `h`.
pub mod Status
use k9r.Base.{
  ℕ, zero, suc, ◌+◌, ◌-◌, ◌/◌, ◌%◌, ◌^◌, Array, ◌∷◌, Bool, ◌&&◌, ◌==◌, ltb, if◌then◌else◌, add32,
}
use k9r.Host.State.{Host, absent, disagrees, score}
use k9r.Host.Engines.{engine_snitch, engine_spatz, engine_name, engine_ready, engine_init}
use k9r.Host.Offload.{set_sample, failures}
use k9r.App.Argmax.{argmax10}

-- One of the two clusters that did not sign in is reported.
unfoldable pub report_absent : ℕ → Host → Host
report_absent engine h =
    if engine_ready engine h then h else record h { log = absent (engine_name engine) ∷ h.log }

-- RUN_IMAGES, from HES_SAMPLES and MNIST_NUM_IMAGES
abbrev pub run_images : ℕ → ℕ → ℕ
run_images samples num_images = if ltb samples num_images then samples else num_images

-- What a run of the network leaves: the outputs, and the two reads of mcycle around it.
pub record Run (F : Type 0) : Type 0 where
  pub host : Host
  pub outputs : Array F
  pub c0 : ℕ
  pub c1 : ℕ

-- The variables of the loop over images.
pub record Score : Type 0 where
  pub host : Host
  pub correct : ℕ
  pub agree : ℕ
  pub total_cycles : ℕ

module _ {F : Type 0} (gt : F → F → Bool) (network : ℕ → Host → Run F) (labels : Array ℕ)
    (reference : Array ℕ) (nb_images : ℕ) where
  -- The run of the network for one image.
  abbrev pub run_of : ℕ → Host → Run F
  run_of img h = network img (set_sample (add32 img 1) nb_images h)

  unfoldable pub score_image : ℕ → Score → Score
  score_image img s =
      let r = run_of img s.host in
      let got = argmax10 gt r.outputs in
      record {
        host =
            if got == reference img
            then r.host
            else record r.host { log = disagrees img got (reference img) ∷ r.host.log };
        correct = if got == labels img then add32 s.correct 1 else s.correct;
        agree = if got == reference img then add32 s.agree 1 else s.agree;
        total_cycles = (s.total_cycles + (r.c1 + 2 ^ 64 - r.c0) % 2 ^ 64) % 2 ^ 64;
      }

  -- The loop, after `n` images.
  unfoldable pub images : ℕ → Host → Score
  images zero h = record { host = h; correct = 0; agree = 0; total_cycles = 0 }
  images (suc n) h = score_image n (images n h)

  -- The state at the end, and the exit status.
  unfoldable pub main : Host → Host × ℕ
  unfolding images
  main h =
      let ready = report_absent engine_spatz (report_absent engine_snitch (engine_init h)) in
      let s = images nb_images ready in
      let per_image = s.total_cycles / (if nb_images == 0 then 1 else nb_images) in
      let line = score nb_images s.correct s.agree s.total_cycles per_image (failures s.host) in
      (
        record s.host { log = line ∷ s.host.log },
        if (s.agree == nb_images) && (failures s.host == 0) then 0 else 1,
      )
