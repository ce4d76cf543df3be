-- ===== src/App/Tests.antt =====
-- The programs on a few images and clips, with natural numbers for floats.
use k9r.Base.{
  ℕ, ◌+◌, ◌-◌, ◌*◌, ◌≡◌, ◌↔◌, refl, Array, [], ◌∷◌, Bool, true, not, ◌==◌, ltb, arith, array_of,
}
use k9r.Host.State.{Host}
use k9r.Host.Engines.{engine_ready, engine_init}
use k9r.Host.Offload.{failures, set_sample, Env, MfccJob}
use k9r.Host.Tests.{fresh}
use k9r.App.Argmax.{argmax, argmax10}
use k9r.App.Argmax.First.{IsOrder, IsFirstMax, argmax-IsFirstMax}
use k9r.App.Mnist.{Run, images, main, report_absent, score_image}
use k9r.App.Kws.{Setup, Floats, Clock}
use k9r.App.Mnist.Status.{AgreeBelow, ready, main-passes}

abbrev above : ℕ → ℕ → Bool
above x y = ltb y x

above-IsOrder : IsOrder above
above-IsOrder = record {
  irrefl = λ x. ground arith;
  trans = λ x y z a b. ground arith;
  cotrans = λ x y z a b. ground arith;
}

abbrev outputs : Array ℕ
outputs = array_of (3 ∷ 9 ∷ 1 ∷ 9 ∷ 2 ∷ []) 0

argmax_outputs : argmax above outputs 5 ≡ 1
unfolding argmax
argmax_outputs = refl

first_of_three : IsFirstMax above-IsOrder outputs 5 (argmax above outputs 5)
first_of_three = argmax-IsFirstMax above-IsOrder outputs 5 (omega arith)

-- The network answers 1, whatever the image, in 100 cycles.
abbrev network : ℕ → Host → Run ℕ
network img h = record { host = h; outputs = outputs; c0 = 50; c1 = 150 }

abbrev ones : Array ℕ
ones img = 1

main-ones : (main above network ones ones 2 fresh).1 ≡ 0
unfolding main report_absent score_image argmax10 set_sample engine_ready engine_init
main-ones = refl

main-differs : (main above network ones (λ img. img) 2 fresh).1 ≡ 1
unfolding main report_absent score_image argmax10 set_sample engine_ready engine_init
main-differs = refl

main-passes_example : ((main above network ones ones 2 fresh).1 ≡ 0) ↔ (
    AgreeBelow above network ones ones 2 (ready above network ones ones 2 fresh) 2
    × (failures (images above network ones ones 2 2 (ready above network ones ones 2 fresh)).host
        ≡ 0))
main-passes_example = main-passes above network ones ones 2 fresh (omega arith)

-- Three clips, the front-end on Snitch.
abbrev job : MfccJob
job = record {
  audio = 0;
  out = 0;
  nb_frames = 49;
  frame_len = 640;
  hop = 320;
  fft_len = 1024;
  window = 0x80010000;
  twiddles = 0x80020000;
  mel_coeff = 0x80030000;
  mel_start = 0x80040000;
  mel_len = 0x80041000;
  nb_mel = 40;
  dct = 0x80042000;
  nb_cep = 10;
  mel_coeffs = 500;
}

abbrev setup : Setup ℕ
setup = record {
  run_clips = 3;
  pipelined = true;
  frontend = 1;
  job = job;
  audio = λ n. 0x81000000 + n * 64000;
  features = array_of (0x80050000 ∷ 0x80060000 ∷ []) 0;
  feat_elems = 4;
  nb_classes = 5;
  labels = ones;
  reference = ones;
  mfcc_ref = λ n. outputs;
}

abbrev numbers : Floats ℕ
numbers = record {
  fzero = 0;
  gt = above;
  fabs_diff = λ a b. a - b + (b - a);
  drifted = λ d. not (d == 0);
  micros = λ d. d * 1000000;
}

-- The clusters answer at once.
abbrev at_once : Env
at_once engine m k = record m { done_seq = m.seq; cycles = 500 }

abbrev memory : ℕ → ℕ → Array ℕ
memory n addr = outputs

abbrev classify : Array ℕ → ℕ → Host → Run ℕ
classify feat n h = network n h

abbrev clock : Clock
clock = record { w0 = λ n. 0; w1 = λ n. 10; c0 = 0; c1 = 9000 }
