-- ===== src/App/Kws/Overlap.antt =====
-- The overlap of front-end and classifier in the loop of runtime/mesh/kws_main.c.
use k9r.Base.{ℕ, ◌≡◌, Array, Bool, add32}
use k9r.Host.State.{Host}
use k9r.Host.Offload.{Env, set_sample}
use k9r.App.Mnist.{Run}
use k9r.App.Kws.{Setup, Floats, Clock, is_last, post_next, collect_next, clips, ready}

module _ {F : Type 0} (fl : Floats F) (setup : Setup F) (env : Env) (memory : ℕ → ℕ → Array F)
    (network : Array F → ℕ → Host → Run F) (clock : Clock) where
  abbrev fe : ℕ
  fe = setup.frontend

  abbrev last_clip : ℕ → Bool
  last_clip = is_last fl setup env memory network clock

  abbrev collect : ℕ → Host → Host
  collect = collect_next fl setup env memory network clock

  abbrev post_one : ℕ → Host → Host
  post_one = post_next fl setup env memory network clock

  abbrev pub start : Host → Host
  start = ready fl setup env memory network clock

  abbrev pub loop : ℕ → Host → Host
  loop n h = (clips fl setup env memory network clock n h).host

  -- The host as it is when the next clip is posted.
  abbrev pub posting : ℕ → Host → Host
  posting n h = set_sample (add32 n 1) setup.run_clips (loop n h)

  -- The generated network leaves the front-end's cluster alone.
  abbrev pub LeavesAlone : Type 0
  LeavesAlone =
      (feat : Array F) (n : ℕ) (h : Host) → (network feat n h).host.in_flight fe ≡ h.in_flight fe
