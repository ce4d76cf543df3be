-- ===== src/App/Mnist/Status.antt =====
-- The exit status of runtime/mesh/mnist_main.c.
use k9r.Base.{
  ℕ, zero, suc, ◌≤◌, ◌<◌, ◌≡◌, ◌↔◌, ◌∙◌, refl, Array, Bool, ◌==◌, if◌then◌else◌, add32, u32_mod,
  arith, ℕ_discrete, eq→beq, ne→beq,
}
use k9r.Host.State.{Host}
use k9r.Host.Engines.{engine_snitch, engine_spatz, engine_init}
use k9r.Host.Offload.{failures}
use k9r.App.Argmax.{argmax10}
use k9r.App.Mnist.{Run, Score, report_absent, run_of, score_image, images, main}

module _ {F : Type 0} (gt : F → F → Bool) (network : ℕ → Host → Run F) (labels : Array ℕ)
    (reference : Array ℕ) (nb_images : ℕ) where
  abbrev pub loop : ℕ → Host → Score
  loop = images gt network labels reference nb_images

  -- What the chip says of image `img`, in the run from `h`.
  abbrev pub prediction : Host → ℕ → ℕ
  prediction h img =
      argmax10 gt (run_of gt network labels reference nb_images img (loop img h).host).outputs

  -- The first `n` predictions are the reference model's.
  abbrev pub AgreeBelow : Host → ℕ → Type 0
  AgreeBelow h n = (img : ℕ) → img < n → prediction h img ≡ reference img

  agree-images :
      (h : Host) (n : ℕ)
      → (loop (suc n) h).agree
        ≡ (if prediction h n == reference n then add32 (loop n h).agree 1 else (loop n h).agree)
  unfolding images score_image
  agree-images h n = refl

  agree-none : (h : Host) → (loop 0 h).agree ≡ 0
  unfolding images
  agree-none h = refl

  more_agree :
      (h : Host) (n : ℕ) → AgreeBelow h n → prediction h n ≡ reference n → AgreeBelow h (suc n)
  more_agree h n below here img lt = elim (ℕ_discrete img n) [
    | yes same ↦ rw same here
    | no ne ↦ below img (omega arith)
  ]

  -- The count of agreements never passes the number of images, and reaches it exactly if all agree.
  agree_count :
      (h : Host) (n : ℕ)
      → n < u32_mod
      → ((loop n h).agree ≤ n) × (((loop n h).agree ≡ n) ↔ AgreeBelow h n)
  agree_count h zero lt =
      (omega (arith, agree-none h), (λ e img none_left. absurd (omega arith), λ a. agree-none h))
  agree_count h (suc n) lt =
      let (below, count) = agree_count h n (omega arith) in
      elim (ℕ_discrete (prediction h n) (reference n)) [
        | yes same ↦
            let step : (loop (suc n) h).agree ≡ add32 (loop n h).agree 1 =
              agree-images h n ∙ rw (eq→beq (prediction h n) (reference n) same) refl in
            (
              omega arith,
              (
                λ e. more_agree h n (count.0 (omega arith)) same,
                λ all. let before = count.1 (λ img l. all img (omega arith)) in omega arith,
              ),
            )
        | no other ↦
            let step : (loop (suc n) h).agree ≡ (loop n h).agree =
              agree-images h n ∙ rw (ne→beq (prediction h n) (reference n) other) refl in
            (omega arith, (λ e. absurd (omega arith), λ all. absurd (other (all n (omega arith)))))
      ]

  -- The host when it starts on the images.
  abbrev pub ready : Host → Host
  ready h = report_absent engine_spatz (report_absent engine_snitch (engine_init h))

  main-status :
      (h : Host)
      → let s = loop nb_images (ready h) in
        ((main gt network labels reference nb_images h).1 ≡ 0)
        ↔ ((s.agree ≡ nb_images) × (failures s.host ≡ 0))
  unfolding main
  main-status h = ground arith

  -- The run exits with 0 exactly if the chip agreed with the reference model on every image and the
  -- count of failed offloads is 0 at the end. This is for fewer than 2 ^ 32 images, and for any
  -- generated network.
  pub main-passes :
      (h : Host)
      → nb_images < u32_mod
      → ((main gt network labels reference nb_images h).1 ≡ 0)
        ↔ (AgreeBelow (ready h) nb_images × (failures (loop nb_images (ready h)).host ≡ 0))
  main-passes h lt =
      let (out, back) = main-status h in
      let (all, count) = (agree_count (ready h) nb_images lt).1 in
      (λ e. (all (out e).0, (out e).1), λ p. back (count p.0, p.1))
