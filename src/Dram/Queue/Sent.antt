-- ===== src/Dram/Queue/Sent.antt =====
-- Which writes of the queue of targets/hetero/dram_core.hpp have been sent to the memory, and how
-- many stay.
use mathlib.Core.Path.{subst}
use k9r.Base.{
  ℕ, ◌+◌, ◌-◌, ◌≤◌, ◌<◌, ◌≡◌, ◌∙◌, refl, sym, ap, ◌⊎◌, inl, inr, List, [], ◌∷◌, ◌++◌, Bool, true,
  false, not, ◌||◌, arith, length, add64, length-append, leb, leb→le, Bool-cases, if_both, if_true,
  if_false,
}
use k9r.Dram.Queue.{
  Memory, Limits, QueuedWrite, Queue, retire, is_queued, drain_idle, make_room, batch, accept_write,
  queued,
}
use k9r.Dram.Queue.Steps.{
  logged, IsKept, addrs-last, IsKept-le, drain-IsKept, make_room-IsKept, batch-IsKept,
}

module _ {E : Type 0} (m : Memory E) where
  -- A write that is accepted is the last of the queue, or has been sent already.
  accept_write-IsKept :
      (l : Limits) (taken : List ℕ) (arrive addr : ℕ) (q : Queue (E × List ℕ))
      → l.wq_low ≤ l.wq_high
      → l.wq_high < l.wq_depth
      → IsKept taken l.wq_depth l.wq_high q
      → IsKept (taken ++ addr ∷ []) l.wq_depth l.wq_high (accept_write (logged m) l arrive addr q).0
  unfolding accept_write
  accept_write-IsKept l taken arrive addr q low high h =
      let q₁ : Queue (E × List ℕ) = record q { leaving = retire arrive q.leaving } in
      let places = length q₁.wq + length q₁.leaving in
      let (t, q₂) = make_room (logged m) l.wq_depth places (arrive, q₁) in
      let roomy : IsKept taken (l.wq_depth - 1) l.wq_high q₂ =
        make_room-IsKept m taken l.wq_depth places l.wq_high (arrive, q₁)
          record { fifo = h.fifo; places = omega arith; waiting = h.waiting } in
      let last : QueuedWrite = record { arrive = t; addr = addr } in
      let q₃ : Queue (E × List ℕ) = record q₂ { wq = q₂.wq ++ last ∷ [] } in
      let longer : length q₃.wq ≡ length q₂.wq + 1 = length-append q₂.wq (last ∷ []) in
      let pushed : IsKept (taken ++ addr ∷ []) l.wq_depth (length q₃.wq) q₃ = record {
        fifo = addrs-last q₂.engine.1 q₂.wq last ∙ ap (λ xs. xs ++ addr ∷ []) roomy.fifo;
        places = omega (arith, longer, roomy.places);
        waiting = omega arith;
      } in
      let sent = batch (logged m) l.wq_low t (length q₃.wq) q₃ in
      let full =
        IsKept-le (taken ++ addr ∷ []) l.wq_depth l.wq_depth (l.wq_low - 1) l.wq_high sent
          (omega arith) (omega arith)
          (batch-IsKept m (taken ++ addr ∷ []) l.wq_low t (length q₃.wq) l.wq_depth q₃ pushed) in
      elim (Bool-cases (leb (length q₃.wq) l.wq_high)) [
        | inl few ↦
            subst (IsKept (taken ++ addr ∷ []) l.wq_depth l.wq_high) (sym (if_true sent few)) (
              IsKept-le (taken ++ addr ∷ []) l.wq_depth l.wq_depth (length q₃.wq) l.wq_high q₃
                (omega arith) (leb→le (length q₃.wq) l.wq_high few) pushed)
        | inr many ↦
            subst (IsKept (taken ++ addr ∷ []) l.wq_depth l.wq_high) (sym (if_false q₃ many)) full
      ]

-- For every memory, a burst through the queue keeps its bounds, if the marks of the queue are in
-- order: never more than `wq_depth` writes hold a place and never more than `wq_high` of them wait.
-- The writes that the memory is sent, and then those that wait, are those that were taken, in the
-- order they were taken; the burst adds itself at the end, or adds none, and then it is a read or a
-- write to an address that waits in the queue already.
pub queued-IsKept :
    {E : Type 0} (m : Memory E) (l : Limits) (taken : List ℕ) (arrive addr : ℕ) (w : Bool)
    (q : Queue (E × List ℕ))
    → l.wq_low ≤ l.wq_high
    → l.wq_high < l.wq_depth
    → IsKept taken l.wq_depth l.wq_high q
    → (let after = (queued (logged m) l arrive addr w q).0 in
        (IsKept taken l.wq_depth l.wq_high after × ((not w || is_queued addr after.wq) ≡ true))
        ⊎ ((w ≡ true) × IsKept (taken ++ addr ∷ []) l.wq_depth l.wq_high after))
unfolding queued
queued-IsKept {E} m l taken arrive addr false q low high h =
    let d = drain_idle (logged m) arrive q in
    let kept = drain-IsKept m taken l.wq_depth l.wq_high arrive q.wq q refl h in
    inl (
      if_both {A = Queue (E × List ℕ) × ℕ}
        (λ r. IsKept taken l.wq_depth l.wq_high r.0 × (true ≡ true)) (is_queued addr d.wq)
        (record { fifo = kept.fifo; places = kept.places; waiting = kept.waiting }, refl)
        (record { fifo = kept.fifo; places = kept.places; waiting = kept.waiting }, refl))
queued-IsKept {E} m l taken arrive addr true q low high h =
    let d = drain_idle (logged m) arrive q in
    let kept = drain-IsKept m taken l.wq_depth l.wq_high arrive q.wq q refl h in
    let taken_one = accept_write (logged m) l arrive addr d in
    let merged : Queue (E × List ℕ) × ℕ = (record d { merged = add64 d.merged 1 }, arrive) in
    elim (Bool-cases (is_queued addr d.wq)) [
      | inl waits ↦ inl (
          subst (λ r. IsKept taken l.wq_depth l.wq_high r.0 × (is_queued addr r.0.wq ≡ true))
            (sym (if_true taken_one waits))
            (record { fifo = kept.fifo; places = kept.places; waiting = kept.waiting }, waits))
      | inr new ↦ inr (
        refl,
        subst (λ r. IsKept (taken ++ addr ∷ []) l.wq_depth l.wq_high r.0)
            (sym (if_false merged new)) (accept_write-IsKept m l taken arrive addr d low high kept),
      )
    ]
