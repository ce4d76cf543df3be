-- ===== src/Dram/Queue/Steps.antt =====
-- What sending a write, waiting for a place and draining do to the write queue of
-- targets/hetero/dram_core.hpp. The memory logs the addresses of the writes that it is sent.
use mathlib.Core.Path.{subst}
use k9r.Base.{
  ℕ, zero, suc, ◌+◌, ◌-◌, ◌≤◌, ◌≡◌, ◌∙◌, refl, sym, ap, inl, inr, max, List, [], ◌∷◌, ◌++◌, map,
  true, arith, length, length-append, leb, leb→lt, Bool-cases, if◌then◌else◌, if_both, if_true,
  if_false,
}
use k9r.Dram.Queue.{
  Memory, QueuedWrite, Queue, retire, issue, issue_oldest, drain, leave, issue_first, let_leave,
  make_room, batch,
}

-- A memory that logs the addresses of its writes.
abbrev pub logged : {E : Type 0} → Memory E → Memory (E × List ℕ)
logged m = record {
  burst = λ t a w s. let r = m.burst t a w s.0 in ((r.0, if w then s.1 ++ a ∷ [] else s.1), r.1);
  order = λ a s. m.order a s.0;
  refresh = λ t a s. (m.refresh t a s.0, s.1);
  column = λ t a s. m.column t a s.0;
}

abbrev pub addrs : List QueuedWrite → List ℕ
addrs = map (λ w. w.addr)

-- The log and then the queue are `taken`; at most `n` writes hold a place and at most `k` of them
-- wait.
pub record IsKept {E : Type 0} (taken : List ℕ) (n k : ℕ) (q : Queue (E × List ℕ)) : Type 0 where
  pub fifo : q.engine.1 ++ addrs q.wq ≡ taken
  pub places : length q.wq + length q.leaving ≤ n
  pub waiting : length q.wq ≤ k

append_last : (xs : List ℕ) (y : ℕ) (ys : List ℕ) → (xs ++ y ∷ []) ++ ys ≡ xs ++ y ∷ ys
append_last [] y ys = refl
append_last (x ∷ xs) y ys = ap (◌∷◌ x) (append_last xs y ys)

pub addrs-last :
    (xs : List ℕ) (ws : List QueuedWrite) (w : QueuedWrite)
    → xs ++ addrs (ws ++ w ∷ []) ≡ (xs ++ addrs ws) ++ w.addr ∷ []
addrs-last [] [] w = refl
addrs-last [] (v ∷ ws) w = ap (◌∷◌ v.addr) (addrs-last [] ws w)
addrs-last (x ∷ xs) ws w = ap (◌∷◌ x) (addrs-last xs ws w)

pub length-retire : (t : ℕ) (xs : List ℕ) → length (retire t xs) ≤ length xs
length-retire t [] = omega arith
length-retire t (x ∷ xs) =
    if_both {A = List ℕ} (λ r. length r ≤ suc (length xs)) (leb x t)
      (omega (arith, length-retire t xs)) (omega arith)

pub IsKept-le :
    {E : Type 0} (taken : List ℕ) (n n' k k' : ℕ) (q : Queue (E × List ℕ))
    → n ≤ n'
    → k ≤ k'
    → IsKept taken n k q
    → IsKept taken n' k' q
IsKept-le taken n n' k k' q le le' h = record {
  fifo = h.fifo;
  places = omega (arith, h.places);
  waiting = omega (arith, h.waiting);
}

module _ {E : Type 0} (m : Memory E) where
  issue-IsKept :
      (taken : List ℕ) (n k t : ℕ) (ws : List QueuedWrite) (q : Queue (E × List ℕ))
      → q.wq ≡ ws
      → IsKept taken n k q
      → IsKept taken n (k - 1) (issue (logged m) t ws q)
  issue-IsKept taken n k t [] q e h = record {
    fifo = h.fifo;
    places = h.places;
    waiting = omega (arith, ap length e);
  }
  issue-IsKept taken n k t (w ∷ ws) q e h = record {
    fifo =
        append_last q.engine.1 w.addr (addrs ws) ∙ sym (ap (λ x. q.engine.1 ++ addrs x) e) ∙ h.fifo;
    places = omega (
      arith,
      length-append q.leaving ((m.burst (max t w.arrive) w.addr true q.engine.0).1 ∷ []),
      ap length e,
      h.places,
    );
    waiting = omega (arith, ap length e, h.waiting);
  }

  pub drain-IsKept :
      (taken : List ℕ) (n k t : ℕ) (ws : List QueuedWrite) (q : Queue (E × List ℕ))
      → q.wq ≡ ws
      → IsKept taken n k q
      → IsKept taken n k (drain (logged m) t ws q)
  unfolding drain
  drain-IsKept taken n k t [] q e h = h
  drain-IsKept taken n k t (w ∷ ws) q e h =
      let start = max w.arrive (m.order w.addr q.engine.0) in
      let refreshed : Queue (E × List ℕ) = record q {
        engine = (m.refresh start w.addr q.engine.0, q.engine.1);
      } in
      let here : IsKept taken n k refreshed = record {
        fifo = h.fifo;
        places = h.places;
        waiting = h.waiting;
      } in
      let next = issue_oldest (logged m) start refreshed in
      let sent =
        IsKept-le taken n n (k - 1) k next (omega arith) (omega arith)
          (issue-IsKept taken n k start refreshed.wq refreshed refl here) in
      let first : next.wq ≡ ws = ap (λ x. (issue (logged m) start x refreshed).wq) e in
      if_both (IsKept taken n k) (leb t start) h (
        if_both (IsKept taken n k) (leb t (m.column start w.addr refreshed.engine.0)) here
          (drain-IsKept taken n k t ws next first sent))

  leave-IsKept :
      (taken : List ℕ) (n k t : ℕ) (xs : List ℕ) (q : Queue (E × List ℕ))
      → q.leaving ≡ xs
      → length q.wq ≤ n
      → IsKept taken (suc n) k q
      → IsKept taken n k (leave (logged m) t xs q).1
  leave-IsKept taken n k t [] q e le h = record {
    fifo = h.fifo;
    places = omega (arith, ap length e, le);
    waiting = h.waiting;
  }
  leave-IsKept taken n k t (x ∷ xs) q e le h = record {
    fifo = h.fifo;
    places = omega (arith, ap length e, h.places);
    waiting = h.waiting;
  }

  let_leave-IsKept :
      (taken : List ℕ) (n k t : ℕ) (xs : List ℕ) (q : Queue (E × List ℕ))
      → q.leaving ≡ xs
      → IsKept taken (suc n) k q
      → (let q₁ = issue_first (logged m) t xs q in
          IsKept taken n k (leave (logged m) t q₁.leaving q₁).1)
  let_leave-IsKept taken n k t [] q e h =
      let q₁ = issue_oldest (logged m) t q in
      let all : IsKept taken (suc n) (suc n) q = record {
        fifo = h.fifo;
        places = h.places;
        waiting = omega (arith, h.places);
      } in
      leave-IsKept taken n k t q₁.leaving q₁ refl
        (omega (arith, (issue-IsKept taken (suc n) (suc n) t q.wq q refl all).waiting))
        (IsKept-le taken (suc n) (suc n) (k - 1) k q₁ (omega arith) (omega arith)
          (issue-IsKept taken (suc n) k t q.wq q refl h))
  let_leave-IsKept taken n k t (x ∷ xs) q e h =
      leave-IsKept taken n k t q.leaving q refl (omega (arith, ap length e, h.places)) h

  -- As many rounds as places are taken are enough to free one.
  pub make_room-IsKept :
      (taken : List ℕ) (depth fuel k : ℕ) (s : ℕ × Queue (E × List ℕ))
      → IsKept taken fuel k s.1
      → IsKept taken (depth - 1) k (make_room (logged m) depth fuel s).1
  unfolding make_room
  make_room-IsKept taken depth zero k s h =
      IsKept-le taken 0 (depth - 1) k k s.1 (omega arith) (omega arith) h
  make_room-IsKept taken depth (suc fuel) k s h =
      let rest = make_room (logged m) depth fuel (let_leave (logged m) s.0 s.1) in
      let places = length s.1.wq + length s.1.leaving in
      elim (Bool-cases (leb depth places)) [
        | inl full ↦
            subst (λ r. IsKept taken (depth - 1) k r.1) (sym (if_true s full))
              (make_room-IsKept taken depth fuel k (let_leave (logged m) s.0 s.1)
                (let_leave-IsKept taken fuel k s.0 s.1.leaving s.1 refl h))
        | inr room ↦
            subst (λ r. IsKept taken (depth - 1) k r.1) (sym (if_false rest room))
              record {
                fifo = h.fifo;
                places = omega (arith, leb→lt depth places room);
                waiting = h.waiting;
              }
      ]

  pub batch-IsKept :
      (taken : List ℕ) (low t fuel n : ℕ) (q : Queue (E × List ℕ))
      → IsKept taken n fuel q
      → IsKept taken n (low - 1) (batch (logged m) low t fuel q)
  unfolding batch
  batch-IsKept taken low t zero n q h =
      IsKept-le taken n n 0 (low - 1) q (omega arith) (omega arith) h
  batch-IsKept taken low t (suc fuel) n q h =
      let next = issue_oldest (logged m) t q in
      elim (Bool-cases (leb low (length q.wq))) [
        | inl more ↦ subst (IsKept taken n (low - 1)) (sym (if_true q more)) (
            batch-IsKept taken low t fuel n next (
              IsKept-le taken n n (suc fuel - 1) fuel next (omega arith) (omega arith)
                (issue-IsKept taken n (suc fuel) t q.wq q refl h)))
        | inr less ↦
            subst (IsKept taken n (low - 1))
              (sym (if_false (batch (logged m) low t fuel next) less))
              record {
                fifo = h.fifo;
                places = h.places;
                waiting = omega (arith, leb→lt low (length q.wq) less);
              }
      ]
