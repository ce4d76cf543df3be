-- ===== src/Dram/Queue.antt =====
-- The write queue of targets/hetero/dram_core.hpp: `queued`, `drain_idle`, `issue_oldest` and
-- `retire`. The memory behind the queue is an interface, which `burst` and what it calls fill.
pub mod Steps
pub mod Sent
pub mod Backing
use k9r.Base.{
  ℕ, zero, suc, ◌+◌, max, List, [], ◌∷◌, ◌++◌, Bool, true, false, ◌||◌, if◌then◌else◌, leb, ◌==◌,
  length, add64,
}

-- What the queue needs of a memory with the state `E`.
pub record Memory (E : Type 0) : Type 0 where
  -- A burst that arrives at a time: the new state, and its end.
  pub burst : ℕ → ℕ → Bool → E → E × ℕ
  -- The earliest next command of the address's channel.
  pub order : ℕ → E → ℕ
  -- The refreshes of the address's channel that are due.
  pub refresh : ℕ → ℕ → E → E
  -- The column command that a write would have.
  pub column : ℕ → ℕ → E → ℕ

-- The parameters of the queue, and how long a forwarded read takes.
pub record Limits : Type 0 where
  pub wq_depth : ℕ
  pub wq_high : ℕ
  pub wq_low : ℕ
  pub t_ck : ℕ

pub record QueuedWrite : Type 0 where
  pub arrive : ℕ
  pub addr : ℕ

pub record Queue (E : Type 0) : Type 0 where
  pub engine : E
  pub wq : List QueuedWrite
  pub leaving : List ℕ
  pub merged : ℕ
  pub forwarded : ℕ

-- The writes whose data is still in the queue after `t`.
abbrev pub retire : ℕ → List ℕ → List ℕ
retire t [] = []
retire t (x ∷ xs) = if leb x t then retire t xs else x ∷ xs

abbrev pub is_queued : ℕ → List QueuedWrite → Bool
is_queued addr [] = false
is_queued addr (q ∷ qs) = (q.addr == addr) || is_queued addr qs

module _ {E : Type 0} (m : Memory E) where
  -- The oldest write is the first; on an empty queue nothing is sent.
  abbrev pub issue : ℕ → List QueuedWrite → Queue E → Queue E
  issue t [] q = q
  issue t (w ∷ ws) q =
      let sent : E × ℕ = m.burst (max t w.arrive) w.addr true q.engine in
      record q { engine = sent.0; wq = ws; leaving = q.leaving ++ sent.1 ∷ [] }

  abbrev pub issue_oldest : ℕ → Queue E → Queue E
  issue_oldest t q = issue t q.wq q

  -- The loop of `drain_idle` over the queue, of which each round sends the first.
  unfoldable pub drain : ℕ → List QueuedWrite → Queue E → Queue E
  drain t [] q = q
  drain t (w ∷ ws) q =
      let start = max w.arrive (m.order w.addr q.engine) in
      let refreshed = record q { engine = m.refresh start w.addr q.engine } in
      let rest = drain t ws (issue_oldest start refreshed) in
      if leb t start
      then q
      else if leb t (m.column start w.addr refreshed.engine)
      then refreshed
      else rest

  abbrev pub drain_idle : ℕ → Queue E → Queue E
  drain_idle t q = drain t q.wq q

  -- The oldest write on its way out leaves.
  abbrev pub leave : ℕ → List ℕ → Queue E → ℕ × Queue E
  leave t [] q = (t, q)
  leave t (x ∷ xs) q = (max t x, record q { leaving = xs })

  abbrev pub issue_first : ℕ → List ℕ → Queue E → Queue E
  issue_first t [] q = issue_oldest t q
  issue_first t (x ∷ xs) q = q

  abbrev pub let_leave : ℕ → Queue E → ℕ × Queue E
  let_leave t q = let q₁ = issue_first t q.leaving q in leave t q₁.leaving q₁

  -- The loop that waits for a place; each round frees one.
  unfoldable pub make_room : ℕ → ℕ → ℕ × Queue E → ℕ × Queue E
  make_room depth zero s = s
  make_room depth (suc fuel) s =
      let rest = make_room depth fuel (let_leave s.0 s.1) in
      if leb depth (length s.1.wq + length s.1.leaving) then rest else s

  -- The batch that goes when the queue is past its high mark.
  unfoldable pub batch : ℕ → ℕ → ℕ → Queue E → Queue E
  batch low t zero q = q
  batch low t (suc fuel) q =
      let rest = batch low t fuel (issue_oldest t q) in if leb low (length q.wq) then rest else q

  -- A write that is not in the queue yet, and the time when it is accepted.
  unfoldable pub accept_write : Limits → ℕ → ℕ → Queue E → Queue E × ℕ
  unfolding make_room batch
  accept_write l arrive addr q =
      let q₁ = record q { leaving = retire arrive q.leaving } in
      let (t, q₂) = make_room l.wq_depth (length q₁.wq + length q₁.leaving) (arrive, q₁) in
      let q₃ = record q₂ { wq = q₂.wq ++ record { arrive = t; addr = addr } ∷ [] } in
      (if leb (length q₃.wq) l.wq_high then q₃ else batch l.wq_low t (length q₃.wq) q₃, t)

  -- The new queue, and the end of the access.
  unfoldable pub queued : Limits → ℕ → ℕ → Bool → Queue E → Queue E × ℕ
  unfolding drain accept_write
  queued l arrive addr w q =
      let d = drain_idle arrive q in
      let read : E × ℕ = m.burst arrive addr false d.engine in
      let forwarded : Queue E × ℕ =
        (record d { forwarded = add64 d.forwarded 1 }, arrive + l.t_ck) in
      let merged : Queue E × ℕ = (record d { merged = add64 d.merged 1 }, arrive) in
      let done : Queue E × ℕ = (record d { engine = read.0 }, read.1) in
      let taken = accept_write l arrive addr d in
      if is_queued addr d.wq then (if w then merged else forwarded) else if w then taken else done
