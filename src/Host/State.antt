-- ===== src/Host/State.antt =====
-- What the host runtime keeps, and what it prints. The globals of runtime/mesh/hes_host.c are the
-- fields of `Host`, beside the mailboxes and peripherals that it writes.
use Prim.Native.String.{String}
use k9r.Base.{ℕ, Array, List}
use k9r.Job.{Mailbox}

-- A line of console output, by the values that it prints.
pub data Line : Type 0 where
  busy : (name : String) → Line
  waiting : (name : String) (job kernel polls : ℕ) → Line
  gave_up : (name : String) (job : ℕ) → Line
  failed : (what name : String) (error : ℕ) → Line
  absent : (name : String) → Line
  disagrees : (image got expected : ℕ) → Line
  score : (images correct agree cycles_total cycles_per_image failures : ℕ) → Line
  kws_score :
      (clips correct agree maxdiff_e6 cycles_total cycles_per_clip frontend_engine frontend_busy
        frontend_wait hidden snitch_busy spatz_busy pipelined failures : ℕ)
      → Line
  progress : (sample total node : ℕ) (op : String) (engine cycles : ℕ) → Line

-- A store to a peripheral register.
pub record Store : Type 0 where
  pub addr : ℕ
  pub value : ℕ

-- The mailboxes stand under their engine's id; `log` and `stores` hold the newest entry first.
pub record Host : Type 0 where
  pub mbox : Array Mailbox
  pub stores : List Store
  pub log : List Line
  pub next_seq : Array ℕ
  pub in_flight : Array ℕ
  pub busy_cycles : Array ℕ
  pub failure_count : ℕ
  pub sample_idx : ℕ
  pub sample_total : ℕ

-- `hes_result_t`
pub record Result : Type 0 where
  pub cycles : ℕ
  pub nb_cores : ℕ
  pub staged : ℕ
  pub ok : ℕ
  pub error : ℕ

abbrev pub no_result : Result
no_result = record { cycles = 0; nb_cores = 0; staged = 0; ok = 0; error = 0 }
