-- ===== src/Host/Engines.antt =====
-- The engine table of runtime/mesh/hes_host.c and the questions asked of it.
use Prim.Native.String.{String}
use k9r.Base.{ℕ, zero, suc, ◌+◌, Bool, false, ◌||◌, ◌==◌, ltb, leb, if◌then◌else◌, update}
use k9r.Machine.{Config, snitch, spatz}
use k9r.Job.{mbox_magic}
use k9r.Host.State.{Host}

abbrev pub engine_cva6 : ℕ
engine_cva6 = 0

abbrev pub engine_snitch : ℕ
engine_snitch = 1

abbrev pub engine_spatz : ℕ
engine_spatz = 2

abbrev pub nb_engines : ℕ
nb_engines = 3

-- `engine_t`
pub record Engine : Type 0 where
  pub name : String
  pub tcdm : ℕ
  pub periph : ℕ
  pub clint_set : ℕ
  pub ctrl_core : ℕ
  pub requires_staging : Bool

abbrev cluster_engine : String → Config → Engine
cluster_engine name c = record {
  name = name;
  tcdm = c.tcdm;
  periph = c.periph;
  clint_set = c.cl_clint_set;
  ctrl_core = c.ctrl_core;
  requires_staging = c.requires_staging;
}

-- The table; it has no entry past `engine_spatz`, and no caller asks for one.
abbrev pub engines : ℕ → Engine
engines zero = record {
  name = "cva6";
  tcdm = 0;
  periph = 0;
  clint_set = 0;
  ctrl_core = 0;
  requires_staging = false;
}
engines (suc zero) = cluster_engine "snitch" snitch
engines (suc (suc n)) = cluster_engine "spatz" spatz

pub engine_requires_staging : ℕ → Bool
engine_requires_staging engine =
    if ltb engine nb_engines then (engines engine).requires_staging else false

unfoldable pub engine_name : ℕ → String
engine_name engine = if ltb engine nb_engines then (engines engine).name else "?"

-- `engine == HES_ENGINE_CVA6 || engine >= HES_NB_ENGINES`
abbrev pub is_no_cluster : ℕ → Bool
is_no_cluster engine = engine == engine_cva6 || leb nb_engines engine

unfoldable pub engine_ready : ℕ → Host → Bool
engine_ready engine h = if is_no_cluster engine then false else (h.mbox engine).magic == mbox_magic

unfoldable pub engine_busy : ℕ → Host → ℕ
engine_busy engine h = if ltb engine nb_engines then h.busy_cycles engine else 0

unfoldable pub engine_in_flight : ℕ → Host → ℕ
engine_in_flight engine h = if ltb engine nb_engines then h.in_flight engine else 0

-- The spin on one engine in `hes_engine_init`: how many of the `rounds` are spent before
-- `ready i`, the answer of the poll `i`, is true.
pub spin : ℕ → ℕ → (ℕ → Bool) → ℕ
spin zero i ready = i
spin (suc rounds) i ready = let rest = spin rounds (i + 1) ready in if ready i then i else rest

-- `next_seq` takes up the job number of each cluster, whatever the spin ended with.
unfoldable pub engine_init : Host → Host
engine_init h =
    let snitch_seq = update h.next_seq engine_snitch (h.mbox engine_snitch).done_seq in
    record h { next_seq = update snitch_seq engine_spatz (h.mbox engine_spatz).done_seq }
