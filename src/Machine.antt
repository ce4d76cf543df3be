-- ===== src/Machine.antt =====
-- The board as the runtime sees it: runtime/mesh/hes_system.h (generated numbers) and
-- runtime/mesh/hes_cluster.h (which cluster a build is for, and what its cores can ask).
-- `mhartid` is an argument of the functions that read it.
pub mod Cores
mod Tests
use k9r.Base.{ℕ, ◌+◌, Bool, true, false, ◌==◌, ltb, if◌then◌else◌, not, sub32, ◌^◌}

-- The numbers behind the HES_MY_* macros of one cluster.
pub record Config : Type 0 where
  pub base : ℕ
  pub tcdm : ℕ
  pub periph : ℕ
  pub nb_core : ℕ
  pub dma_core : ℕ
  pub ctrl_core : ℕ
  pub nb_compute : ℕ
  pub requires_staging : Bool
  pub first_hartid : ℕ
  pub cl_clint_set : ℕ
  pub cl_clint_clear : ℕ
  pub load_scratch : ℕ
  pub load_scratch_size : ℕ

abbrev pub snitch : Config
snitch = record {
  base = 0x10000000;
  tcdm = 0x10000000;
  periph = 0x10020000;
  nb_core = 9;
  dma_core = 8;
  ctrl_core = 8;
  nb_compute = 8;
  requires_staging = false;
  first_hartid = 0;
  cl_clint_set = 0x180;
  cl_clint_clear = 0x188;
  load_scratch = 0x86000000;
  load_scratch_size = 0x02000000;
}

abbrev pub spatz : Config
spatz = record {
  base = 0x00100000;
  tcdm = 0x00100000;
  periph = 0x00120000;
  nb_core = 9;
  dma_core = 0;
  ctrl_core = 0;
  nb_compute = 8;
  requires_staging = true;
  first_hartid = 9;
  cl_clint_set = 0x030;
  cl_clint_clear = 0x038;
  load_scratch = 0x8a000000;
  load_scratch_size = 0x02000000;
}

abbrev pub tcdm_size : ℕ
tcdm_size = 0x00020000

abbrev pub mailbox_max_args : ℕ
mailbox_max_args = 16

-- `hes_core_idx`, from the hart id.
abbrev pub core_idx : Config → ℕ → ℕ
core_idx c hartid = sub32 hartid c.first_hartid

abbrev is_ctrl_core : Config → ℕ → Bool
is_ctrl_core c hartid = core_idx c hartid == c.ctrl_core

abbrev is_dma_core : Config → ℕ → Bool
is_dma_core c hartid = core_idx c hartid == c.dma_core

pub is_compute_core : Config → ℕ → Bool
is_compute_core c hartid = not (core_idx c hartid == c.dma_core)

pub compute_idx : Config → ℕ → ℕ
compute_idx c hartid =
    let core = core_idx c hartid in if ltb c.dma_core core then sub32 core 1 else core
