-- ===== src/Dma.antt =====
-- The cluster iDMA as runtime/mesh/hes_dma.h drives it: the registers that the Xdma instructions
-- set, and the transfers enqueued so far, oldest first. What a transfer does to memory is the
-- device's; the identifiers that it hands back are read by nobody.
use k9r.Base.{ℕ, ◌/◌, ◌%◌, List, [], ◌∷◌, ◌++◌, ◌==◌, if◌then◌else◌}

pub data Transfer : Type 0 where
  linear : (dst src size : ℕ) → Transfer
  strided : (dst src size dst_stride src_stride reps : ℕ) → Transfer

pub record Dma : Type 0 where
  pub src : ℕ
  pub dst : ℕ
  pub src_stride : ℕ
  pub dst_stride : ℕ
  pub reps : ℕ
  pub issued : List Transfer

abbrev pub cfg_1d : ℕ
cfg_1d = 0

abbrev pub cfg_2d : ℕ
cfg_2d = 2

unfoldable pub set_src : ℕ → Dma → Dma
set_src addr d = record d { src = addr }

unfoldable pub set_dst : ℕ → Dma → Dma
set_dst addr d = record d { dst = addr }

unfoldable pub set_stride : ℕ → ℕ → Dma → Dma
set_stride src_stride dst_stride d = record d { src_stride = src_stride; dst_stride = dst_stride }

unfoldable pub set_rep : ℕ → Dma → Dma
set_rep reps d = record d { reps = reps }

-- Bit 1 of `config` selects a 2D transfer.
unfoldable pub start : ℕ → ℕ → Dma → Dma
start size config d = record d {
  issued =
      d.issued
      ++ (if config / 2 % 2 == 0
          then linear d.dst d.src size
          else strided d.dst d.src size d.dst_stride d.src_stride d.reps)
        ∷ [];
}

unfoldable pub copy : ℕ → ℕ → ℕ → Dma → Dma
unfolding set_src set_dst start
copy dst src size d = start size cfg_1d (set_dst dst (set_src src d))

unfoldable pub copy_2d : ℕ → ℕ → ℕ → ℕ → ℕ → ℕ → Dma → Dma
unfolding set_src set_dst set_stride set_rep start
copy_2d dst src size dst_stride src_stride reps d =
    start size cfg_2d
      (set_rep reps (set_stride src_stride dst_stride (set_dst dst (set_src src d))))
