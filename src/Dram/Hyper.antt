-- ===== src/Dram/Hyper.antt =====
-- `access_hyperram` of targets/hetero/dram_core.hpp: a transfer in chunks that keep CS# low for a
-- bounded time. `start` is when the bus takes it.
pub mod Chunks
use k9r.Base.{
  ℕ, zero, suc, ◌+◌, ◌-◌, ◌*◌, ◌/◌, ◌^◌, bit_or, bit_and, add64, max, min, List, [], ◌∷◌, Bool,
  true, false, if◌then◌else◌, ◌==◌, ltb,
}
use k9r.Dram.{Params}

abbrev pub bytes_per_clk : Params → ℕ
bytes_per_clk p = 2 * p.hb_bus_bytes

abbrev pub overhead : Params → ℕ
overhead p = p.hb_ca_clks + p.hb_lat_clks * (if p.hb_fixed_2x == 0 then 1 else 2)

-- The largest transfer for tCSM; one clock's bytes if the overhead alone takes longer, where `-` on
-- ℕ is 0.
abbrev pub max_chunk : Params → ℕ
max_chunk p = max (bytes_per_clk p) ((p.hb_csm_ps / p.hb_ck_ps - overhead p) * bytes_per_clk p)

abbrev pub data_clks : Params → ℕ → ℕ
data_clks p chunk = (chunk + bytes_per_clk p - 1) / bytes_per_clk p

-- How long CS# is low for a chunk.
abbrev pub low_ps : Params → ℕ → ℕ
low_ps p chunk = (overhead p + data_clks p chunk) * p.hb_ck_ps

-- The state: the time that the bus is free, and the counts of bursts and of busy time.
pub record HyperBus : Type 0 where
  pub hb_free : ℕ
  pub bursts : ℕ
  pub busy_ps : ℕ

-- The bytes of each round of the loop, while `bytes` are left; a round takes one byte at least.
unfoldable pub chunks : Params → ℕ → ℕ → List ℕ
chunks p zero bytes = []
chunks p (suc fuel) bytes =
    let rest = chunks p fuel (bytes - min bytes (max_chunk p)) in
    if ltb 0 bytes then min bytes (max_chunk p) ∷ rest else []

-- The rounds: the end of the last one, and the state.
abbrev pub transfer : Params → List ℕ → ℕ → ℕ → HyperBus → ℕ × HyperBus
transfer p [] t end b = (end, b)
transfer p (chunk ∷ rest) t end b =
    let here = t + low_ps p chunk in
    transfer p rest (here + p.hb_rwr_ps) here
      (record b { bursts = add64 b.bursts 1; busy_ps = b.busy_ps + data_clks p chunk * p.hb_ck_ps })

-- The bytes from `first` to `last`: the masks are those of a granule that is a power of two, of 64
-- bits, and the end of the access is below 2 ^ 64.
abbrev pub wide_bytes : Params → ℕ → ℕ → ℕ
wide_bytes p addr size =
    bit_or (addr + size - 1) (p.granule - 1) - bit_and addr (2 ^ 64 - p.granule) + 1

unfoldable pub access_hyperram : Params → ℕ → ℕ → ℕ → HyperBus → HyperBus × ℕ
unfolding chunks
access_hyperram p now addr size b =
    let bytes = wide_bytes p addr size in
    let t = max (now + p.ctrl_ps / 2) b.hb_free in
    let r = transfer p (chunks p bytes bytes) t t b in
    (record r.1 { hb_free = r.0 + p.hb_rwr_ps }, r.0 + (p.ctrl_ps - p.ctrl_ps / 2))
