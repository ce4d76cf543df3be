-- ===== src/Job/Mfcc.antt =====
-- The argument slots of Mfcc_fp32_fp32, runtime/mesh/hes_job.h.
use k9r.Base.{ℕ}

abbrev pub audio : ℕ
audio = 0

abbrev pub out : ℕ
out = 1

abbrev pub nb_frames : ℕ
nb_frames = 2

abbrev pub frame_len : ℕ
frame_len = 3

abbrev pub hop : ℕ
hop = 4

abbrev pub fft_len : ℕ
fft_len = 5

abbrev pub window : ℕ
window = 6

abbrev pub twiddles : ℕ
twiddles = 7

abbrev pub mel_coeff : ℕ
mel_coeff = 8

abbrev pub mel_start : ℕ
mel_start = 9

abbrev pub mel_len : ℕ
mel_len = 10

abbrev pub nb_mel : ℕ
nb_mel = 11

abbrev pub dct : ℕ
dct = 12

abbrev pub nb_cep : ℕ
nb_cep = 13

abbrev pub mel_coeffs : ℕ
mel_coeffs = 14

abbrev pub nargs : ℕ
nargs = 15
