-- ===== src/X86.antt =====
-- src/lib16/x86.h: the registers that the server exchanges with interrupt handlers.
use rmtdos.Base.{ℕ, ◌/◌, ◌%◌, Bool, ◌==◌}

-- `struct CpuRegs`: the byte registers are the halves of the words.
pub record CpuRegs : Type 0 where
  pub ax : ℕ
  pub bx : ℕ
  pub cx : ℕ
  pub dx : ℕ
  pub si : ℕ
  pub di : ℕ
  pub sp : ℕ
  pub bp : ℕ
  pub flags : ℕ
  pub cs : ℕ
  pub ds : ℕ
  pub es : ℕ
  pub ss : ℕ

-- The byte registers of the union.
abbrev pub high : ℕ → ℕ
high w = w / 256 % 256

abbrev pub low : ℕ → ℕ
low w = w % 256

-- regs.flags & CPU_FLAG_CARRY
abbrev pub carry : CpuRegs → Bool
carry r = r.flags % 2 == 1

-- x86_reset_regs: all segment registers of a COM program hold its one segment.
abbrev pub x86_reset_regs : ℕ → CpuRegs
x86_reset_regs segment = record {
  ax = 0;
  bx = 0;
  cx = 0;
  dx = 0;
  si = 0;
  di = 0;
  sp = 0;
  bp = 0;
  flags = 0;
  cs = segment;
  ds = segment;
  es = segment;
  ss = segment;
}
