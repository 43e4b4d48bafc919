-- ===== src/Hdu/Reopen.antt =====
-- src/dada_hdu.c: the header of a unit that is unlocked and opened again.
use mirror_psrdada_code.Hdu.{Hdu}
use mirror_psrdada_code.Kernel.{Kernel}
