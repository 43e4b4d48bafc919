-- ===== src/PwcMain/Block/Transit.antt =====
-- src/dada_pwc_main.c: when `dada_pwc_main_transfer_data_block` changes the state.
use mirror_psrdada_code.Kernel.{Kernel}
use mirror_psrdada_code.PwcMain.Course.Aim.{Aim}
