-- ===== src/Rpc/Mensagem.antt =====
-- The messages of LAB07-SD/backup/server_cent.h. All fields are `long`.
use unifesp_sd.Base.Int.{ℤ}

pub record RequestIn : Type 0 where
  pub pid_c : ℤ
  pub tempo_c : ℤ

pub record Release : Type 0 where
  pub pid_c : ℤ
  pub tempo_c : ℤ
  pub recurso_n : ℤ

pub record ReplyOut : Type 0 where
  pub pid_c : ℤ
  pub tempo_s : ℤ
  pub recurso : ℤ
