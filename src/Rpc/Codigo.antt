-- ===== src/Rpc/Codigo.antt =====
-- LAB07-SD/backup/server_cent_xdr.c: the filters of the messages. One filter writes or reads,
-- depending on the stream. `xdr_long` is the RPC library's: a parameter that gives the stream after
-- the call and the object, or `none` where it answers FALSE.
pub mod Ida
use unifesp_sd.Base.{Option, some, ◌>>=◌}
use unifesp_sd.Base.Int.{ℤ}
use unifesp_sd.Rpc.Mensagem.{RequestIn, Release, ReplyOut}

module _ {X : Type 0} (xdr_long : X → ℤ → Option (X × ℤ)) where
  unfoldable pub xdr_request_in : X → RequestIn → Option (X × RequestIn)
  xdr_request_in xdrs objp = do
    (xdrs, pid_c) ← xdr_long xdrs objp.pid_c
    (xdrs, tempo_c) ← xdr_long xdrs objp.tempo_c
    some (xdrs, record { pid_c = pid_c; tempo_c = tempo_c })

  unfoldable pub xdr_release : X → Release → Option (X × Release)
  xdr_release xdrs objp = do
    (xdrs, pid_c) ← xdr_long xdrs objp.pid_c
    (xdrs, tempo_c) ← xdr_long xdrs objp.tempo_c
    (xdrs, recurso_n) ← xdr_long xdrs objp.recurso_n
    some (xdrs, record { pid_c = pid_c; tempo_c = tempo_c; recurso_n = recurso_n })

  unfoldable pub xdr_reply_out : X → ReplyOut → Option (X × ReplyOut)
  xdr_reply_out xdrs objp = do
    (xdrs, pid_c) ← xdr_long xdrs objp.pid_c
    (xdrs, tempo_s) ← xdr_long xdrs objp.tempo_s
    (xdrs, recurso) ← xdr_long xdrs objp.recurso
    some (xdrs, record { pid_c = pid_c; tempo_s = tempo_s; recurso = recurso })
