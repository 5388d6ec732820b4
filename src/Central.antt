-- ===== src/Central.antt =====
-- What rpcgen made of LAB07-SD/server_cent.x, where the token is asked for and given by two
-- procedures: the messages and declarations of server_cent.h, the filters of server_cent_xdr.c,
-- `server_cent_1` of server_cent_svc.c and the stubs of server_cent_clnt.c. The procedures are a
-- parameter: those of servidor.c, a file that does not compile, are not modelled.
pub mod Chamadas
mod Exemplos
use unifesp_sd.Base.{ℕ, Option, some, List, [], ◌∷◌, ◌==◌, if◌then◌else◌, ◌>>=◌}
use unifesp_sd.Base.Int.{ℤ, pos}
use unifesp_sd.Rpcgen.{Filtro, Svc, vazio, noproc}
use unifesp_sd.Rpcgen.Ponteiro.{Execucao, Desfecho, volta, atende, Clnt, chama}

-- All fields are `long`.
pub record Request : Type 0 where
  pub pid_c : ℤ
  pub tempo_c : ℤ

pub record Release : Type 0 where
  pub pid_c : ℤ
  pub tempo_c : ℤ
  pub recurso_n : ℤ

pub record Reply : Type 0 where
  pub pid_c : ℤ
  pub tempo_s : ℤ
  pub recurso : ℤ

-- The procedures of a server with the state `W`.
pub record Procedimentos (W : Type 0) : Type 0 where
  pub req_1_svc : Request → W → Execucao W Request
  pub rep_1_svc : Request → W → Execucao W Reply
  pub rel_1_svc : Release → W → Execucao W Request

abbrev pub request_zerado : Request
request_zerado = record { pid_c = pos 0; tempo_c = pos 0 }

abbrev pub release_zerado : Release
release_zerado = record { pid_c = pos 0; tempo_c = pos 0; recurso_n = pos 0 }

abbrev pub reply_zerado : Reply
reply_zerado = record { pid_c = pos 0; tempo_s = pos 0; recurso = pos 0 }

module _ {X : Type 0} (xdr_long : Filtro X ℤ) where
  unfoldable pub xdr_request : Filtro X Request
  xdr_request xdrs objp = do
    (xdrs, pid_c) ← xdr_long xdrs objp.pid_c
    (xdrs, tempo_c) ← xdr_long xdrs objp.tempo_c
    some (xdrs, record { pid_c = pid_c; tempo_c = tempo_c })

  unfoldable pub xdr_release : Filtro X Release
  xdr_release xdrs objp = do
    (xdrs, pid_c) ← xdr_long xdrs objp.pid_c
    (xdrs, tempo_c) ← xdr_long xdrs objp.tempo_c
    (xdrs, recurso_n) ← xdr_long xdrs objp.recurso_n
    some (xdrs, record { pid_c = pid_c; tempo_c = tempo_c; recurso_n = recurso_n })

  unfoldable pub xdr_reply : Filtro X Reply
  xdr_reply xdrs objp = do
    (xdrs, pid_c) ← xdr_long xdrs objp.pid_c
    (xdrs, tempo_s) ← xdr_long xdrs objp.tempo_s
    (xdrs, recurso) ← xdr_long xdrs objp.recurso
    some (xdrs, record { pid_c = pid_c; tempo_s = tempo_s; recurso = recurso })

  unfoldable pub server_cent_1 : {W : Type 0} → Procedimentos W → Svc X → ℕ → W → Desfecho W X
  server_cent_1 p svc rq_proc w =
      if rq_proc == 0
      then volta w (vazio ∷ [])
      else (if rq_proc == 1
          then atende svc xdr_request xdr_request p.req_1_svc request_zerado w
          else (if rq_proc == 2
              then atende svc xdr_request xdr_reply p.rep_1_svc request_zerado w
              else (if rq_proc == 3
                  then atende svc xdr_release xdr_request p.rel_1_svc release_zerado w
                  else volta w (noproc ∷ []))))

  module _ {W : Type 0} (clnt : Clnt W X) where
    unfoldable pub req_1 : W → Request → W × Option Request
    req_1 w argp = chama clnt w 1 xdr_request xdr_request request_zerado argp

    unfoldable pub rep_1 : W → Request → W × Option Reply
    rep_1 w argp = chama clnt w 2 xdr_request xdr_reply reply_zerado argp

    unfoldable pub rel_1 : W → Release → W × Option Request
    rel_1 w argp = chama clnt w 3 xdr_release xdr_request request_zerado argp
