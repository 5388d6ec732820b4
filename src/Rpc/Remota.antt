-- ===== src/Rpc/Remota.antt =====
-- Calls to the token server over the network: `server_cent_1` of server_cent_svc.c on the streams of
-- a call, and the stubs of server_cent_clnt.c. rpcgen wrote the same text into LAB07-SD/backup and
-- LAB07-SD/backup2-sem-M. The procedures are those of Rpc.Servidor, and the client is that of
-- Rpc.Cliente, whose loop is run here on its calls.
pub mod Rodada
pub mod Parada
pub mod Dobra
pub mod Encontro
mod Exemplos
use unifesp_sd.Base.{ℕ, zero, suc, Option, none, some, List, [], ◌∷◌, ◌==◌, if◌then◌else◌}
use unifesp_sd.Base.Int.{ℤ, pos, negsuc}
use unifesp_sd.Rpc.Mensagem.{RequestIn, Release, ReplyOut}
use unifesp_sd.Rpc.Servidor.{Servidor, Chamada, req_1_svc, rel_1_svc}
use unifesp_sd.Rpc.Servidor
use unifesp_sd.Rpc.Cliente.{Cliente, pede, usa, Saida, retorna_com, continua}
use unifesp_sd.Rpc.Codigo.{xdr_request_in, xdr_release, xdr_reply_out}
use unifesp_sd.Rpcgen.{Filtro, Xdr, Svc, vazio, noproc}
use unifesp_sd.Rpcgen.Ponteiro.{
  Execucao, retorna, presa, falha, Desfecho, volta, atende, Clnt, chama,
}

-- The procedures return a pointer that is never NULL.
unfoldable pub de_chamada : {A : Type 0} → Chamada A → Execucao Servidor A
de_chamada (Servidor.retorna s r) = retorna s (some r)
de_chamada (Servidor.presa s) = presa s
de_chamada Servidor.falha = falha

-- With turns for the loop.
abbrev pub executa_req : ℕ → RequestIn → Servidor → Execucao Servidor ReplyOut
executa_req k req s = de_chamada (req_1_svc k s req)

abbrev pub executa_rel : Release → Servidor → Execucao Servidor ℤ
executa_rel rel s = let (s', r) = rel_1_svc s rel in retorna s' (some r)

abbrev pub req_zerado : RequestIn
req_zerado = record { pid_c = pos 0; tempo_c = pos 0 }

abbrev pub rel_zerado : Release
rel_zerado = record { pid_c = pos 0; tempo_c = pos 0; recurso_n = pos 0 }

abbrev pub reply_zerado : ReplyOut
reply_zerado = record { pid_c = pos 0; tempo_s = pos 0; recurso = pos 0 }

module _ {X : Type 0} (xdr : Xdr X) where
  unfoldable pub server_cent_1 : ℕ → Svc X → ℕ → Servidor → Desfecho Servidor X
  server_cent_1 k svc rq_proc s =
      if rq_proc == 0
      then volta s (vazio ∷ [])
      else (if rq_proc == 1
          then atende svc (xdr_request_in xdr.xdr_long) (xdr_reply_out xdr.xdr_long) (executa_req k)
              req_zerado s
          else (if rq_proc == 2
              then atende svc (xdr_release xdr.xdr_long) xdr.xdr_int executa_rel rel_zerado s
              else volta s (noproc ∷ [])))

  module _ {W : Type 0} (clnt : Clnt W X) where
    unfoldable pub req_1 : W → RequestIn → W × Option ReplyOut
    req_1 w argp =
        chama clnt w 1 (xdr_request_in xdr.xdr_long) (xdr_reply_out xdr.xdr_long) reply_zerado argp

    unfoldable pub rel_1 : W → Release → W × Option ℤ
    rel_1 w argp = chama clnt w 2 (xdr_release xdr.xdr_long) xdr.xdr_int (pos 0) argp

    -- The loop of `main` from the answer to the release on.
    unfoldable pub devolve : Cliente → W × Option ℤ → W × Saida
    devolve c (w, none) = (w, retorna_com (negsuc 0))
    devolve c (w, some r) = (w, continua c)

    -- From the answer to the request on.
    unfoldable pub processa : Cliente → W × Option ReplyOut → W × Saida
    processa c (w, none) = (w, retorna_com (negsuc 0))
    processa c (w, some rep) = let (c', rel) = usa c rep in devolve c' (rel_1 w rel)

    -- One turn of the loop.
    unfoldable pub rodada : W → Cliente → W × Saida
    rodada w c = let (c', req) = pede c in processa c' (req_1 w req)

    -- From the end of a turn, with what the turns after it are: `return` ends them.
    abbrev pub segue : (W → Cliente → W × Saida) → W × Saida → W × Saida
    segue laco (w, retorna_com z) = (w, retorna_com z)
    segue laco (w, continua c) = laco w c

    -- The loop, for a number of turns.
    unfoldable pub rodadas : ℕ → W → Cliente → W × Saida
    unfolding rodada
    rodadas zero w c = (w, continua c)
    rodadas (suc n) w c = segue (rodadas n) (rodada w c)
