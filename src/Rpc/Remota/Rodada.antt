-- ===== src/Rpc/Remota/Rodada.antt =====
-- A round of the client over the network is a round of Rpc.Ciclo.
use unifesp_sd.Base.{ℕ, suc, ◌≡◌, refl, ap, none, some, List}
use unifesp_sd.Base.Int.{pos, negsuc, ◌+ℤ◌, i64}
use unifesp_sd.Rpc.Mensagem.{RequestIn, Release, ReplyOut}
use unifesp_sd.Rpc.Servidor.{Servidor, Chamada, retorna, presa, req_1_svc, rel_1_svc}
use unifesp_sd.Rpc.Servidor.Invariante.{
  IsServidor, Atendida, atendida, esperando, req_1_svc-Atendida,
}
use unifesp_sd.Rpc.Cliente.{Cliente, pede, usa, Saida, retorna_com, continua}
use unifesp_sd.Rpc.Ciclo.{ciclo, conclui_ciclo}
use unifesp_sd.Rpc.Codigo.{xdr_request_in, xdr_release, xdr_reply_out}
use unifesp_sd.Rpc.Codigo.Ida.{
  CabeRequest, CabeRelease, CabeReply, xdr_request_in-Volta, xdr_release-Volta, xdr_reply_out-Volta,
}
use unifesp_sd.Rpcgen.{Xdr}
use unifesp_sd.Rpcgen.Bytes.{Leis, prim-Volta}
use unifesp_sd.Rpcgen.Ponteiro.{Clnt}
use unifesp_sd.Rpcgen.Rede.{
  Processo, ouvindo, preso, Rede, remota-retorna, remota-presa, remota-ocupada,
}
use unifesp_sd.Rpc.Remota.{
  de_chamada, executa_req, executa_rel, req_zerado, rel_zerado, reply_zerado, server_cent_1, req_1,
  rel_1, devolve, processa, rodada,
}

-- The reply that a request is given.
abbrev pub resposta_a : Servidor → RequestIn → ReplyOut
resposta_a s req = record { pid_c = req.pid_c; tempo_s = i64 (s.tempo +ℤ pos 1); recurso = s.token }

module _ {X : Type 0} {escrita leitura : List ℕ → X} (xdr : Xdr X)
    (L : Leis escrita leitura xdr.xdr_long) (I : Leis escrita leitura xdr.xdr_int) where
  -- The numbers of a round are such that the formats hold: those of the request, the reply and the
  -- release, and the result of the release, 1.
  abbrev pub CabeRodada : Servidor → Cliente → Type 0
  CabeRodada s c =
      let (c', req) = pede c in
      let rep = resposta_a s req in
      CabeRequest escrita leitura xdr.xdr_long L req
      × CabeReply escrita leitura xdr.xdr_long L rep
      × CabeRelease escrita leitura xdr.xdr_long L (usa c' rep).1
      × I.Cabe (pos 1)

  module _ (k : ℕ) {clnt : Clnt (Processo Servidor) X}
      (rede : Rede escrita leitura (server_cent_1 xdr k) clnt) where
    pub req_1-retorna :
        (s s' : Servidor) (req : RequestIn) (rep : ReplyOut)
        → CabeRequest escrita leitura xdr.xdr_long L req
        → CabeReply escrita leitura xdr.xdr_long L rep
        → req_1_svc k s req ≡ retorna s' rep
        → req_1 xdr clnt (ouvindo s) req ≡ (ouvindo s', some rep)
    unfolding req_1 server_cent_1 de_chamada
    req_1-retorna s s' req rep a b e =
        remota-retorna rede 1 (xdr_request_in xdr.xdr_long) (xdr_reply_out xdr.xdr_long)
          (executa_req k) req_zerado (λ svc w. refl) req reply_zerado rep s s'
          (xdr_request_in-Volta escrita leitura xdr.xdr_long L req a)
          (xdr_reply_out-Volta escrita leitura xdr.xdr_long L rep b) (ap de_chamada e)

    pub req_1-presa :
        (s s' : Servidor) (req : RequestIn)
        → CabeRequest escrita leitura xdr.xdr_long L req
        → req_1_svc k s req ≡ presa s'
        → req_1 xdr clnt (ouvindo s) req ≡ (preso s', none)
    unfolding req_1 server_cent_1 de_chamada
    req_1-presa s s' req a e =
        remota-presa rede 1 (xdr_request_in xdr.xdr_long) (xdr_reply_out xdr.xdr_long)
          (executa_req k) req_zerado (λ svc w. refl) req reply_zerado s s'
          (xdr_request_in-Volta escrita leitura xdr.xdr_long L req a) (ap de_chamada e)

    pub rel_1-retorna :
        (s : Servidor) (rel : Release)
        → CabeRelease escrita leitura xdr.xdr_long L rel
        → I.Cabe (pos 1)
        → rel_1 xdr clnt (ouvindo s) rel ≡ (ouvindo (rel_1_svc s rel).0, some (pos 1))
    unfolding rel_1 server_cent_1 rel_1_svc
    rel_1-retorna s rel a b =
        remota-retorna rede 2 (xdr_release xdr.xdr_long) xdr.xdr_int executa_rel rel_zerado
          (λ svc w. refl) rel (pos 0) (pos 1) s (rel_1_svc s rel).0
          (xdr_release-Volta escrita leitura xdr.xdr_long L rel a)
          (prim-Volta escrita leitura I (pos 1) b) refl

    -- No call reaches a process that never comes out of one.
    pub preso-nada :
        (s : Servidor) (req : RequestIn) (rel : Release)
        → (req_1 xdr clnt (preso s) req ≡ (preso s, none))
          × (rel_1 xdr clnt (preso s) rel ≡ (preso s, none))
    unfolding req_1 rel_1 server_cent_1
    preso-nada s req rel = (
      remota-ocupada rede 1 (xdr_request_in xdr.xdr_long) (xdr_reply_out xdr.xdr_long)
          (executa_req k) req_zerado (λ svc w. refl) req reply_zerado s,
      remota-ocupada rede 2 (xdr_release xdr.xdr_long) xdr.xdr_int executa_rel rel_zerado
          (λ svc w. refl) rel (pos 0) s,
    )

-- What a round over the network comes to: the state and the client after the round of Rpc.Ciclo; or,
-- where that round is never answered, a server that is stuck and a client that returns -1.
pub data Rodou (k : ℕ) (s : Servidor) (c : Cliente) : Processo Servidor × Saida → Type 0 where
  completa :
      (s' : Servidor) (c' : Cliente)
      → ciclo k (s, c) ≡ some (s', c')
      → Rodou k s c (ouvindo s', continua c')
  bloqueada :
      (s' : Servidor) → ciclo k (s, c) ≡ none → Rodou k s c (preso s', retorna_com (negsuc 0))

module _ {X : Type 0} {escrita leitura : List ℕ → X} (xdr : Xdr X)
    (L : Leis escrita leitura xdr.xdr_long) (I : Leis escrita leitura xdr.xdr_int) (k : ℕ)
    {clnt : Clnt (Processo Servidor) X}
    (rede : Rede escrita leitura (server_cent_1 xdr (suc k)) clnt) where
  rodada-Atendida :
      (s : Servidor) (c : Cliente) (r : Chamada ReplyOut)
      → CabeRodada xdr L I s c
      → req_1_svc (suc k) s (pede c).1 ≡ r
      → Atendida s (pede c).1 r
      → Rodou (suc k) s c (rodada xdr clnt (ouvindo s) c)
  unfolding rodada processa devolve ciclo conclui_ciclo
  rodada-Atendida s c _ (a, b, d, f) e (atendida {g} x xs h p q w) =
      let (c', req) = pede c in
      let s' = record s { tempo = i64 (s.tempo +ℤ pos 1); fila = some g } in
      let rep = resposta_a s req in
      let (c'', rel) = usa c' rep in
      rw (req_1-retorna xdr L I (suc k) rede s s' req rep a b e, rodada)
        (rw (rel_1-retorna xdr L I (suc k) rede s' rel d f, processa)
          (completa (rel_1_svc s' rel).0 c'' (rw (e, ciclo) refl)))
  rodada-Atendida s c _ (a, b, d, f) e (esperando {g} x xs h p q w) =
      let s' = record s { fila = some g } in
      rw (req_1-presa xdr L I (suc k) rede s s' (pede c).1 a e, rodada)
        (bloqueada s' (rw (e, ciclo) refl))

  -- A round of the client over the network is a round of client and server that meet directly: the
  -- calls are written, sent, dispatched and read back without a change, as long as the formats hold
  -- the numbers of the round and the server's queue is well-formed. If the server does not answer the
  -- request, the client returns -1, and the server is stuck.
  pub rodada-Rodou :
      (s : Servidor) (c : Cliente)
      → IsServidor s.fila
      → CabeRodada xdr L I s c
      → Rodou (suc k) s c (rodada xdr clnt (ouvindo s) c)
  rodada-Rodou s c v h = rodada-Atendida s c _ h refl (req_1_svc-Atendida k s (pede c).1 v)
