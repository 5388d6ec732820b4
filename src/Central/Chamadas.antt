-- ===== src/Central/Chamadas.antt =====
-- The calls of LAB07-SD/server_cent.x over the network.
use unifesp_sd.Base.{ℕ, refl, List}
use unifesp_sd.Base.Int.{ℤ}
use unifesp_sd.Rpcgen.{Filtro}
use unifesp_sd.Rpcgen.Bytes.{Leis, Volta}
use unifesp_sd.Rpcgen.Campos.{dois-Volta, tres-Volta}
use unifesp_sd.Rpcgen.Ponteiro.{Clnt}
use unifesp_sd.Rpcgen.Rede.{
  Processo, ouvindo, Rede, Entregue, Devolve, Devolve-mono, remota-Entregue,
}
use unifesp_sd.Central.{
  Request, Release, Reply, Procedimentos, request_zerado, release_zerado, reply_zerado, xdr_request,
  xdr_release, xdr_reply, server_cent_1, req_1, rep_1, rel_1,
}

module _ {X : Type 0} {escrita leitura : List ℕ → X} (xdr_long : Filtro X ℤ)
    (L : Leis escrita leitura xdr_long) where
  -- The format holds every number of the message.
  abbrev pub CabeRequest : Request → Type 0
  CabeRequest r = L.Cabe r.pid_c × L.Cabe r.tempo_c

  abbrev pub CabeRelease : Release → Type 0
  CabeRelease r = L.Cabe r.pid_c × L.Cabe r.tempo_c × L.Cabe r.recurso_n

  abbrev pub CabeReply : Reply → Type 0
  CabeReply r = L.Cabe r.pid_c × L.Cabe r.tempo_s × L.Cabe r.recurso

  xdr_request-Volta : (r : Request) → CabeRequest r → Volta escrita leitura (xdr_request xdr_long) r
  unfolding xdr_request
  xdr_request-Volta r (a, b) =
      dois-Volta L (λ p t. record { pid_c = p; tempo_c = t }) (λ r. r.pid_c) (λ r. r.tempo_c) r refl
        a b

  xdr_release-Volta : (r : Release) → CabeRelease r → Volta escrita leitura (xdr_release xdr_long) r
  unfolding xdr_release
  xdr_release-Volta r (a, b, c) =
      tres-Volta L (λ p t n. record { pid_c = p; tempo_c = t; recurso_n = n }) (λ r. r.pid_c)
        (λ r. r.tempo_c) (λ r. r.recurso_n) r refl a b c

  xdr_reply-Volta : (r : Reply) → CabeReply r → Volta escrita leitura (xdr_reply xdr_long) r
  unfolding xdr_reply
  xdr_reply-Volta r (a, b, c) =
      tres-Volta L (λ p t n. record { pid_c = p; tempo_s = t; recurso = n }) (λ r. r.pid_c)
        (λ r. r.tempo_s) (λ r. r.recurso) r refl a b c

  -- A call by a stub is a call of the server's procedure: the dispatcher reaches the procedure of that
  -- name with the argument that the client gave, and the client has the result that the procedure
  -- returned; NULL if it returned NULL; and NULL, from a server that is stuck, if it did not return. So
  -- it is for each of the three procedures, whatever they do, if the format holds the numbers of the
  -- arguments and of the results.
  pub chamadas-Entregues :
      {W : Type 0} (P : Procedimentos W) {clnt : Clnt (Processo W) X}
      (rede : Rede escrita leitura (server_cent_1 xdr_long P) clnt) (w : W) (req : Request)
      (rel : Release)
      → CabeRequest req
      → CabeRelease rel
      → Devolve CabeRequest (P.req_1_svc req w)
      → Devolve CabeReply (P.rep_1_svc req w)
      → Devolve CabeRequest (P.rel_1_svc rel w)
      → Entregue (P.req_1_svc req w) (req_1 xdr_long clnt (ouvindo w) req)
        × Entregue (P.rep_1_svc req w) (rep_1 xdr_long clnt (ouvindo w) req)
        × Entregue (P.rel_1_svc rel w) (rel_1 xdr_long clnt (ouvindo w) rel)
  unfolding server_cent_1 req_1 rep_1 rel_1
  chamadas-Entregues P rede w req rel a b c d e =
      let f = xdr_request xdr_long in
      let pedido = xdr_request-Volta req a in
      (
        remota-Entregue rede 1 f f P.req_1_svc request_zerado (λ svc w. refl) req request_zerado w
            pedido (Devolve-mono _ c xdr_request-Volta),
        remota-Entregue rede 2 f (xdr_reply xdr_long) P.rep_1_svc request_zerado (λ svc w. refl) req
            reply_zerado w pedido (Devolve-mono _ d xdr_reply-Volta),
        remota-Entregue rede 3 (xdr_release xdr_long) f P.rel_1_svc release_zerado (λ svc w. refl)
            rel request_zerado w (xdr_release-Volta rel b) (Devolve-mono _ e xdr_request-Volta),
      )
