-- ===== src/Rpc/Codigo/Ida.antt =====
-- The filters of LAB07-SD/backup/server_cent_xdr.c there and back.
use unifesp_sd.Base.{ℕ, refl, List}
use unifesp_sd.Base.Int.{ℤ}
use unifesp_sd.Rpc.Mensagem.{RequestIn, Release, ReplyOut}
use unifesp_sd.Rpcgen.{Filtro}
use unifesp_sd.Rpcgen.Bytes.{Leis, Volta}
use unifesp_sd.Rpcgen.Campos.{dois-Volta, tres-Volta}
use unifesp_sd.Rpc.Codigo.{xdr_request_in, xdr_release, xdr_reply_out}

module _ {X : Type 0} (escrita leitura : List ℕ → X) (xdr_long : Filtro X ℤ)
    (L : Leis escrita leitura xdr_long) where
  -- The format holds every number of the message.
  abbrev pub CabeRequest : RequestIn → Type 0
  CabeRequest req = L.Cabe req.pid_c × L.Cabe req.tempo_c

  abbrev pub CabeRelease : Release → Type 0
  CabeRelease rel = L.Cabe rel.pid_c × L.Cabe rel.tempo_c × L.Cabe rel.recurso_n

  abbrev pub CabeReply : ReplyOut → Type 0
  CabeReply rep = L.Cabe rep.pid_c × L.Cabe rep.tempo_s × L.Cabe rep.recurso

  pub xdr_request_in-Volta :
      (req : RequestIn) → CabeRequest req → Volta escrita leitura (xdr_request_in xdr_long) req
  unfolding xdr_request_in
  xdr_request_in-Volta req (a, b) =
      dois-Volta L (λ p t. record { pid_c = p; tempo_c = t }) (λ r. r.pid_c) (λ r. r.tempo_c) req
        refl a b

  pub xdr_release-Volta :
      (rel : Release) → CabeRelease rel → Volta escrita leitura (xdr_release xdr_long) rel
  unfolding xdr_release
  xdr_release-Volta rel (a, b, c) =
      tres-Volta L (λ p t n. record { pid_c = p; tempo_c = t; recurso_n = n }) (λ r. r.pid_c)
        (λ r. r.tempo_c) (λ r. r.recurso_n) rel refl a b c

  pub xdr_reply_out-Volta :
      (rep : ReplyOut) → CabeReply rep → Volta escrita leitura (xdr_reply_out xdr_long) rep
  unfolding xdr_reply_out
  xdr_reply_out-Volta rep (a, b, c) =
      tres-Volta L (λ p t n. record { pid_c = p; tempo_s = t; recurso = n }) (λ r. r.pid_c)
        (λ r. r.tempo_s) (λ r. r.recurso) rep refl a b c

  -- A message written by its filter is read back by the same filter, behind any bytes and before any
  -- others, if every number in it is one that the format holds: a request, a release and a reply.
  pub filtros-Volta :
      (req : RequestIn) (rel : Release) (rep : ReplyOut)
      → CabeRequest req
      → CabeRelease rel
      → CabeReply rep
      → Volta escrita leitura (xdr_request_in xdr_long) req
        × Volta escrita leitura (xdr_release xdr_long) rel
        × Volta escrita leitura (xdr_reply_out xdr_long) rep
  filtros-Volta req rel rep a b c =
      (xdr_request_in-Volta req a, xdr_release-Volta rel b, xdr_reply_out-Volta rep c)
