-- ===== src/Netkit/Sistema/Enviadas.antt =====
-- What holds of every datagram that a round of the server sends: the ACK, and perhaps a reply.
use unifesp_sd.Base.{
  ℕ, Bool, true, ◌≡◌, refl, inl, inr, Option, none, some, [], ◌∷◌, All, Bool-cases, ◌==◌,
}
use unifesp_sd.Base.Int.{ℤ, ◌==ℤ◌}
use unifesp_sd.Netkit.Mensagem.{
  request_token, release_token, reply_allow, ack, Request, Datagrama, Passo, segue, termina, falha,
  antes, enviadas, sizeof_request, sizeof_ponteiro, recebe,
}
use unifesp_sd.Fila.{Sfila, remove_item}
use unifesp_sd.Netkit.Servidor.{
  Servidor, Sitem, Envio, responde, enfileira, trata_request, atende, trata_release, processa,
  recebida,
}
use unifesp_sd.Netkit.Servidor
use unifesp_sd.Netkit.Servidor.Invariante.{livre}
use unifesp_sd.Netkit.Coordenador.Refina.{entrega}

-- A predicate that replies have.
module _ (P : Envio ℕ → Type 0)
    (resposta : (para addrlen : ℕ) (corpo : Request)
      → corpo.cod ≡ reply_allow
      → P (record {
        datagrama = record { tamanho = sizeof_ponteiro; corpo = corpo };
        para = para;
        addrlen = addrlen;
      })) where
  abbrev Enviadas : Passo (Servidor ℕ) (Envio ℕ) → Type 0
  Enviadas r = All P (enviadas r)

  responde-Enviadas :
      (s : Servidor ℕ) (pid : ℤ) (para addrlen : ℕ) → Enviadas (responde s pid para addrlen true)
  unfolding responde
  responde-Enviadas s pid para addrlen = (resposta para addrlen _ refl, tt)

  enfileira-Enviadas :
      (s : Servidor ℕ) (r : Option (Sfila (Sitem ℕ) × Bool)) → Enviadas (enfileira s r)
  unfolding enfileira
  enfileira-Enviadas s none = tt
  enfileira-Enviadas s (some (f, b)) = tt

  atende-Enviadas :
      (s : Servidor ℕ) (r : Sfila (Sitem ℕ) × Option (Sitem ℕ)) → Enviadas (atende s r true)
  unfolding atende
  atende-Enviadas s (f, none) = tt
  atende-Enviadas s (f, some x) = responde-Enviadas (record s { fila = f }) x.pid x.caddr x.addrlen

  trata_request-Enviadas : (s : Servidor ℕ) (i n : ℕ) → Enviadas (trata_request s i n true)
  unfolding trata_request
  trata_request-Enviadas s i n = elim (Bool-cases (livre s)) [
    | inl free ↦ rw free (responde-Enviadas s s.req.pid i n)
    | inr busy ↦ rw busy (enfileira-Enviadas s _)
  ]

  trata_release-Enviadas : (s : Servidor ℕ) → Enviadas (trata_release s true)
  unfolding trata_release
  trata_release-Enviadas s = elim (Bool-cases (s.fila.tamanho == 0)) [
    | inl empty ↦ rw empty tt
    | inr some_wait ↦ rw some_wait (atende-Enviadas (Servidor.devolvido s) (remove_item s.fila))
  ]

  despacha-Enviadas : (s : Servidor ℕ) (i n : ℕ) → Enviadas (Servidor.despacha s i n true)
  unfolding Servidor.despacha
  despacha-Enviadas s i n = elim (Bool-cases (s.req.cod ==ℤ request_token)) [
    | inl a ↦ rw a (trata_request-Enviadas s i n)
    | inr b ↦ rw b (elim (Bool-cases (s.req.cod ==ℤ release_token)) [
      | inl a ↦ rw a (trata_release-Enviadas s)
      | inr c ↦ rw c tt
    ])
  ]

  antes-Enviadas :
      (e : Envio ℕ) (r : Passo (Servidor ℕ) (Envio ℕ))
      → P e
      → Enviadas r
      → Enviadas (antes (e ∷ []) r)
  antes-Enviadas e (segue s ms) h k = (h, k)
  antes-Enviadas e (termina c ms) h k = (h, k)
  antes-Enviadas e (falha ms) h k = (h, k)

  -- The ACK is a whole message with the PID that the server received.
  pub itera-Enviadas :
      (s : Servidor ℕ) (d : Datagrama) (i n : ℕ)
      → ((rec tempo : ℤ)
          → P (record {
            datagrama = record {
              tamanho = sizeof_request;
              corpo = record { rec = rec; cod = ack; tempo = tempo; pid = (recebe d s.req).pid };
            };
            para = i;
            addrlen = n;
          }))
      → Enviadas (Servidor.itera s (entrega d i n))
  unfolding Servidor.itera processa recebida
  itera-Enviadas s d i n h =
      antes-Enviadas _ (Servidor.despacha (recebida s d) i n true) (h _ _)
        (despacha-Enviadas (recebida s d) i n)
