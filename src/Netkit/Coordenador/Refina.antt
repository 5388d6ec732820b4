-- ===== src/Netkit/Coordenador/Refina.antt =====
-- A round of the server is a step of the coordinator.
use unifesp_sd.Base.{
  ℕ, ◌≡◌, refl, ap, subst, inl, inr, Bool, true, false, Option, none, some, List, [], ◌∷◌, arith,
  All, Bool-cases, length, length-eq-zero, ◌==◌, if◌then◌else◌,
}
use unifesp_sd.Base.Int.{◌==ℤ◌}
use unifesp_sd.Fila.{Sfila, remove_item, esta_na_fila}
use unifesp_sd.Fila.Invariante.{
  Inserido, entrou, recusado, insere-Inserido, Removido, vazia, saiu, remove_item-Removido,
}
use unifesp_sd.Netkit.Mensagem.{
  Datagrama, Request, Passo, segue, antes, recebe-inteira, request_token, release_token,
  reply_allow,
}
use unifesp_sd.Netkit.Servidor.{
  Servidor, Sitem, sitem_chave, Entrada, Envio, enfileira, trata_request, atende, trata_release,
  despacha, recebida, processa, itera, devolvido, envio_ack,
}
use unifesp_sd.Netkit.Servidor.Invariante.{
  IsPid, livre, IsServidor, IsInteira, IsPronto, recebida-IsPronto,
}
use unifesp_sd.Netkit.Coordenador.{
  Coordenador, Evento, pedido, devolucao, outro, Concessao, concessao, Passa, concede, aguarda,
  recusa, repassa, guarda, ignora,
}

module _ {C : Type 0} where
  -- The coordinator that a server stands for.
  abbrev pub visto : Servidor C → Coordenador C
  visto s = record { livre = livre s; valor = s.token.valor; espera = s.fila.head }

  -- The event that a message is.
  abbrev pub evento : Request → C → ℕ → Evento C
  evento r caddr addrlen =
      if r.cod ==ℤ request_token
      then pedido (record { pid = r.pid; tempo = r.tempo; addrlen = addrlen; caddr = caddr })
      else (if r.cod ==ℤ release_token then devolucao r.rec else outro)

  -- The replies among what was sent.
  abbrev pub concedidas : List (Envio C) → List (Concessao C)
  concedidas [] = []
  concedidas (e ∷ es) =
      let c : Concessao C = record {
        para = e.para;
        addrlen = e.addrlen;
        valor = e.datagrama.corpo.rec;
      } in
      if e.datagrama.corpo.cod ==ℤ reply_allow then c ∷ concedidas es else concedidas es

  abbrev pub lista : Option (Concessao C) → List (Concessao C)
  lista none = []
  lista (some c) = c ∷ []

  -- The round goes on, and did what a step of the coordinator on `ev` does.
  pub data Refina (s : Servidor C) (ev : Evento C) : Passo (Servidor C) (Envio C) → Type 0 where
    refina :
        {s' : Servidor C} {ms : List (Envio C)} (g : Option (Concessao C))
        → Passa (visto s) (visto s') ev g
        → concedidas ms ≡ lista g
        → Refina s ev (segue s' ms)

  enfileira-Refina :
      (s : Servidor C) (x : Sitem C) (r : Option (Sfila (Sitem C) × Bool))
      → Inserido s.fila x r
      → IsServidor s
      → livre s ≡ false
      → Refina s (pedido x) (enfileira s r)
  unfolding enfileira esta_na_fila
  enfileira-Refina s x _ (entrou g room new e n w) v busy =
      refina none (aguarda x busy (omega (arith, v.fila.conta, v.lugares)) new e refl) refl
  enfileira-Refina s x _ (recusado w) v busy =
      refina none (recusa x busy (ground (arith, v.fila.conta, v.lugares)) refl) refl

  trata_request-Refina :
      (s : Servidor C) (caddr : C) (addrlen : ℕ)
      → IsPronto s
      → Refina s
          (pedido
            (record { pid = s.req.pid; tempo = s.req.tempo; addrlen = addrlen; caddr = caddr }))
          (trata_request s caddr addrlen true)
  unfolding trata_request
  trata_request-Refina s caddr addrlen h = elim (Bool-cases (livre s)) [
    | inl free ↦ rw free (refina (some _) (concede _ free (ground (arith, h.pid))) refl)
    | inr busy ↦
        rw busy (enfileira-Refina s _ _ (insere-Inserido s.fila _ h.serve.fila) h.serve busy)
  ]

  atende-Refina :
      (s : Servidor C) (r : Sfila (Sitem C) × Option (Sitem C))
      → Removido s.fila r
      → All (λ i. IsPid i.pid) s.fila.head
      → (s.fila.head ≡ [] → ⊥)
      → Refina s (devolucao s.req.rec) (atende (devolvido s) r true)
  unfolding atende
  atende-Refina s _ (vazia e) ps some_wait = absurd (some_wait e)
  atende-Refina s _ (saiu x g e m a w) ps some_wait =
      let qs : All (λ (i : Sitem C). IsPid i.pid) (x ∷ g.head) =
        subst (All (λ i. IsPid i.pid)) e ps in
      refina (some (concessao x s.req.rec)) (repassa s.req.rec x e (ground (arith, qs.0))) refl

  trata_release-Refina :
      (s : Servidor C) → IsServidor s → Refina s (devolucao s.req.rec) (trata_release s true)
  unfolding trata_release
  trata_release-Refina s v = elim (Bool-cases (s.fila.tamanho == 0)) [
    | inl empty ↦
        let e = length-eq-zero s.fila.head (ground (arith, v.fila.conta)) in
        rw empty (refina none (guarda s.req.rec e (ground arith)) refl)
    | inr some_wait ↦ rw some_wait (
        atende-Refina s (remove_item s.fila) (remove_item-Removido s.fila v.fila) v.pids
          λ e. ground (arith, v.fila.conta, ap length e))
  ]

  despacha-Refina :
      (s : Servidor C) (caddr : C) (addrlen : ℕ)
      → IsPronto s
      → Refina s (evento s.req caddr addrlen) (despacha s caddr addrlen true)
  unfolding despacha
  despacha-Refina s caddr addrlen h = elim (Bool-cases (s.req.cod ==ℤ request_token)) [
    | inl e ↦ rw e (trata_request-Refina s caddr addrlen h)
    | inr e ↦ rw e (elim (Bool-cases (s.req.cod ==ℤ release_token)) [
      | inl f ↦ rw f (trata_release-Refina s h.serve)
      | inr f ↦ rw f (refina none (ignora refl) refl)
    ])
  ]

  antes-Refina :
      (s : Servidor C) (ev : Evento C) (m : Envio C) (r : Passo (Servidor C) (Envio C))
      → (m.datagrama.corpo.cod ==ℤ reply_allow) ≡ false
      → Refina s ev r
      → Refina s ev (antes (m ∷ []) r)
  antes-Refina s ev m _ e (refina g p q) = refina g p (rw e q)

  processa-Refina :
      (s : Servidor C) (caddr : C) (addrlen : ℕ)
      → IsPronto s
      → (s.ack_buf.cod ==ℤ reply_allow) ≡ false
      → Refina s (evento s.req caddr addrlen) (processa s caddr addrlen true true)
  unfolding processa
  processa-Refina s caddr addrlen h e =
      antes-Refina s (evento s.req caddr addrlen) (envio_ack s caddr addrlen)
        (despacha s caddr addrlen true) e (despacha-Refina s caddr addrlen h)

  -- The clock and the buffers are not seen.
  Refina-recebida :
      (s : Servidor C) (d : Datagrama) (ev : Evento C) (r : Passo (Servidor C) (Envio C))
      → Refina (recebida s d) ev r
      → Refina s ev r
  unfolding recebida
  Refina-recebida s d ev _ (refina g p q) = refina g p q

  -- A round in which a whole request arrives and every `sendto` succeeds.
  abbrev pub entrega : Datagrama → C → ℕ → Entrada C
  entrega d caddr addrlen = record {
    chegada = some (d, caddr, addrlen);
    ack_ok = true;
    rep_ok = true;
  }

  -- From the server's invariant, a round in which every `sendto` succeeds and a whole message arrives,
  -- with an `int` clock and a PID whose low byte is not 255, does not fault or return. It changes the token and the queue as the coordinator does on the event
  -- that the message is, and the replies it sends are the coordinator's.
  pub itera-Refina :
      (s : Servidor C) (d : Datagrama) (caddr : C) (addrlen : ℕ)
      → IsServidor s
      → IsInteira d
      → Refina s (evento d.corpo caddr addrlen) (itera s (entrega d caddr addrlen))
  unfolding itera
  itera-Refina s d caddr addrlen v h =
      subst (λ r. Refina s (evento r caddr addrlen) (itera s (entrega d caddr addrlen)))
        (recebe-inteira d s.req h.tamanho)
        (Refina-recebida s d _ (processa (recebida s d) caddr addrlen true true)
          (processa-Refina (recebida s d) caddr addrlen (recebida-IsPronto s d v h) refl))
