-- ===== src/Netkit/Servidor/Exclusao.antt =====
-- Mutual exclusion as the server sees it: between two replies a token comes back.
use unifesp_sd.Base.{
  ℕ, ◌+◌, ◌≤◌, ◌≡◌, refl, ap, subst, inl, inr, Bool, true, false, Option, none, some, List, [], ◌∷◌,
  ◌++◌, arith, All, Bool-cases, ◌==◌, if◌then◌else◌,
}
use unifesp_sd.Base.Int.{ℤ, ◌==ℤ◌}
use unifesp_sd.Fila.{Sfila, remove_item}
use unifesp_sd.Fila.Invariante.{Removido, vazia, saiu, remove_item-Removido}
use unifesp_sd.Netkit.Mensagem.{
  Datagrama, Passo, segue, termina, falha, antes, em_seguida, enviadas, recebe-inteira,
  request_token, release_token, reply_allow, continua, terminou,
}
use unifesp_sd.Netkit.Servidor.{
  Servidor, Sitem, sitem_chave, Entrada, Envio, responde, enfileira, trata_request, atende,
  trata_release, despacha, recebida, processa, itera, executa, devolvido, envio_ack,
}
use unifesp_sd.Netkit.Servidor.Invariante.{
  IsPid, livre, IsServidor, Boa, IsPronto, recebida-IsPronto, itera-Mantida, Mantida,
}

module _ {C : Type 0} where
  abbrev pub is_resposta : Envio C → Bool
  is_resposta e = e.datagrama.corpo.cod ==ℤ reply_allow

  -- How many REPLY_ALLOW were sent.
  abbrev pub respostas : List (Envio C) → ℕ
  respostas [] = 0
  respostas (e ∷ es) = (if is_resposta e then 1 else 0) + respostas es

  abbrev pub devolve : Option (Datagrama × C × ℕ) → ℕ
  devolve none = 0
  devolve (some (d, _, _)) = if d.corpo.cod ==ℤ release_token then 1 else 0

  -- How many RELEASE_TOKEN arrived.
  abbrev pub devolucoes : List (Entrada C) → ℕ
  devolucoes [] = 0
  devolucoes (e ∷ es) = devolve e.chegada + devolucoes es

  -- 1 while the token is out.
  abbrev pub ocupado : Servidor C → ℕ
  ocupado s = if livre s then 0 else 1

  pub respostas-append :
      (ms ns : List (Envio C)) → respostas (ms ++ ns) ≡ respostas ms + respostas ns
  respostas-append [] ns = omega arith
  respostas-append (m ∷ ms) ns = ground (arith, respostas-append ms ns)

  -- From `oc` tokens out and with `n` tokens given back, no more than those are handed out again.
  abbrev Saldo : ℕ → ℕ → Passo (Servidor C) (Envio C) → Type 0
  Saldo n oc (segue s ms) = respostas ms + oc ≤ n + ocupado s
  Saldo n oc (termina c ms) = respostas ms + oc ≤ n + 1
  Saldo n oc (falha ms) = respostas ms + oc ≤ n + 1

  responde-Saldo :
      (n oc : ℕ) (s : Servidor C) (pid : ℤ) (para : C) (addrlen : ℕ) (ok : Bool)
      → IsPid pid
      → oc ≤ n
      → Saldo n oc (responde s pid para addrlen ok)
  unfolding responde
  responde-Saldo n oc s pid para addrlen true p h = ground arith
  responde-Saldo n oc s pid para addrlen false p h = omega arith

  enfileira-Saldo :
      (oc : ℕ) (s : Servidor C) (r : Option (Sfila (Sitem C) × Bool))
      → oc ≤ ocupado s
      → Saldo 0 oc (enfileira s r)
  unfolding enfileira
  enfileira-Saldo oc s none h = ground arith
  enfileira-Saldo oc s (some (f, b)) h = omega arith

  trata_request-Saldo :
      (s : Servidor C) (caddr : C) (addrlen : ℕ) (ok : Bool)
      → IsPid s.req.pid
      → Saldo 0 (ocupado s) (trata_request s caddr addrlen ok)
  unfolding trata_request
  trata_request-Saldo s caddr addrlen ok p = elim (Bool-cases (livre s)) [
    | inl free ↦ rw free (responde-Saldo 0 0 s s.req.pid caddr addrlen ok p (omega arith))
    | inr busy ↦ rw busy (enfileira-Saldo 1 s _ (rw busy (omega arith)))
  ]

  atende-Saldo :
      (oc : ℕ) (s : Servidor C) (f : Sfila (Sitem C)) (r : Sfila (Sitem C) × Option (Sitem C))
      (ok : Bool)
      → oc ≤ 1
      → Removido f r
      → All (λ i. IsPid i.pid) f.head
      → Saldo 1 oc (atende s r ok)
  unfolding atende
  atende-Saldo oc s f _ ok h (vazia e) ps = omega arith
  atende-Saldo oc s f _ ok h (saiu x g e m a w) ps =
      let qs : All (λ (i : Sitem C). IsPid i.pid) (x ∷ g.head) =
        subst (All (λ i. IsPid i.pid)) e ps in
      responde-Saldo 1 oc (record s { fila = g }) x.pid x.caddr x.addrlen ok qs.0 h

  trata_release-Saldo :
      (s : Servidor C) (ok : Bool) → IsServidor s → Saldo 1 (ocupado s) (trata_release s ok)
  unfolding trata_release
  trata_release-Saldo s ok v = elim (Bool-cases (s.fila.tamanho == 0)) [
    | inl empty ↦ rw empty (ground arith)
    | inr some_wait ↦ rw some_wait (
        atende-Saldo (ocupado s) (devolvido s) s.fila (remove_item s.fila) ok (ground arith)
          (remove_item-Removido s.fila v.fila) v.pids)
  ]

  despacha-Saldo :
      (s : Servidor C) (caddr : C) (addrlen : ℕ) (ok : Bool)
      → IsPronto s
      → Saldo
          (if s.req.cod ==ℤ release_token then 1 else 0)
          (ocupado s)
          (despacha s caddr addrlen ok)
  unfolding despacha
  despacha-Saldo s caddr addrlen ok h = elim (Bool-cases (s.req.cod ==ℤ request_token)) [
    | inl e ↦
        let other : (s.req.cod ==ℤ release_token) ≡ false = ground arith in
        rw (e, other) (trata_request-Saldo s caddr addrlen ok h.pid)
    | inr e ↦ rw e (elim (Bool-cases (s.req.cod ==ℤ release_token)) [
      | inl f ↦ rw f (trata_release-Saldo s ok h.serve)
      | inr f ↦ rw f (omega arith)
    ])
  ]

  antes-Saldo :
      (n oc : ℕ) (m : Envio C) (r : Passo (Servidor C) (Envio C))
      → is_resposta m ≡ false
      → Saldo n oc r
      → Saldo n oc (antes (m ∷ []) r)
  antes-Saldo n oc m (segue s ms) e h = rw e (omega arith)
  antes-Saldo n oc m (termina c ms) e h = rw e (omega arith)
  antes-Saldo n oc m (falha ms) e h = rw e (omega arith)

  processa-Saldo :
      (cod : ℤ) (s : Servidor C) (caddr : C) (addrlen : ℕ) (ack_ok rep_ok : Bool)
      → IsPronto s
      → (s.ack_buf.cod ==ℤ reply_allow) ≡ false
      → s.req.cod ≡ cod
      → Saldo
          (if cod ==ℤ release_token then 1 else 0)
          (ocupado s)
          (processa s caddr addrlen ack_ok rep_ok)
  unfolding processa
  processa-Saldo cod s caddr addrlen true rep_ok h e q =
      antes-Saldo _ (ocupado s) (envio_ack s caddr addrlen) (despacha s caddr addrlen rep_ok) e (
        subst
          (λ c.
            Saldo (if c ==ℤ release_token then 1 else 0) (ocupado s)
              (despacha s caddr addrlen rep_ok))
          q (despacha-Saldo s caddr addrlen rep_ok h))
  processa-Saldo cod s caddr addrlen false rep_ok h e q = ground arith

  rodada-Saldo :
      (s : Servidor C) (e : Entrada C) (o : Option (Datagrama × C × ℕ))
      → e.chegada ≡ o
      → IsServidor s
      → Boa o
      → Saldo (devolve o) (ocupado s) (itera s e)
  unfolding itera
  rodada-Saldo s e none c v h = rw c (ground arith)
  rodada-Saldo s e (some (d, caddr, addrlen)) c v h = rw c (
      processa-Saldo d.corpo.cod (recebida s d) caddr addrlen e.ack_ok e.rep_ok
        (recebida-IsPronto s d v h) refl (ap (λ r. r.cod) (recebe-inteira d s.req h.tamanho)))

  em_seguida-Saldo :
      (n m oc : ℕ) (r : Passo (Servidor C) (Envio C))
      (f : Servidor C → Passo (Servidor C) (Envio C))
      → Mantida r
      → Saldo n oc r
      → ((s : Servidor C) → IsServidor s → Saldo m (ocupado s) (f s))
      → Saldo (n + m) oc (em_seguida r f)
  em_seguida-Saldo n m oc _ f (continua {s} {ms} v) h g = junta (f s) (g s v)
    where
      junta :
          (r : Passo (Servidor C) (Envio C)) → Saldo m (ocupado s) r → Saldo (n + m) oc (antes ms r)
      junta (segue t ns) k = omega (arith, respostas-append ms ns)
      junta (termina c ns) k = omega (arith, respostas-append ms ns)
      junta (falha ns) k = omega (arith, respostas-append ms ns)
  em_seguida-Saldo n m oc _ f (terminou c ms) h g = omega arith

  executa-Saldo :
      (s : Servidor C) (es : List (Entrada C))
      → IsServidor s
      → All (λ e. Boa e.chegada) es
      → Saldo (devolucoes es) (ocupado s) (executa s es)
  unfolding executa
  executa-Saldo s [] v h = omega arith
  executa-Saldo s (e ∷ es) v h =
      em_seguida-Saldo (devolve e.chegada) (devolucoes es) (ocupado s) (itera s e)
        (λ s'. executa s' es) (itera-Mantida s e v h.0) (rodada-Saldo s e e.chegada refl v h.0)
        λ s' w. executa-Saldo s' es w h.1

  Saldo-enviadas :
      (n oc : ℕ) (r : Passo (Servidor C) (Envio C))
      → Saldo n oc r
      → respostas (enviadas r) + oc ≤ n + 1
  Saldo-enviadas n oc (segue s ms) h = ground arith
  Saldo-enviadas n oc (termina c ms) h = h
  Saldo-enviadas n oc (falha ms) h = h

  -- Over any run that starts with the invariant and receives whole messages, with an `int` clock and
  -- a PID whose low byte is not 255, the replies sent plus the token that was out at the start exceed
  -- the releases received by one at most.
  pub exclusao :
      (s : Servidor C) (es : List (Entrada C))
      → IsServidor s
      → All (λ e. Boa e.chegada) es
      → respostas (enviadas (executa s es)) + ocupado s ≤ devolucoes es + 1
  exclusao s es v h =
      Saldo-enviadas (devolucoes es) (ocupado s) (executa s es) (executa-Saldo s es v h)
