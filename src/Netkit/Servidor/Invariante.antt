-- ===== src/Netkit/Servidor/Invariante.antt =====
-- The server's invariant: a well-formed queue of ten places at most, a clock in range, nobody in
-- the queue while the token is free, and no PID that `Token.flag` would take for "free".
use unifesp_sd.Base.{
  ℕ, ◌≤◌, ◌≡◌, ◌≢◌, ◌∙◌, ◌==◌, refl, subst, ◌⊎◌, inl, inr, Bool, true, false, Option, none, some,
  List, [], ◌∷◌, arith, All, ap, length, length-eq-zero, Bool-cases,
}
use unifesp_sd.Base.Int.{ℤ, negsuc, ◌==ℤ◌, i8, IsInt}
use unifesp_sd.Fila.{Sfila, init, remove_item}
use unifesp_sd.Fila.Ordem.{Encaixe-All}
use unifesp_sd.Fila.Invariante.{
  IsFila, init-IsFila, Inserido, entrou, recusado, insere-Inserido, Removido, vazia, saiu,
  remove_item-Removido,
}
use unifesp_sd.Netkit.Mensagem.{
  Request, Datagrama, Passo, Mantem, continua, terminou, antes, em_seguida, recebe-inteira,
  request_token, release_token,
}
use unifesp_sd.Netkit.Servidor.{
  Servidor, Sitem, sitem_chave, Entrada, Envio, responde, enfileira, trata_request, atende,
  trata_release, despacha, recebida, processa, itera, executa, devolvido, envio_ack, inicio,
}
use unifesp_sd.Netkit.Servidor.Relogio.{
  IsTempo, IsRecente, IsRecente-IsTempo, relogio-IsRecente, tique-IsTempo,
}

-- `Token.flag` is a `char`, and -1 in it means a free token: the low byte of a PID must not be 255.
abbrev pub IsPid : ℤ → Type 0
IsPid p = (i8 p ==ℤ negsuc 0) ≡ false

abbrev pub livre : {C : Type 0} → Servidor C → Bool
livre s = s.token.flag ==ℤ negsuc 0

-- A whole message, with an `int` clock and a PID that `Token.flag` can hold.
pub record IsInteira (d : Datagrama) : Type 0 where
  pub tamanho : 16 ≤ d.tamanho
  pub tempo : IsInt d.corpo.tempo
  pub pid : IsPid d.corpo.pid

module _ {C : Type 0} where
  pub record IsServidor (s : Servidor C) : Type 0 where
    pub fila : IsFila s.fila
    pub lugares : s.fila.n ≡ 10
    pub relogio : IsTempo s.tempo
    pub espera : (livre s ≡ false) ⊎ (s.fila.head ≡ [])
    pub pids : All (λ i. IsPid i.pid) s.fila.head

  abbrev pub Boa : Option (Datagrama × C × ℕ) → Type 0
  Boa none = Unit
  Boa (some (d, _, _)) = IsInteira d

  pub inicio-IsServidor : (req ack_buf rep : Request) → IsServidor (inicio {C = C} req ack_buf rep)
  unfolding inicio init
  inicio-IsServidor req ack_buf rep = record {
    fila = init-IsFila 10;
    lugares = refl;
    relogio = record { acima = omega arith; abaixo = omega arith };
    espera = inr refl;
    pids = tt;
  }

  -- What holds between the receipt and the reply: the clock has room for one more tick.
  pub record IsPronto (s : Servidor C) : Type 0 where
    pub serve : IsServidor s
    pub recente : IsRecente s.tempo
    pub pid : IsPid s.req.pid

  abbrev pub Mantida : Passo (Servidor C) (Envio C) → Type 0
  Mantida = Mantem (λ s _. IsServidor s)

  responde-Mantida :
      (s : Servidor C) (pid : ℤ) (para : C) (addrlen : ℕ) (ok : Bool)
      → IsFila s.fila
      → s.fila.n ≡ 10
      → IsRecente s.tempo
      → IsPid pid
      → All (λ i. IsPid i.pid) s.fila.head
      → Mantida (responde s pid para addrlen ok)
  unfolding responde
  responde-Mantida s pid para addrlen true f n t p ps = continua (record {
    fila = f;
    lugares = n;
    relogio = tique-IsTempo s.tempo t;
    espera = inl p;
    pids = ps;
  })
  responde-Mantida s pid para addrlen false f n t p ps = terminou _ _

  enfileira-Mantida :
      (s : Servidor C) (novo : Sitem C) (r : Option (Sfila (Sitem C) × Bool))
      → Inserido s.fila novo r
      → IsServidor s
      → livre s ≡ false
      → IsPid novo.pid
      → Mantida (enfileira s r)
  unfolding enfileira
  enfileira-Mantida s novo _ (entrou g room new e n w) v busy p = continua (record {
    fila = w;
    lugares = n ∙ v.lugares;
    relogio = v.relogio;
    espera = inl busy;
    pids = Encaixe-All (λ i. IsPid i.pid) e p v.pids;
  })
  enfileira-Mantida s novo _ (recusado w) v busy p = continua v

  trata_request-Mantida :
      (s : Servidor C) (caddr : C) (addrlen : ℕ) (ok : Bool)
      → IsPronto s
      → Mantida (trata_request s caddr addrlen ok)
  unfolding trata_request
  trata_request-Mantida s caddr addrlen ok h = elim (Bool-cases (livre s)) [
    | inl free ↦ rw free (
        responde-Mantida s s.req.pid caddr addrlen ok h.serve.fila h.serve.lugares h.recente h.pid
          h.serve.pids)
    | inr busy ↦
        rw busy (enfileira-Mantida s _ _ (insere-Inserido s.fila _ h.serve.fila) h.serve busy h.pid)
  ]

  atende-Mantida :
      (s : Servidor C) (r : Sfila (Sitem C) × Option (Sitem C)) (ok : Bool)
      → Removido s.fila r
      → s.fila.n ≡ 10
      → IsRecente s.tempo
      → All (λ i. IsPid i.pid) s.fila.head
      → s.fila.head ≢ []
      → Mantida (atende s r ok)
  unfolding atende
  atende-Mantida s _ ok (vazia e) n t ps some_wait = absurd (some_wait e)
  atende-Mantida s _ ok (saiu x g e m a w) n t ps some_wait =
      let qs : All (λ (i : Sitem C). IsPid i.pid) (x ∷ g.head) =
        subst (All (λ i. IsPid i.pid)) e ps in
      responde-Mantida (record s { fila = g }) x.pid x.caddr x.addrlen ok w (m ∙ n) t qs.0 qs.1

  trata_release-Mantida : (s : Servidor C) (ok : Bool) → IsPronto s → Mantida (trata_release s ok)
  unfolding trata_release
  trata_release-Mantida s ok h = elim (Bool-cases (s.fila.tamanho == 0)) [
    | inl empty ↦ rw empty (
        continua (record {
          fila = h.serve.fila;
          lugares = h.serve.lugares;
          relogio = h.serve.relogio;
          espera = inr (length-eq-zero s.fila.head (ground (arith, h.serve.fila.conta)));
          pids = h.serve.pids;
        }))
    | inr some_wait ↦ rw some_wait (
        atende-Mantida (devolvido s) (remove_item s.fila) ok
          (remove_item-Removido s.fila h.serve.fila) h.serve.lugares h.recente h.serve.pids
          λ e. ground (arith, h.serve.fila.conta, ap length e))
  ]

  despacha-Mantida :
      (s : Servidor C) (caddr : C) (addrlen : ℕ) (ok : Bool)
      → IsPronto s
      → Mantida (despacha s caddr addrlen ok)
  unfolding despacha
  despacha-Mantida s caddr addrlen ok h = elim (Bool-cases (s.req.cod ==ℤ request_token)) [
    | inl e ↦ rw e (trata_request-Mantida s caddr addrlen ok h)
    | inr e ↦ rw e (elim (Bool-cases (s.req.cod ==ℤ release_token)) [
      | inl f ↦ rw f (trata_release-Mantida s ok h)
      | inr f ↦ rw f (continua h.serve)
    ])
  ]

  pub recebida-IsPronto :
      (s : Servidor C) (d : Datagrama) → IsServidor s → IsInteira d → IsPronto (recebida s d)
  unfolding recebida
  recebida-IsPronto s d v h =
      let t = relogio-IsRecente s.tempo d.corpo.tempo v.relogio h.tempo in
      rw (recebe-inteira d s.req h.tamanho) (record {
        serve = record {
          fila = v.fila;
          lugares = v.lugares;
          relogio = IsRecente-IsTempo t;
          espera = v.espera;
          pids = v.pids;
        };
        recente = t;
        pid = h.pid;
      })

  pub antes-Mantida :
      (ms : List (Envio C)) (r : Passo (Servidor C) (Envio C)) → Mantida r → Mantida (antes ms r)
  antes-Mantida ms _ (continua v) = continua v
  antes-Mantida ms _ (terminou c ns) = terminou c _

  processa-Mantida :
      (s : Servidor C) (caddr : C) (addrlen : ℕ) (ack_ok rep_ok : Bool)
      → IsPronto s
      → Mantida (processa s caddr addrlen ack_ok rep_ok)
  unfolding processa
  processa-Mantida s caddr addrlen true rep_ok h =
      antes-Mantida (envio_ack s caddr addrlen ∷ []) (despacha s caddr addrlen rep_ok)
        (despacha-Mantida s caddr addrlen rep_ok h)
  processa-Mantida s caddr addrlen false rep_ok h = terminou _ _

  rodada-Mantida :
      (s : Servidor C) (e : Entrada C) (o : Option (Datagrama × C × ℕ))
      → e.chegada ≡ o
      → IsServidor s
      → Boa o
      → Mantida (itera s e)
  unfolding itera
  rodada-Mantida s e none c v h = rw c (terminou _ _)
  rodada-Mantida s e (some (d, caddr, addrlen)) c v h =
      rw c (
        processa-Mantida (recebida s d) caddr addrlen e.ack_ok e.rep_ok (recebida-IsPronto s d v h))

  -- A round that fails to receive, or receives a whole message with an `int` clock and a PID whose
  -- low byte is not 255, dereferences no NULL and keeps the invariant.
  pub itera-Mantida :
      (s : Servidor C) (e : Entrada C) → IsServidor s → Boa e.chegada → Mantida (itera s e)
  itera-Mantida s e v h = rodada-Mantida s e e.chegada refl v h

  em_seguida-Mantida :
      (r : Passo (Servidor C) (Envio C)) (f : Servidor C → Passo (Servidor C) (Envio C))
      → Mantida r
      → ((s : Servidor C) → IsServidor s → Mantida (f s))
      → Mantida (em_seguida r f)
  em_seguida-Mantida _ f (continua {s} {ms} v) h = antes-Mantida ms (f s) (h s v)
  em_seguida-Mantida _ f (terminou c ms) h = terminou c ms

  pub executa-Mantida :
      (s : Servidor C) (es : List (Entrada C))
      → IsServidor s
      → All (λ e. Boa e.chegada) es
      → Mantida (executa s es)
  unfolding executa
  executa-Mantida s [] v h = continua v
  executa-Mantida s (e ∷ es) v h =
      em_seguida-Mantida (itera s e) (λ s'. executa s' es) (itera-Mantida s e v h.0)
        λ s' w. executa-Mantida s' es w h.1
