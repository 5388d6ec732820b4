-- ===== src/Netkit/Sistema/Tipos/LadoServidor.antt =====
-- A round of the server keeps to the types.
use unifesp_sd.Base.{
  ℕ, subst, inl, inr, Bool, true, Option, List, [], ◌∷◌, arith, All, Bool-cases, ◌==◌,
}
use unifesp_sd.Base.Int.{ℤ, pos, ◌+ℤ◌, ◌==ℤ◌, ltb_ℤ, i32, i64, resto, IsInt, i32-IsInt}
use unifesp_sd.Fila.{Sfila, remove_item}
use unifesp_sd.Fila.Ordem.{Encaixe-All}
use unifesp_sd.Fila.Invariante.{
  IsFila, Inserido, entrou, recusado, insere-Inserido, Removido, vazia, saiu, remove_item-Removido,
}
use unifesp_sd.Netkit.Mensagem.{
  Datagrama, recebe, request_token, release_token, int_max, Passo, segue, termina, falha, antes,
}
use unifesp_sd.Netkit.Servidor.{
  Servidor, Sitem, sitem_chave, Envio, relogio, responde, enfileira, trata_request, atende,
  trata_release, devolvido, recebida, processa, envio_ack,
}
use unifesp_sd.Netkit.Servidor
use unifesp_sd.Netkit.Servidor.Invariante.{livre}
use unifesp_sd.Netkit.Coordenador.Refina.{entrega}
use unifesp_sd.Netkit.Sistema.LadoCliente.{resto-IsInt}
use unifesp_sd.Netkit.Sistema.Tipos.{
  IsLongo, i8-IsChar, i64-IsLongo, IsInt-IsLongo, IsRequest, IsItem, TiposServidor, Deixa,
}
use unifesp_sd.Netkit.Sistema.Tipos.LadoCliente.{recebe-IsRequest}

abbrev pub TiposTurno : Servidor ℕ → List (Envio ℕ) → Type 0
TiposTurno s ms = TiposServidor s × All (λ e. IsRequest e.datagrama.corpo) ms

abbrev pub TurnoTipado : Passo (Servidor ℕ) (Envio ℕ) → Type 0
TurnoTipado = Deixa TiposTurno

responde-TurnoTipado :
    (s : Servidor ℕ) (pid : ℤ) (para addrlen : ℕ)
    → TiposServidor s
    → IsInt pid
    → TurnoTipado (responde s pid para addrlen true)
unfolding responde
responde-TurnoTipado s pid para addrlen h p =
    let rep : IsRequest _ = record {
      rec = h.valor;
      cod = record { acima = omega arith; abaixo = omega arith };
      tempo = i32-IsInt (resto (i64 (s.tempo +ℤ pos 1)) int_max);
      pid = p;
    } in
    (
      record {
        tempo = i64-IsLongo (s.tempo +ℤ pos 1);
        fila = h.fila;
        flag = i8-IsChar pid;
        valor = h.valor;
        req = h.req;
        ack_buf = h.ack_buf;
        rep = rep;
      },
      (rep, tt),
    )

-- Another queue.
com_fila :
    (s : Servidor ℕ) (f : Sfila (Sitem ℕ))
    → TiposServidor s
    → All IsItem f.head
    → TiposServidor (record s { fila = f })
com_fila s f h k = record {
  tempo = h.tempo;
  fila = k;
  flag = h.flag;
  valor = h.valor;
  req = h.req;
  ack_buf = h.ack_buf;
  rep = h.rep;
}

enfileira-TurnoTipado :
    (s : Servidor ℕ) (x : Sitem ℕ) (r : Option (Sfila (Sitem ℕ) × Bool))
    → TiposServidor s
    → IsItem x
    → Inserido s.fila x r
    → TurnoTipado (enfileira s r)
unfolding enfileira
enfileira-TurnoTipado s x _ h k (entrou g room new e n w) =
    (com_fila s g h (Encaixe-All IsItem e k h.fila), tt)
enfileira-TurnoTipado s x _ h k (recusado w) = (com_fila s s.fila h h.fila, tt)

trata_request-TurnoTipado :
    (s : Servidor ℕ) (i n : ℕ)
    → IsFila s.fila
    → TiposServidor s
    → TurnoTipado (trata_request s i n true)
unfolding trata_request
trata_request-TurnoTipado s i n f h = elim (Bool-cases (livre s)) [
  | inl free ↦ rw free (responde-TurnoTipado s s.req.pid i n h h.req.pid)
  | inr busy ↦ rw busy (
      enfileira-TurnoTipado s _ _ h (record { pid = h.req.pid; tempo = h.req.tempo })
        (insere-Inserido s.fila _ f))
]

atende-TurnoTipado :
    (s : Servidor ℕ) (r : Sfila (Sitem ℕ) × Option (Sitem ℕ))
    → TiposServidor s
    → Removido s.fila r
    → TurnoTipado (atende s r true)
unfolding atende
atende-TurnoTipado s _ h (vazia e) = tt
atende-TurnoTipado s _ h (saiu x g e m a w) =
    let (own, rest) = subst (All IsItem) e h.fila in
    responde-TurnoTipado (record s { fila = g }) x.pid x.caddr x.addrlen (com_fila s g h rest)
      own.pid

devolvido-TiposServidor : (s : Servidor ℕ) → TiposServidor s → TiposServidor (devolvido s)
devolvido-TiposServidor s h = record {
  tempo = h.tempo;
  fila = h.fila;
  flag = record { acima = omega arith; abaixo = omega arith };
  valor = h.req.rec;
  req = h.req;
  ack_buf = h.ack_buf;
  rep = h.rep;
}

trata_release-TurnoTipado :
    (s : Servidor ℕ) → IsFila s.fila → TiposServidor s → TurnoTipado (trata_release s true)
unfolding trata_release
trata_release-TurnoTipado s f h =
    let d = devolvido-TiposServidor s h in
    elim (Bool-cases (s.fila.tamanho == 0)) [
      | inl empty ↦ rw empty (d, tt)
      | inr some_wait ↦
          rw some_wait (
            atende-TurnoTipado (devolvido s) (remove_item s.fila) d (remove_item-Removido s.fila f))
    ]

despacha-TurnoTipado :
    (s : Servidor ℕ) (i n : ℕ)
    → IsFila s.fila
    → TiposServidor s
    → TurnoTipado (Servidor.despacha s i n true)
unfolding Servidor.despacha
despacha-TurnoTipado s i n f h = elim (Bool-cases (s.req.cod ==ℤ request_token)) [
  | inl a ↦ rw a (trata_request-TurnoTipado s i n f h)
  | inr b ↦ rw b (elim (Bool-cases (s.req.cod ==ℤ release_token)) [
    | inl a ↦ rw a (trata_release-TurnoTipado s f h)
    | inr c ↦ rw c (h, tt)
  ])
]

antes-TurnoTipado :
    (e : Envio ℕ) (r : Passo (Servidor ℕ) (Envio ℕ))
    → IsRequest e.datagrama.corpo
    → TurnoTipado r
    → TurnoTipado (antes (e ∷ []) r)
antes-TurnoTipado e (segue s ms) h k = (k.0, (h, k.1))
antes-TurnoTipado e (termina c ms) h k = tt
antes-TurnoTipado e (falha ms) h k = tt

relogio-IsLongo : (t r : ℤ) → IsLongo (relogio t r)
unfolding relogio
relogio-IsLongo t r = elim (Bool-cases (ltb_ℤ r t)) [
  | inl e ↦ rw e (IsInt-IsLongo _ (resto-IsInt (i64 (t +ℤ pos 1))))
  | inr e ↦ rw e (IsInt-IsLongo _ (resto-IsInt (i32 (r +ℤ pos 1))))
]

recebida-TiposServidor :
    (s : Servidor ℕ) (d : Datagrama)
    → TiposServidor s
    → IsRequest d.corpo
    → TiposServidor (recebida s d)
unfolding recebida
recebida-TiposServidor s d h k =
    let req = recebe-IsRequest d s.req k h.req in
    record {
      tempo = relogio-IsLongo s.tempo (recebe d s.req).tempo;
      fila = h.fila;
      flag = h.flag;
      valor = h.valor;
      req = req;
      ack_buf = record {
        rec = h.ack_buf.rec;
        cod = record { acima = omega arith; abaixo = omega arith };
        tempo = i32-IsInt (relogio s.tempo (recebe d s.req).tempo);
        pid = req.pid;
      };
      rep = h.rep;
    }

fila-recebida : (s : Servidor ℕ) (d : Datagrama) → IsFila s.fila → IsFila (recebida s d).fila
unfolding recebida
fila-recebida s d f = f

pub itera-TurnoTipado :
    (s : Servidor ℕ) (d : Datagrama) (i n : ℕ)
    → IsFila s.fila
    → TiposServidor s
    → IsRequest d.corpo
    → TurnoTipado (Servidor.itera s (entrega d i n))
unfolding Servidor.itera processa
itera-TurnoTipado s d i n f h k =
    let t = recebida-TiposServidor s d h k in
    antes-TurnoTipado (envio_ack (recebida s d) i n) (Servidor.despacha (recebida s d) i n true)
      t.ack_buf (despacha-TurnoTipado (recebida s d) i n (fila-recebida s d f) t)
