-- ===== src/Netkit/Coordenador/Falhas.antt =====
-- Where the server departs from the coordinator: PIDs that `Token.flag` cannot tell from "free",
-- requests that find the queue full, and what a reply leaves out.
use unifesp_sd.Base.{
  ℕ, ◌≤◌, ◌≡◌, refl, ap, ◌∙◌, true, false, Option, none, List, [], ◌∷◌, arith, length, All, suc,
}
use unifesp_sd.Base.Int.{negsuc, ◌==ℤ◌, i8}
use unifesp_sd.Netkit.Mensagem.{
  Datagrama, Passo, segue, recebe-inteira, request_token, reply_allow, enviadas, antes, em_seguida,
}
use unifesp_sd.Netkit.Servidor.{
  Servidor, Sitem, sitem_chave, Envio, itera, executa, recebida, processa,
}
use unifesp_sd.Netkit.Servidor.Invariante.{livre, IsServidor, IsInteira}
use unifesp_sd.Netkit.Servidor.Exclusao.{respostas, respostas-append}
use unifesp_sd.Netkit.Coordenador.Refina.{
  entrega, visto, concedidas, lista, Refina, refina, itera-Refina,
}
use unifesp_sd.Netkit.Coordenador.{
  Coordenador, Evento, pedido, Concessao, Passa, concede, aguarda, recusa, repassa, guarda, ignora,
}
use unifesp_sd.Netkit.Coordenador.Corrida.{Recado, entregas}

-- A whole REQUEST_TOKEN whose PID ends in the byte 255.
pub record IsConfuso (d : Datagrama) : Type 0 where
  pub tamanho : 16 ≤ d.tamanho
  pub cod : d.corpo.cod ≡ request_token
  pub pid : (i8 d.corpo.pid ==ℤ negsuc 0) ≡ true

module _ {C : Type 0} where
  -- The run went on with the token marked as free, after `n` replies.
  data Concedeu (n : ℕ) : Passo (Servidor C) (Envio C) → Type 0 where
    concedeu :
        {t : Servidor C} {ms : List (Envio C)}
        → livre t ≡ true
        → respostas ms ≡ n
        → Concedeu n (segue t ms)

  processa-Concedeu :
      (s : Servidor C) (caddr : C) (addrlen : ℕ)
      → livre s ≡ true
      → s.req.cod ≡ request_token
      → (i8 s.req.pid ==ℤ negsuc 0) ≡ true
      → (s.ack_buf.cod ==ℤ reply_allow) ≡ false
      → Concedeu 1 (processa s caddr addrlen true true)
  unfolding processa
  processa-Concedeu s caddr addrlen free c p a = rw (c, free) (concedeu p (rw a))

  itera-Concedeu :
      (s : Servidor C) (d : Datagrama) (caddr : C) (addrlen : ℕ)
      → livre s ≡ true
      → IsConfuso d
      → Concedeu 1 (itera s (entrega d caddr addrlen))
  unfolding itera
  itera-Concedeu s d caddr addrlen free h =
      let e = recebe-inteira d s.req h.tamanho in
      processa-Concedeu (recebida s d) caddr addrlen free (rw e h.cod) (rw e h.pid) refl

  em_seguida-Concedeu :
      (n : ℕ) (r : Passo (Servidor C) (Envio C)) (f : Servidor C → Passo (Servidor C) (Envio C))
      → Concedeu 1 r
      → ((t : Servidor C) → livre t ≡ true → Concedeu n (f t))
      → Concedeu (suc n) (em_seguida r f)
  em_seguida-Concedeu n _ f (concedeu {t} {ms} free one) h = junta (f t) (h t free)
    where
      junta : (r : Passo (Servidor C) (Envio C)) → Concedeu n r → Concedeu (suc n) (antes ms r)
      junta _ (concedeu {ms = ns} l k) = concedeu l (omega (arith, respostas-append ms ns))

  executa-Concedeu :
      (s : Servidor C) (rs : List (Recado C))
      → livre s ≡ true
      → All (λ r. IsConfuso r.0) rs
      → Concedeu (length rs) (executa s (entregas rs))
  unfolding executa
  executa-Concedeu s [] free h = concedeu free refl
  executa-Concedeu s ((d, caddr, addrlen) ∷ rs) free h =
      em_seguida-Concedeu (length rs) (itera s (entrega d caddr addrlen))
        (λ t. executa t (entregas rs)) (itera-Concedeu s d caddr addrlen free h.0)
        λ t l. executa-Concedeu t rs l h.1

  Concedeu-respostas :
      (n : ℕ) (r : Passo (Servidor C) (Envio C)) → Concedeu n r → respostas (enviadas r) ≡ n
  Concedeu-respostas n _ (concedeu l k) = k

  -- A server with a free token answers every request of a run of whole requests whose PIDs end in the
  -- byte 255, if every `sendto` succeeds: a reply for each, and none of them given back.
  pub sem_exclusao :
      (s : Servidor C) (rs : List (Recado C))
      → livre s ≡ true
      → All (λ r. IsConfuso r.0) rs
      → respostas (enviadas (executa s (entregas rs))) ≡ length rs
  sem_exclusao s rs free h = Concedeu-respostas (length rs) _ (executa-Concedeu s rs free h)

  -- The run goes on, with no reply and with token and queue as they were.
  pub data Esquece (s : Servidor C) : Passo (Servidor C) (Envio C) → Type 0 where
    esquece :
        {t : Servidor C} {ms : List (Envio C)}
        → visto t ≡ visto s
        → concedidas ms ≡ []
        → Esquece s (segue t ms)

  Passa-lotada :
      {a b : Coordenador C} {ev : Evento C} {g : Option (Concessao C)} (x : Sitem C)
      → Passa a b ev g
      → ev ≡ pedido x
      → a.livre ≡ false
      → 10 ≤ length a.espera
      → (b ≡ a) × (g ≡ none)
  Passa-lotada x (concede y h q) e l n = absurd (cc)
  Passa-lotada x (aguarda y h r m i q) e l n = absurd (omega arith)
  Passa-lotada x (recusa y h r q) e l n = (q, refl)
  Passa-lotada x (repassa v y h q) e l n = absurd (cc)
  Passa-lotada x (guarda v h q) e l n = absurd (cc)
  Passa-lotada x (ignora q) e l n = absurd (cc)

  Refina-lotada :
      (s : Servidor C) (x : Sitem C) {ev : Evento C} {r : Passo (Servidor C) (Envio C)}
      → Refina s ev r
      → ev ≡ pedido x
      → livre s ≡ false
      → 10 ≤ length s.fila.head
      → Esquece s r
  Refina-lotada s x (refina g p q) e l n =
      let (same, no_grant) = Passa-lotada x p e l n in esquece same (q ∙ ap lista no_grant)

  -- From the server's invariant, a whole request (with an `int` clock and a PID whose low byte is not
  -- 255) that comes while the token is out and ten clients wait is lost: if every `sendto` succeeds,
  -- the round goes on with no reply to anyone and with the token and the queue as they were.
  pub pedido_perdido :
      (s : Servidor C) (d : Datagrama) (caddr : C) (addrlen : ℕ)
      → IsServidor s
      → IsInteira d
      → d.corpo.cod ≡ request_token
      → livre s ≡ false
      → length s.fila.head ≡ 10
      → Esquece s (itera s (entrega d caddr addrlen))
  pedido_perdido s d caddr addrlen v h c l n =
      Refina-lotada s
        (record { pid = d.corpo.pid; tempo = d.corpo.tempo; addrlen = addrlen; caddr = caddr })
        (itera-Refina s d caddr addrlen v h) (rw c) l (omega arith)
