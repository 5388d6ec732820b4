-- ===== src/Netkit/Servidor.antt =====
-- LAB2-NETKIT/servidor.c: `main` and its loop. A round of the loop takes what the environment does
-- in it: the datagram that `recvfrom` delivers, with its sender, and whether each `sendto`
-- succeeds. `C` is `struct sockaddr_in`, of which the server only passes copies on.
pub mod Relogio
pub mod Invariante
pub mod Somas
pub mod Exclusao
pub mod Principal
use unifesp_sd.Base.{ℕ, Bool, Option, none, some, List, [], ◌∷◌, ◌==◌, if◌then◌else◌}
use unifesp_sd.Base.Int.{ℤ, pos, negsuc, ◌+ℤ◌, ltb_ℤ, ◌==ℤ◌, i8, i32, i64, resto}
use unifesp_sd.Fila.{Chave, Sfila, init, insere, remove_item}
use unifesp_sd.Netkit.Mensagem.{
  request_token, release_token, reply_allow, ack, int_max, Request, sizeof_request, sizeof_ponteiro,
  Datagrama, recebe, Passo, segue, termina, falha, antes, em_seguida,
}

pub record SToken : Type 0 where
  pub flag : ℤ
  pub valor : ℤ

pub record Sitem (C : Type 0) : Type 0 where
  pub pid : ℤ
  pub tempo : ℤ
  pub addrlen : ℕ
  pub caddr : C

instance abbrev pub sitem_chave : {C : Type 0} → Chave (Sitem C)
sitem_chave = record { pid = λ i. i.pid; tempo = λ i. i.tempo }

-- The variables of `main` that live from round to round.
pub record Servidor (C : Type 0) : Type 0 where
  pub tempo : ℤ
  pub fila : Sfila (Sitem C)
  pub token : SToken
  pub req : Request
  pub ack_buf : Request
  pub rep : Request

pub record Entrada (C : Type 0) : Type 0 where
  pub chegada : Option (Datagrama × C × ℕ)
  pub ack_ok : Bool
  pub rep_ok : Bool

-- A call of `sendto`.
pub record Envio (C : Type 0) : Type 0 where
  pub datagrama : Datagrama
  pub para : C
  pub addrlen : ℕ

-- The Lamport clock on a receipt: `TEMPO` is a `long`, `req->tempo` an `int`. A sum that overflows,
-- which C leaves undefined, wraps here; Somas says where none does.
unfoldable pub relogio : ℤ → ℤ → ℤ
relogio tempo recebido =
    if ltb_ℤ recebido tempo
    then resto (i64 (tempo +ℤ pos 1)) int_max
    else resto (i32 (recebido +ℤ pos 1)) int_max

-- Hands the token to `pid`: builds REPLY_ALLOW, ticks the clock, marks the token, and sends.
unfoldable pub responde :
    {C : Type 0} → Servidor C → ℤ → C → ℕ → Bool → Passo (Servidor C) (Envio C)
responde s pid para addrlen ok =
    let tempo = i64 (s.tempo +ℤ pos 1) in
    let rep : Request = record {
      rec = s.token.valor;
      cod = reply_allow;
      tempo = i32 (resto tempo int_max);
      pid = pid;
    } in
    let s' = record s { tempo = tempo; rep = rep; token = record (s.token) { flag = i8 pid } } in
    let envio : Envio _ = record {
      datagrama = record { tamanho = sizeof_ponteiro; corpo = rep };
      para = para;
      addrlen = addrlen;
    } in
    if ok then segue s' (envio ∷ []) else termina (negsuc 0) []

-- The queue after `insere`, whose result the server does not look at.
unfoldable pub enfileira :
    {C : Type 0} → Servidor C → Option (Sfila (Sitem C) × Bool) → Passo (Servidor C) (Envio C)
enfileira s none = falha []
enfileira s (some (fila, _)) = segue (record s { fila = fila }) []

-- The branch of REQUEST_TOKEN.
unfoldable pub trata_request :
    {C : Type 0} → Servidor C → C → ℕ → Bool → Passo (Servidor C) (Envio C)
unfolding responde enfileira
trata_request s caddr addrlen ok =
    if s.token.flag ==ℤ negsuc 0
    then responde s s.req.pid caddr addrlen ok
    else enfileira s (
        insere s.fila
          (record { pid = s.req.pid; tempo = s.req.tempo; addrlen = addrlen; caddr = caddr }))

-- The token goes to the client that `removeItem` took out.
unfoldable pub atende :
    {C : Type 0}
    → Servidor C
    → Sfila (Sitem C) × Option (Sitem C)
    → Bool
    → Passo (Servidor C) (Envio C)
unfolding responde
atende s (fila, none) ok = falha []
atende s (fila, some cliente) ok =
    responde (record s { fila = fila }) cliente.pid cliente.caddr cliente.addrlen ok

-- `Token.valor = req->rec; Token.flag = -1;`
abbrev pub devolvido : {C : Type 0} → Servidor C → Servidor C
devolvido s = record s { token = record { flag = negsuc 0; valor = s.req.rec } }

-- The branch of RELEASE_TOKEN.
unfoldable pub trata_release : {C : Type 0} → Servidor C → Bool → Passo (Servidor C) (Envio C)
unfolding atende
trata_release s ok =
    if s.fila.tamanho == 0
    then segue (devolvido s) []
    else atende (devolvido s) (remove_item s.fila) ok

unfoldable pub despacha : {C : Type 0} → Servidor C → C → ℕ → Bool → Passo (Servidor C) (Envio C)
unfolding trata_request trata_release
despacha s caddr addrlen ok =
    if s.req.cod ==ℤ request_token
    then trata_request s caddr addrlen ok
    else (if s.req.cod ==ℤ release_token then trata_release s ok else segue s [])

-- The state after `recvfrom`, the clock's update and the filling of the ACK.
unfoldable pub recebida : {C : Type 0} → Servidor C → Datagrama → Servidor C
unfolding relogio
recebida s d =
    let req = recebe d s.req in
    let tempo = relogio s.tempo req.tempo in
    record s {
      req = req;
      tempo = tempo;
      ack_buf = record { rec = s.ack_buf.rec; cod = ack; tempo = i32 tempo; pid = req.pid };
    }

-- The `sendto` of the ACK: the whole structure, back to the sender.
abbrev pub envio_ack : {C : Type 0} → Servidor C → C → ℕ → Envio C
envio_ack s caddr addrlen = record {
  datagrama = record { tamanho = sizeof_request; corpo = s.ack_buf };
  para = caddr;
  addrlen = addrlen;
}

-- The round from the sending of the ACK on.
unfoldable pub processa :
    {C : Type 0} → Servidor C → C → ℕ → Bool → Bool → Passo (Servidor C) (Envio C)
unfolding despacha
processa s caddr addrlen ack_ok rep_ok =
    if ack_ok
    then antes (envio_ack s caddr addrlen ∷ []) (despacha s caddr addrlen rep_ok)
    else termina (negsuc 0) []

-- One round of `while (1)`.
unfoldable pub itera : {C : Type 0} → Servidor C → Entrada C → Passo (Servidor C) (Envio C)
unfolding recebida processa
itera s e = elim e.chegada [
  | none ↦ termina (negsuc 0) []
  | some (d, caddr, addrlen) ↦ processa (recebida s d) caddr addrlen e.ack_ok e.rep_ok
]

-- The loop, for as long as the environment has inputs.
unfoldable pub executa : {C : Type 0} → Servidor C → List (Entrada C) → Passo (Servidor C) (Envio C)
executa s [] = segue s []
executa s (e ∷ es) = em_seguida (itera s e) (λ s'. executa s' es)

-- The variables before the loop. The three messages come from `malloc`, with any contents.
unfoldable pub inicio : {C : Type 0} → Request → Request → Request → Servidor C
inicio req ack_buf rep = record {
  tempo = pos 0;
  fila = init 10;
  token = record { flag = negsuc 0; valor = pos 30 };
  req = req;
  ack_buf = ack_buf;
  rep = rep;
}

-- `main`, with the outcomes of `socket` and `bind` and the contents of the three buffers.
unfoldable pub main :
    {C : Type 0}
    → ℕ
    → Bool
    → Bool
    → Request
    → Request
    → Request
    → List (Entrada C)
    → Passo (Servidor C) (Envio C)
unfolding executa inicio
main argc socket_ok bind_ok req ack_buf rep es =
    if argc == 2
    then (if socket_ok
        then (if bind_ok then executa (inicio req ack_buf rep) es else termina (negsuc 0) [])
        else termina (negsuc 0) [])
    else termina (pos 0) []
