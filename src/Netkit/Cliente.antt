-- ===== src/Netkit/Cliente.antt =====
-- LAB2-NETKIT/cliente.c: `main` and its two loops. A round is either the request at the top of the
-- outer loop, or one turn of the inner loop, which waits for an answer. What the environment does
-- in a round is the datagram that `recvfrom` delivers and whether `sendto` succeeds. A sum that
-- overflows, which C leaves undefined, wraps here; Netkit.Sistema.Somas says where none does.
pub mod Envios
use unifesp_sd.Base.{Bool, Option, none, some, List, [], ◌∷◌, ◌==◌, ℕ, if◌then◌else◌}
use unifesp_sd.Base.Int.{ℤ, pos, negsuc, ◌+ℤ◌, ltb_ℤ, ◌==ℤ◌, i8, i32, resto}
use unifesp_sd.Netkit.Mensagem.{
  request_token, release_token, reply_allow, ack, int_max, Request, sizeof_request, Datagrama,
  recebe, Passo, segue, termina, falha, em_seguida,
}

-- Where the program stands: at the top of the outer loop, or of the inner one.
pub data Fase : Type 0 where
  pedindo : Fase
  esperando : Fase

pub record Cliente : Type 0 where
  pub fase : Fase
  pub pid : ℤ
  pub tempo : ℤ
  pub aguardar : ℤ
  pub req : Request
  pub resp : Request

pub record Entrada : Type 0 where
  pub chegada : Option Datagrama
  pub envio_ok : Bool

-- A `sendto` of the whole request, to the server.
abbrev pub inteira : Request → Datagrama
inteira r = record { tamanho = sizeof_request; corpo = r }

-- The outer loop up to the inner one.
unfoldable pub pede : Cliente → Bool → Passo Cliente Datagrama
pede c ok =
    let tempo = i32 (c.tempo +ℤ pos 1) in
    let req : Request = record {
      rec = negsuc 0;
      cod = request_token;
      tempo = resto tempo int_max;
      pid = c.pid;
    } in
    if ok
    then segue (record c { fase = esperando; tempo = tempo; req = req }) (inteira req ∷ [])
    else termina (negsuc 0) []

-- The branch of ACK: `aguardar` is a `char`.
unfoldable pub trata_ack : Cliente → Passo Cliente Datagrama
trata_ack c =
    let aguardar = i8 (c.aguardar +ℤ pos 1) in
    if c.resp.pid ==ℤ c.pid
    then segue c []
    else (if ltb_ℤ (pos 3) aguardar
        then segue (record c { fase = pedindo; aguardar = aguardar }) []
        else segue (record c { aguardar = aguardar }) [])

-- The branch of REPLY_ALLOW: the token's value grows by one and goes back. `rand()%PID` at the end
-- divides by zero for a client with PID 0.
unfoldable pub trata_reply : Cliente → Bool → Passo Cliente Datagrama
trata_reply c ok =
    let recebido = resto (i32 (c.tempo +ℤ pos 1)) int_max in
    let tempo = i32 (recebido +ℤ pos 1) in
    let resp = record (c.resp) { rec = i32 (c.resp.rec +ℤ pos 1) } in
    let req : Request = record {
      rec = resp.rec;
      cod = release_token;
      tempo = resto tempo int_max;
      pid = c.pid;
    } in
    let c' = record c { fase = pedindo; tempo = tempo; aguardar = pos 0; req = req; resp = resp } in
    if ok
    then (if c.pid ==ℤ pos 0 then falha (inteira req ∷ []) else segue c' (inteira req ∷ []))
    else termina (negsuc 0) []

-- What the inner loop does with the message in `resp`.
unfoldable pub despacha : Cliente → Bool → Passo Cliente Datagrama
unfolding trata_ack trata_reply
despacha c ok =
    if c.resp.cod ==ℤ ack
    then trata_ack c
    else (if c.resp.cod ==ℤ reply_allow then trata_reply c ok else segue c [])

-- One turn of the inner loop.
unfoldable pub espera : Cliente → Entrada → Passo Cliente Datagrama
unfolding despacha
espera c e = elim e.chegada [
  | none ↦ termina (negsuc 0) []
  | some d ↦ despacha (record c { resp = recebe d c.resp }) e.envio_ok
]

unfoldable pub itera : Cliente → Entrada → Passo Cliente Datagrama
unfolding pede espera
itera c e = elim c.fase [ pedindo ↦ pede c e.envio_ok | esperando ↦ espera c e ]

unfoldable pub executa : Cliente → List Entrada → Passo Cliente Datagrama
executa c [] = segue c []
executa c (e ∷ es) = em_seguida (itera c e) (λ c'. executa c' es)

-- The variables before the loop; `pid` is `atoi(argv[3])`, and the buffers come from `malloc`.
unfoldable pub inicio : ℤ → Request → Request → Cliente
inicio pid req resp = record {
  fase = pedindo;
  pid = pid;
  tempo = pos 0;
  aguardar = pos 0;
  req = req;
  resp = resp;
}

-- `main`, with the outcome of `socket`.
unfoldable pub main : ℕ → Bool → ℤ → Request → Request → List Entrada → Passo Cliente Datagrama
unfolding executa inicio
main argc socket_ok pid req resp es =
    if argc == 4
    then (if socket_ok then executa (inicio pid req resp) es else termina (negsuc 0) [])
    else termina (pos 0) []
