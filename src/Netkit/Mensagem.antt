-- ===== src/Netkit/Mensagem.antt =====
-- The messages of LAB2-NETKIT/servidor.c and cliente.c (`struct request`, the same in both), and
-- the datagrams that `sendto` and `recvfrom` move.
use unifesp_sd.Base.{ℕ, ◌≤◌, ◌≡◌, arith, List, ◌++◌, leb, if◌then◌else◌}
use unifesp_sd.Base.Int.{ℤ, pos}

abbrev pub request_token : ℤ
request_token = pos 10

abbrev pub release_token : ℤ
release_token = pos 20

abbrev pub reply_allow : ℤ
reply_allow = pos 30

abbrev pub ack : ℤ
ack = pos 40

abbrev pub int_max : ℕ
int_max = 0x7fff_ffff

pub record Request : Type 0 where
  pub rec : ℤ
  pub cod : ℤ
  pub tempo : ℤ
  pub pid : ℤ

-- `sizeof(struct request)`: `rec` at 0, `cod` at 4, `tempo` at 8, `PID` at 12.
abbrev pub sizeof_request : ℕ
sizeof_request = 16

-- `sizeof(rep)`, where `rep` is a pointer to a request.
abbrev pub sizeof_ponteiro : ℕ
sizeof_ponteiro = 8

-- The first `tamanho` bytes of a request.
pub record Datagrama : Type 0 where
  pub tamanho : ℕ
  pub corpo : Request

-- What `recvfrom` leaves in a buffer that held `antigo`: the fields that lie within the datagram
-- are overwritten, and the others keep their values.
unfoldable pub recebe : Datagrama → Request → Request
recebe d antigo = record {
  rec = if leb 4 d.tamanho then d.corpo.rec else antigo.rec;
  cod = if leb 5 d.tamanho then d.corpo.cod else antigo.cod;
  tempo = if leb 12 d.tamanho then d.corpo.tempo else antigo.tempo;
  pid = if leb 16 d.tamanho then d.corpo.pid else antigo.pid;
}

-- A whole request replaces the buffer.
pub recebe-inteira : (d : Datagrama) (antigo : Request) → 16 ≤ d.tamanho → recebe d antigo ≡ d.corpo
unfolding recebe
recebe-inteira d antigo h = ground arith

pub recebe-cod :
    (d : Datagrama) (antigo : Request) → 5 ≤ d.tamanho → (recebe d antigo).cod ≡ d.corpo.cod
unfolding recebe
recebe-cod d antigo h = ground arith

-- One round of a program's loop, with what it sent: it goes on in a state, returns from `main`
-- with a code, or has undefined behaviour.
pub data Passo (S M : Type 0) : Type 0 where
  segue : S → List M → Passo S M
  termina : ℤ → List M → Passo S M
  falha : List M → Passo S M

-- `ms` is sent before the rest.
abbrev pub antes : {S M : Type 0} → List M → Passo S M → Passo S M
antes ms (segue s ns) = segue s (ms ++ ns)
antes ms (termina c ns) = termina c (ms ++ ns)
antes ms (falha ns) = falha (ms ++ ns)

-- The rounds after one that goes on.
abbrev pub em_seguida : {S M : Type 0} → Passo S M → (S → Passo S M) → Passo S M
em_seguida (segue s ms) f = antes ms (f s)
em_seguida (termina c ms) f = termina c ms
em_seguida (falha ms) f = falha ms

-- What was sent.
abbrev pub enviadas : {S M : Type 0} → Passo S M → List M
enviadas (segue s ms) = ms
enviadas (termina c ms) = ms
enviadas (falha ms) = ms

-- No undefined behaviour, and the states that the loop goes on in satisfy `P`.
pub data Mantem {S M : Type 0} (P : S → List M → Type 0) : Passo S M → Type 0 where
  continua : {s : S} {ms : List M} → P s ms → Mantem P (segue s ms)
  terminou : (c : ℤ) (ms : List M) → Mantem P (termina c ms)
