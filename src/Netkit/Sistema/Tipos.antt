-- ===== src/Netkit/Sistema/Tipos.antt =====
-- The ranges of the C types in LAB2-NETKIT: which variables and fields are `char`, `int` and `long`.
mod LadoCliente
mod LadoServidor
pub mod Passos
use unifesp_sd.Base.{ℕ, ◌-◌, ◌^◌, ◌≤◌, List, arith, All}
use unifesp_sd.Base.Int.{ℤ, pos, negsuc, pos_part, neg_part, i8, i64, trunca, IsInt}
use unifesp_sd.Netkit.Mensagem.{Request, Datagrama, Passo, segue, termina, falha}
use unifesp_sd.Netkit.Servidor.{Servidor, Sitem}
use unifesp_sd.Netkit.Cliente.{Cliente}
use unifesp_sd.Netkit.Coordenador.Corrida.{Recado}
use unifesp_sd.Netkit.Sistema.{Sistema}

-- A value of a `char`, and of a `long`.
pub record IsChar (z : ℤ) : Type 0 where
  pub acima : pos_part z ≤ 127
  pub abaixo : neg_part z ≤ 128

pub record IsLongo (z : ℤ) : Type 0 where
  pub acima : pos_part z ≤ 2 ^ 63 - 1
  pub abaixo : neg_part z ≤ 2 ^ 63

pub i8-IsChar : (z : ℤ) → IsChar (i8 z)
unfolding trunca
i8-IsChar (pos n) = record { acima = ground arith; abaixo = ground arith }
i8-IsChar (negsuc n) = record { acima = ground arith; abaixo = ground arith }

pub zero-IsChar : IsChar (pos 0)
zero-IsChar = record { acima = omega arith; abaixo = omega arith }

pub i64-IsLongo : (z : ℤ) → IsLongo (i64 z)
unfolding trunca
i64-IsLongo (pos n) = record { acima = ground arith; abaixo = ground arith }
i64-IsLongo (negsuc n) = record { acima = ground arith; abaixo = ground arith }

pub IsInt-IsLongo : (z : ℤ) → IsInt z → IsLongo z
IsInt-IsLongo z h = record { acima = omega (arith, h.acima); abaixo = omega (arith, h.abaixo) }

-- `struct request`: `cod` is a `char`, the others are `int`s.
pub record IsRequest (r : Request) : Type 0 where
  pub rec : IsInt r.rec
  pub cod : IsChar r.cod
  pub tempo : IsInt r.tempo
  pub pid : IsInt r.pid

pub record IsItem (x : Sitem ℕ) : Type 0 where
  pub pid : IsInt x.pid
  pub tempo : IsInt x.tempo

-- The server: `long TEMPO`, `Token` with a `char` and an `int`, the queue, and three messages.
pub record TiposServidor (s : Servidor ℕ) : Type 0 where
  pub tempo : IsLongo s.tempo
  pub fila : All IsItem s.fila.head
  pub flag : IsChar s.token.flag
  pub valor : IsInt s.token.valor
  pub req : IsRequest s.req
  pub ack_buf : IsRequest s.ack_buf
  pub rep : IsRequest s.rep

-- A client: `int TEMPO, PID`, `char aguardar`, and two messages.
pub record TiposCliente (c : Cliente) : Type 0 where
  pub pid : IsInt c.pid
  pub tempo : IsInt c.tempo
  pub aguardar : IsChar c.aguardar
  pub req : IsRequest c.req
  pub resp : IsRequest c.resp

-- The messages on their way.
abbrev pub PedidosTipados : List (Recado ℕ) → Type 0
PedidosTipados = All (λ r. IsRequest r.0.corpo)

abbrev pub RespostasTipadas : List (ℕ × Datagrama) → Type 0
RespostasTipadas = All (λ r. IsRequest r.1.corpo)

pub record Tipos (s : Sistema) : Type 0 where
  pub servidor : TiposServidor s.servidor
  pub clientes : (i : ℕ) → TiposCliente (s.clientes i)
  pub ao_servidor : PedidosTipados s.ao_servidor
  pub aos_clientes : RespostasTipadas s.aos_clientes

-- What a round that goes on leaves.
abbrev pub Deixa : {S M : Type 0} → (S → List M → Type 0) → Passo S M → Type 0
Deixa P (segue s ms) = P s ms
Deixa P (termina c ms) = Unit
Deixa P (falha ms) = Unit
