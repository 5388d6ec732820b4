-- ===== src/Netkit/Sistema.antt =====
-- The server and any number of clients of LAB2-NETKIT over a network that loses and reorders
-- datagrams, but neither copies nor invents them. Client `i` has the address `i`. A round whose
-- `sendto` or `recvfrom` fails ends its program: for the others it is as if the datagram were lost
-- and the program took no further step.
pub mod LadoCliente
mod Enviadas
pub mod LadoServidor
pub mod Passos
pub mod Ficha
pub mod Pendencia
pub mod Tipos
pub mod Valor
pub mod Somas
mod Exemplos
use unifesp_sd.Base.{
  ℕ, zero, suc, ◌+◌, ◌≡◌, Bool, true, false, Option, none, some, List, [], ◌∷◌, ◌++◌, map, ◌==◌,
  if◌then◌else◌, arith, refl,
}
use unifesp_sd.Base.Int.{ℤ, ◌==ℤ◌}
use unifesp_sd.Netkit.Mensagem.{Request, release_token, reply_allow, Datagrama, segue}
use unifesp_sd.Netkit.Servidor.{Servidor, Envio}
use unifesp_sd.Netkit.Servidor
use unifesp_sd.Netkit.Servidor.Invariante.{livre}
use unifesp_sd.Netkit.Cliente.{Cliente, pedindo, esperando}
use unifesp_sd.Netkit.Cliente
use unifesp_sd.Netkit.Coordenador.Refina.{entrega}
use unifesp_sd.Netkit.Coordenador.Corrida.{Recado}

-- Both programs and the datagrams under way.
pub record Sistema : Type 0 where
  pub servidor : Servidor ℕ
  pub clientes : ℕ → Cliente
  pub ao_servidor : List (Recado ℕ)
  pub aos_clientes : List (ℕ × Datagrama)

abbrev pub troca : (ℕ → Cliente) → ℕ → Cliente → ℕ → Cliente
troca f i c j = if i == j then c else f j

-- What client `i` sends, with its address.
abbrev pub de_cliente : ℕ → Datagrama → Recado ℕ
de_cliente i d = (d, i, 16)

abbrev pub de_servidor : Envio ℕ → ℕ × Datagrama
de_servidor e = (e.para, e.datagrama)

-- The rounds of a client: the request, and the receipt of a datagram.
abbrev pub ao_pedir : Cliente.Entrada
ao_pedir = record { chegada = none; envio_ok = true }

abbrev pub ao_receber : Datagrama → Cliente.Entrada
ao_receber d = record { chegada = some d; envio_ok = true }

-- A step, with the number of datagrams that it loses.
pub data Anda (s : Sistema) : ℕ → Sistema → Type 0 where
  pede :
      (i : ℕ) {c : Cliente} {ms : List Datagrama}
      → (s.clientes i).fase ≡ pedindo
      → Cliente.itera (s.clientes i) ao_pedir ≡ segue c ms
      → Anda s 0 (record s {
        clientes = troca s.clientes i c;
        ao_servidor = s.ao_servidor ++ map (de_cliente i) ms;
      })
  recebe :
      (i : ℕ) (d : Datagrama) (xs ys : List (ℕ × Datagrama)) {c : Cliente} {ms : List Datagrama}
      → s.aos_clientes ≡ xs ++ (i, d) ∷ ys
      → (s.clientes i).fase ≡ esperando
      → Cliente.itera (s.clientes i) (ao_receber d) ≡ segue c ms
      → Anda s 0 (record s {
        clientes = troca s.clientes i c;
        ao_servidor = s.ao_servidor ++ map (de_cliente i) ms;
        aos_clientes = xs ++ ys;
      })
  serve :
      (d : Datagrama) (i n : ℕ) (xs ys : List (Recado ℕ)) {t : Servidor ℕ} {ms : List (Envio ℕ)}
      → s.ao_servidor ≡ xs ++ (d, i, n) ∷ ys
      → Servidor.itera s.servidor (entrega d i n) ≡ segue t ms
      → Anda s 0 (record s {
        servidor = t;
        ao_servidor = xs ++ ys;
        aos_clientes = s.aos_clientes ++ map de_servidor ms;
      })
  perde_pedido :
      (r : Recado ℕ) (xs ys : List (Recado ℕ))
      → s.ao_servidor ≡ xs ++ r ∷ ys
      → Anda s 1 (record s { ao_servidor = xs ++ ys })
  perde_resposta :
      (r : ℕ × Datagrama) (xs ys : List (ℕ × Datagrama))
      → s.aos_clientes ≡ xs ++ r ∷ ys
      → Anda s 1 (record s { aos_clientes = xs ++ ys })

-- The states that are reached, with the number of datagrams lost on the way.
pub data Alcanca (s : Sistema) : ℕ → Sistema → Type 0 where
  aqui : Alcanca s 0 s
  mais : {n k m : ℕ} {t u : Sistema} → Alcanca s n t → Anda t k u → m ≡ n + k → Alcanca s m u

-- The sum of a weight over a list.
abbrev pub soma {ℓ} : {A : Type ℓ} → (A → ℕ) → List A → ℕ
soma w [] = 0
soma w (x ∷ xs) = w x + soma w xs

pub soma-append {ℓ} :
    {A : Type ℓ} (w : A → ℕ) (xs ys : List A) → soma w (xs ++ ys) ≡ soma w xs + soma w ys
soma-append w [] ys = omega arith
soma-append w (x ∷ xs) ys = omega (arith, soma-append w xs ys)

-- One entry and the others.
pub soma-sem {ℓ} :
    {A : Type ℓ} (w : A → ℕ) (xs : List A) (x : A) (ys : List A)
    → soma w (xs ++ x ∷ ys) ≡ w x + soma w (xs ++ ys)
soma-sem w [] x ys = refl
soma-sem w (z ∷ xs) x ys = omega (arith, soma-sem w xs x ys)

abbrev pub peso_livre : Bool → ℕ
peso_livre b = if b then 1 else 0

-- 1 for a RELEASE_TOKEN, 1 for a REPLY_ALLOW.
abbrev pub peso_devolucao : Datagrama → ℕ
peso_devolucao d = if d.corpo.cod ==ℤ release_token then 1 else 0

abbrev pub peso_resposta : Datagrama → ℕ
peso_resposta d = if d.corpo.cod ==ℤ reply_allow then 1 else 0

-- The tokens of a system: in the server, on the way back to it, and on the way to a client.
abbrev pub fichas : Sistema → ℕ
fichas s =
    peso_livre (livre s.servidor)
    + soma (λ r. peso_devolucao r.0) s.ao_servidor
    + soma (λ r. peso_resposta r.1) s.aos_clientes
