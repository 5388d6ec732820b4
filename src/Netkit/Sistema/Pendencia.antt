-- ===== src/Netkit/Sistema/Pendencia.antt =====
-- What a client of the system waits for: its request on the way, its place in the queue, or the reply
-- on the way to it.
mod LadoCliente
mod LadoServidor
mod Avanco
mod Passos
pub mod Espera
mod Rodadas
pub mod Vez
pub mod Poucos
mod Exemplos
use unifesp_sd.Base.{
  ℕ, ◌+◌, ◌≡◌, refl, ap, ◌∙◌, List, [], ◌∷◌, ◌++◌, map, arith, ◌==◌, if◌then◌else◌,
}
use unifesp_sd.Base.Int.{ℤ, ◌==ℤ◌}
use unifesp_sd.Netkit.Mensagem.{Datagrama, request_token}
use unifesp_sd.Netkit.Servidor.{Sitem}
use unifesp_sd.Netkit.Cliente.{Fase, pedindo, esperando}
use unifesp_sd.Netkit.Coordenador.Corrida.{Recado}
use unifesp_sd.Netkit.Sistema.{Sistema, de_cliente, soma, soma-append, soma-sem, peso_resposta}

abbrev pub peso_pedido : Datagrama → ℕ
peso_pedido d = if d.corpo.cod ==ℤ request_token then 1 else 0

-- 1 for what belongs to client `i`: a request from it, an entry of the queue, a reply to it.
abbrev pub pedido_de : ℕ → Recado ℕ → ℕ
pedido_de i r = if i == r.1 then peso_pedido r.0 else 0

abbrev pub lugar_de : ℕ → Sitem ℕ → ℕ
lugar_de i x = if i == x.caddr then 1 else 0

abbrev pub resposta_a : ℕ → ℕ × Datagrama → ℕ
resposta_a i r = if i == r.0 then peso_resposta r.1 else 0

abbrev pub pendencias : ℕ → Sistema → ℕ
pendencias i s =
    soma (pedido_de i) s.ao_servidor
    + soma (lugar_de i) s.servidor.fila.head
    + soma (resposta_a i) s.aos_clientes

-- 1 for a client that waits.
abbrev pub peso_fase : Fase → ℕ
peso_fase pedindo = 0
peso_fase esperando = 1

abbrev pub espera_de : ℕ → Sistema → ℕ
espera_de i s = peso_fase (s.clientes i).fase

-- The requests that client `j` sends belong to it.
pub soma-pedido_de :
    (i j : ℕ) (ms : List Datagrama)
    → soma (pedido_de i) (map (de_cliente j) ms) ≡ (if i == j then soma peso_pedido ms else 0)
soma-pedido_de i j [] = ground arith
soma-pedido_de i j (m ∷ ms) = ground (arith, soma-pedido_de i j ms)
