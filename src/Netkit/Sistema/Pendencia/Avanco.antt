-- ===== src/Netkit/Sistema/Pendencia/Avanco.antt =====
-- What a step of the system may do to what the clients wait for.
use unifesp_sd.Base.{ℕ, ◌+◌, ◌≤◌, ◌≡◌, ◌⊎◌, inl, List, ◌∷◌, ◌++◌, arith, All}
use unifesp_sd.Base.Int.{ℤ}
use unifesp_sd.Netkit.Mensagem.{Datagrama}
use unifesp_sd.Netkit.Coordenador.Corrida.{Recado}
use unifesp_sd.Netkit.Sistema.{Sistema}
use unifesp_sd.Netkit.Sistema.Pendencia.{peso_pedido, pendencias, espera_de}
use unifesp_sd.Netkit.Sistema.Pendencia.LadoServidor.{Recusa, Identifica, Recibos}

-- Every message and every entry of the queue carries the PID of the client that it names.
pub record Identificado (pid : ℕ → ℤ) (s : Sistema) : Type 0 where
  pub clientes : (i : ℕ) → (s.clientes i).pid ≡ pid i
  pub pedidos : All (λ r. r.0.corpo.pid ≡ pid r.1) s.ao_servidor
  pub fila : Identifica pid s.servidor.fila.head
  pub recibos : Recibos pid s.aos_clientes

-- A request is on the way to a server that refuses it.
pub record Recusou (s : Sistema) : Type 0 where
  pub d : Datagrama
  pub j : ℕ
  pub n : ℕ
  pub xs : List (Recado ℕ)
  pub ys : List (Recado ℕ)
  pub caminho : s.ao_servidor ≡ xs ++ (d, j, n) ∷ ys
  pub pede : peso_pedido d ≡ 1
  pub motivo : Recusa d.corpo.pid s.servidor.fila.head

-- A step from `s` to `t` that loses `k` datagrams keeps what each client waits for and whether it
-- waits in balance, unless a datagram is lost or a request refused; then a client waits for less.
pub record Avanca (pid : ℕ → ℤ) (s : Sistema) (k : ℕ) (t : Sistema) : Type 0 where
  pub valido : Identificado pid t
  pub menos : (i : ℕ) → pendencias i t + espera_de i s ≤ pendencias i s + espera_de i t
  pub conta :
      ((i : ℕ) → pendencias i t + espera_de i s ≡ pendencias i s + espera_de i t)
      ⊎ ((1 ≤ k) ⊎ Recusou s)

pub Avanca-justa :
    (pid : ℕ → ℤ) (s : Sistema) (k : ℕ) (t : Sistema)
    → Identificado pid t
    → ((i : ℕ) → pendencias i t + espera_de i s ≡ pendencias i s + espera_de i t)
    → Avanca pid s k t
Avanca-justa pid s k t v f = record {
  valido = v;
  menos = λ i. let e = f i in omega arith;
  conta = inl f;
}
