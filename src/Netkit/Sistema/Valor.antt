-- ===== src/Netkit/Sistema/Valor.antt =====
-- The value of the token in the system of LAB2-NETKIT: each client that has it adds one.
pub mod LadoCliente
mod LadoServidor
mod Passos
pub mod Usos
use unifesp_sd.Base.{
  ℕ, ◌+◌, ◌-◌, ◌^◌, ◌≤◌, ◌≡◌, ◌≢◌, refl, ap, subst, ◌∙◌, sym, inl, inr, true, false, Option, none,
  some, List, [], ◌∷◌, ◌++◌, map, arith, All, All-append, All-sem, Bool-cases, leb, ◌==◌,
  if◌then◌else◌,
}
use unifesp_sd.Base.Int.{ℤ, pos, ◌+ℤ◌, ◌==ℤ◌, ==ℤ_iff, i32, i32-eq_of_IsInt}
use unifesp_sd.Netkit.Mensagem.{
  Request, request_token, release_token, reply_allow, ack, Datagrama, recebe-cod, Passo, segue,
}
use unifesp_sd.Netkit.Mensagem
use unifesp_sd.Netkit.Servidor.{Servidor, Envio}
use unifesp_sd.Netkit.Servidor
use unifesp_sd.Netkit.Servidor.Invariante.{IsPid, IsInteira, livre}
use unifesp_sd.Netkit.Cliente.{Cliente, pedindo, esperando, trata_reply, espera}
use unifesp_sd.Netkit.Cliente
use unifesp_sd.Netkit.Coordenador.{
  Coordenador, Evento, pedido, devolucao, outro, Concessao, Passa, concede, aguarda, recusa,
  repassa, guarda, ignora,
}
use unifesp_sd.Netkit.Coordenador.Refina.{
  Refina, refina, itera-Refina, evento, entrega, concedidas, lista,
}
use unifesp_sd.Netkit.Coordenador.Corrida.{Recado}
use unifesp_sd.Netkit.Sistema.{
  Sistema, troca, de_cliente, de_servidor, ao_receber, Anda, pede, recebe, serve, perde_pedido,
  perde_resposta, Alcanca, aqui, mais, soma, soma-sem, peso_livre, peso_devolucao, peso_resposta,
  fichas,
}
use unifesp_sd.Netkit.Sistema.LadoCliente.{IsCliente, Rodada, rodada, pede-Rodada, recebe-Rodada}
use unifesp_sd.Netkit.Sistema.Passos.{IsSistema}
use unifesp_sd.Netkit.Sistema.Ficha.{partida, partida-Conserva, uma_ficha}
use unifesp_sd.Netkit.Sistema.Tipos.{Deixa}

-- 1 for a step in which a client receives the token.
abbrev pub uso : {s t : Sistema} {k : ℕ} → Anda s k t → ℕ
uso (pede i p run) = 0
uso (recebe i d xs ys e p run) = peso_resposta d
uso (serve d i n xs ys e run) = 0
uso (perde_pedido r xs ys e) = 0
uso (perde_resposta r xs ys e) = 0

abbrev pub usos : {s t : Sistema} {n : ℕ} → Alcanca s n t → ℕ
usos aqui = 0
usos (mais r st e) = usos r + uso st

-- The value `v` after `u` receipts, of one step.
abbrev pub depois_de : ℤ → ℕ → ℤ
depois_de v u = if u == 0 then v else i32 (v +ℤ pos 1)

-- The messages that carry the token carry `v`.
abbrev pub DevolvemValor : ℤ → List (Recado ℕ) → Type 0
DevolvemValor v = All (λ r. 1 ≤ peso_devolucao r.0 → r.0.corpo.rec ≡ v)

abbrev pub RespondemValor : ℤ → List (ℕ × Datagrama) → Type 0
RespondemValor v = All (λ r. 1 ≤ peso_resposta r.1 → r.1.corpo.rec ≡ v)

-- Where the token is, it has the value `v`.
pub record TemValor (v : ℤ) (s : Sistema) : Type 0 where
  pub servidor : livre s.servidor ≡ true → s.servidor.token.valor ≡ v
  pub devolucoes : DevolvemValor v s.ao_servidor
  pub respostas : RespondemValor v s.aos_clientes

-- A list without weight.
pub sem_peso :
    {A : Type 0} (w : A → ℕ) (P : A → Type 0) (xs : List A)
    → soma w xs ≡ 0
    → All (λ x. 1 ≤ w x → P x) xs
sem_peso w P [] h = tt
sem_peso w P (x ∷ xs) h = ((λ one. absurd (omega arith)), sem_peso w P xs (omega arith))
