-- ===== src/Netkit/Sistema/Somas.antt =====
-- The signed sums of the two programs of LAB2-NETKIT: in a run that is not too long none leaves its
-- type. C leaves a sum that does undefined.
mod LadoCliente
pub mod Passos
use unifesp_sd.Base.{ℕ, zero, suc, ◌+◌, ◌≤◌, ◌≡◌, List, All}
use unifesp_sd.Base.Int.{ℤ, pos, pos_part, neg_part, ◌+ℤ◌, i32, resto, IsCurto}
use unifesp_sd.Netkit.Mensagem.{Datagrama, int_max}
use unifesp_sd.Netkit.Mensagem
use unifesp_sd.Netkit.Cliente.{Cliente}
use unifesp_sd.Netkit.Coordenador.Corrida.{Recado}
use unifesp_sd.Netkit.Sistema.{Sistema, Alcanca, aqui, mais}

-- The steps of a run.
abbrev pub passos : {s t : Sistema} {n : ℕ} → Alcanca s n t → ℕ
passos aqui = 0
passos (mais r st e) = suc (passos r)

-- The operands of `TEMPO+1`, of the `++TEMPO` after it and of `resp->rec + 1`, where a client takes
-- `d` for the token.
pub record SomasDaResposta (c : Cliente) (d : Datagrama) : Type 0 where
  pub recebido : IsCurto c.tempo
  pub tique : IsCurto (resto (i32 (c.tempo +ℤ pos 1)) int_max)
  pub rec : IsCurto (Mensagem.recebe d c.resp).rec

-- A clock between 0 and `b`.
pub record Ate (b : ℕ) (z : ℤ) : Type 0 where
  pub acima : pos_part z ≤ b
  pub abaixo : neg_part z ≡ 0

-- The clients' clocks are `b` at most, and those of their messages have a successor.
pub record Relogios (b : ℕ) (s : Sistema) : Type 0 where
  pub clientes : (i : ℕ) → Ate b (s.clientes i).tempo
  pub pedidos : All (λ (r : Recado ℕ). IsCurto r.0.corpo.tempo) s.ao_servidor
