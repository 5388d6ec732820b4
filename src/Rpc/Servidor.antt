-- ===== src/Rpc/Servidor.antt =====
-- LAB07-SD/backup/servidor.c: the procedures `req_1_svc` and `rel_1_svc` over the queue, whose
-- functions are those of Fila at a node with `PID` and `tempo` only.
pub mod Invariante
pub mod Espera
pub mod Devolucao
use unifesp_sd.Base.{
  ℕ, zero, suc, Bool, true, false, Option, none, some, List, [], ◌∷◌, if◌then◌else◌,
}
use unifesp_sd.Base.Int.{ℤ, pos, negsuc, ◌+ℤ◌, ltb_ℤ, ◌==ℤ◌, i32, i64}
use unifesp_sd.Fila.{Chave, Sfila, init, insere, remove_item}
use unifesp_sd.Rpc.Mensagem.{RequestIn, Release, ReplyOut}

pub record Sitem : Type 0 where
  pub pid : ℤ
  pub tempo : ℤ

instance abbrev pub sitem_chave : Chave Sitem
sitem_chave = record { pid = λ i. i.pid; tempo = λ i. i.tempo }

-- `insere` takes its arguments as `int`.
abbrev pub novo_item : ℤ → ℤ → Sitem
novo_item pid tempo = record { pid = i32 pid; tempo = i32 tempo }

unfoldable pub insere_int : Sfila Sitem → ℤ → ℤ → Option (Sfila Sitem × Bool)
insere_int fila pid tempo = insere fila (novo_item pid tempo)

-- The static variables `TEMPO`, `fila` (NULL at first) and `TOKEN`.
pub record Servidor : Type 0 where
  pub tempo : ℤ
  pub fila : Option (Sfila Sitem)
  pub token : ℤ

unfoldable pub inicio : Servidor
inicio = record { tempo = pos 0; fila = none; token = negsuc 0 }

-- `if(!fila) fila = init(10);`
unfoldable pub aberta : Option (Sfila Sitem) → Sfila Sitem
aberta none = init 10
aberta (some fila) = fila

-- How the `while` of `req_1_svc` stands: left, still turning, or at a NULL.
pub data Volta : Type 0 where
  saiu girando nulo : Volta

-- That `while`, for the turns that are given. Nothing changes in a turn.
unfoldable pub aguarda : ℕ → List Sitem → ℤ → Volta
aguarda zero head pid = girando
aguarda (suc k) [] pid = nulo
aguarda (suc k) (x ∷ xs) pid = elim (x.pid ==ℤ pid) [ true ↦ saiu | false ↦ aguarda k (x ∷ xs) pid ]

-- A call returns a new state and its result, is still in the loop, or has undefined behaviour.
pub data Chamada (A : Type 0) : Type 0 where
  retorna : Servidor → A → Chamada A
  presa : Servidor → Chamada A
  falha : Chamada A

-- What follows the loop.
unfoldable pub concede : Volta → Servidor → RequestIn → Chamada ReplyOut
concede saiu s req =
    let tempo = i64 (s.tempo +ℤ pos 1) in
    retorna (record s { tempo = tempo })
      (record { pid_c = req.pid_c; tempo_s = tempo; recurso = s.token })
concede girando s req = presa s
concede nulo s req = falha

-- `req_1_svc` once its request was inserted.
unfoldable pub espera_vez :
    ℕ → Servidor → RequestIn → Option (Sfila Sitem × Bool) → Chamada ReplyOut
unfolding aguarda concede
espera_vez k s req none = falha
espera_vez k s req (some (fila, _)) =
    concede (aguarda k fila.head req.pid_c) (record s { fila = some fila }) req

unfoldable pub req_1_svc : ℕ → Servidor → RequestIn → Chamada ReplyOut
unfolding insere_int aberta espera_vez
req_1_svc k s req = espera_vez k s req (insere_int (aberta s.fila) req.pid_c req.tempo_c)

-- `TEMPO > rel_in->tempo_c ? (TEMPO + 1) : (rel_in->tempo_c + 1)`
unfoldable pub relogio : ℤ → ℤ → ℤ
relogio tempo recebido =
    if ltb_ℤ recebido tempo then i64 (tempo +ℤ pos 1) else i64 (recebido +ℤ pos 1)

-- `if(fila) removeItem(fila);`
unfoldable pub retira : Option (Sfila Sitem) → Option (Sfila Sitem)
retira none = none
retira (some fila) = some (remove_item fila).0

-- The result is always 1.
unfoldable pub rel_1_svc : Servidor → Release → Servidor × ℤ
unfolding relogio retira
rel_1_svc s rel = (
  record { tempo = relogio s.tempo rel.tempo_c; fila = retira s.fila; token = rel.recurso_n },
  pos 1,
)
