-- ===== src/SemMutex.antt =====
-- The procedures of LAB07-SD/backup2-sem-M/servidor.c, whose queue lies on the heap. The queue
-- functions are those of Lista: the file's lines 13-96 are those of LAB07-SD/servidor.c. `consumidor`,
-- which nothing calls, uses a type that the file does not declare, and is left out. What `malloc`
-- returns for a node, an address and what lies there, is an argument.
pub mod Refina
pub mod Corrida
mod Exemplos
use unifesp_sd.Base.{ℕ, zero, suc, Bool, true, false, Option, none, some, if◌then◌else◌}
use unifesp_sd.Base.Int.{ℤ, pos, negsuc, ◌+ℤ◌, ltb_ℤ, ◌==ℤ◌, i32, i64}
use unifesp_sd.Lista.{Lista, init, insere, remove_item}
use unifesp_sd.Lista.Memoria.{Ponteiro, No, Comando, devolve, ◌>>=◌, le}
use unifesp_sd.Rpc.Mensagem.{RequestIn, Release, ReplyOut}
use unifesp_sd.Rpcgen.Ponteiro.{Execucao, retorna, presa}

-- The static variables `TEMPO`, `fila` (NULL at first) and `TOKEN`.
pub record Servidor : Type 0 where
  pub tempo : ℤ
  pub fila : Option Lista
  pub token : ℤ

unfoldable pub inicio : Servidor
inicio = record { tempo = pos 0; fila = none; token = negsuc 0 }

-- `if(!fila) fila = init(10);`
unfoldable pub aberta : Option Lista → Lista
aberta none = init 10
aberta (some fila) = fila

-- The `while` of `req_1_svc`, for the turns that are given: was it left?
unfoldable pub aguarda : ℕ → Lista → ℤ → Comando Bool
aguarda zero fila pid = devolve false
aguarda (suc k) fila pid = do
  primeiro ← le fila.head
  if primeiro.pid ==ℤ pid then devolve true else aguarda k fila pid

-- What follows the loop. `rep_out` is static.
unfoldable pub concede : Bool → Servidor → RequestIn → Execucao Servidor ReplyOut
concede true s req =
    let tempo = i64 (s.tempo +ℤ pos 1) in
    retorna (record s { tempo = tempo })
      (some (record { pid_c = req.pid_c; tempo_s = tempo; recurso = s.token }))
concede false s req = presa s

-- `novo` and `lixo` are what `malloc` gives to `insere`, whose arguments are `int`.
unfoldable pub req_1_svc :
    ℕ → Ponteiro → No → Servidor → RequestIn → Comando (Execucao Servidor ReplyOut)
req_1_svc k novo lixo s req = do
  (entrou, fila) ← insere novo lixo (aberta s.fila) (i32 req.pid_c) (i32 req.tempo_c)
  saiu ← aguarda k fila req.pid_c
  devolve (concede saiu (record s { fila = some fila }) req)

-- `TEMPO > rel_in->tempo_c ? (TEMPO + 1) : (rel_in->tempo_c + 1)`
unfoldable pub relogio : ℤ → ℤ → ℤ
relogio tempo recebido =
    if ltb_ℤ recebido tempo then i64 (tempo +ℤ pos 1) else i64 (recebido +ℤ pos 1)

-- `if(fila)removeItem(fila);`, where `item` and `lixo` are what `malloc` gives to `removeItem`. The
-- copy that it returns is dropped.
unfoldable pub retira : Ponteiro → No → Option Lista → Comando (Option Lista)
retira item lixo none = devolve none
retira item lixo (some fila) = do (copia, fila) ← remove_item item lixo fila; devolve (some fila)

-- The result is 1.
unfoldable pub rel_1_svc : Ponteiro → No → Servidor → Release → Comando (Servidor × ℤ)
rel_1_svc item lixo s rel = do
  fila ← retira item lixo s.fila
  devolve
      (record { tempo = relogio s.tempo rel.tempo_c; fila = fila; token = rel.recurso_n }, pos 1)
