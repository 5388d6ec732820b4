-- ===== src/Rdict/Atende.antt =====
-- rdict_sif.c and rdict_svc.c in LAB07-SD/thread-RPC.c: the procedures of the service and
-- `serv_request`, which each thread runs for one call. The RPC library's answers (were the
-- arguments decoded, was the reply sent, were the arguments freed) come with the call.
pub mod Respostas
use unifesp_sd.Base.{ℕ, ◌-◌, Bool, false, Option, none, some, List, [], ◌∷◌, ◌==◌, if◌then◌else◌}
use unifesp_sd.Rdict.Dicionario.{Dicionario, Palavra, procura, initw, insertw, deletew, lookupw}

-- The procedures, with the numbers of rdict.x.
pub data Procedimento : Type 0 where
  p_initw p_insertw p_deletew p_lookupw : Procedimento

abbrev pub escolhe : ℕ → Option Procedimento
escolhe n =
    if n == 1
    then some p_initw
    else (if n == 2
        then some p_insertw
        else (if n == 3 then some p_deletew else (if n == 4 then some p_lookupw else none)))

-- `initw_1_svc` and its siblings, which store the result and return TRUE.
unfoldable pub local : Procedimento → Dicionario → Palavra → Option (Dicionario × ℕ)
local p_initw d w = some (initw d)
local p_insertw d w = insertw d w
local p_deletew d w = some (deletew d w)
local p_lookupw d w = some (d, lookupw d w)

pub record Chamada : Type 0 where
  pub proc : ℕ
  pub args : Option Palavra
  pub envio_ok : Bool
  pub free_ok : Bool

-- What the caller gets.
pub data Efeito : Type 0 where
  vazio noproc decode systemerr : Efeito
  resposta : ℕ → Efeito

-- The thread returns, ends the process with code 1, or has undefined behaviour.
pub data Fim : Type 0 where
  volta : Dicionario → List Efeito → Fim
  encerra : Dicionario → List Efeito → Fim
  falha : Fim

-- From the call of the procedure on.
unfoldable pub responde : Chamada → Option (Dicionario × ℕ) → Fim
responde c none = falha
responde c (some (d, r)) =
    let efeitos = if c.envio_ok then resposta r ∷ [] else systemerr ∷ [] in
    if c.free_ok then volta d efeitos else encerra d efeitos

-- The last row holds the word that `deletew` deletes: its `strcpy` copies that row onto itself.
unfoldable pub copia_sobre_si : Procedimento → Dicionario → Palavra → Bool
copia_sobre_si p_deletew d w = elim (procura d.dict w d.nwords 0) [
  | none ↦ false
  | some i ↦ i == d.nwords - 1
]
copia_sobre_si p_initw d w = false
copia_sobre_si p_insertw d w = false
copia_sobre_si p_lookupw d w = false

-- From the decoding of the arguments on.
unfoldable pub chama : Dicionario → Chamada → Procedimento → Fim
unfolding local copia_sobre_si responde
chama d c p = elim c.args [
  | none ↦ volta d (decode ∷ [])
  | some w ↦ if copia_sobre_si p d w then falha else responde c (local p d w)
]

unfoldable pub serv_request : Dicionario → Chamada → Fim
unfolding chama
serv_request d c =
    if c.proc == 0
    then volta d (vazio ∷ [])
    else elim (escolhe c.proc) [ none ↦ volta d (noproc ∷ []) | some p ↦ chama d c p ]
