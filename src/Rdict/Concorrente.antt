-- ===== src/Rdict/Concorrente.antt =====
-- The threads of rdict_svc.c in LAB07-SD/thread-RPC.c inside the operations of rdict_srp.c, any
-- number of them at once. Nothing locks the dictionary. A step is one statement or test that reads or
-- writes the shared variables; in C such a statement is not atomic either. As threads can bring
-- `nwords` below 0 and beyond the last row, it is an `int` here.
pub mod Sozinha
pub mod Corrida
pub mod Leitoras
pub mod Contagem
mod Exemplos
use unifesp_sd.Base.{
  ℕ, zero, suc, Option, none, some, List, [], ◌∷◌, length, ltb, leb, if◌then◌else◌, ◌>>=◌,
}
use unifesp_sd.Base.Int.{ℤ, pos, negsuc, ◌+ℤ◌, ltb_ℤ, i32}
use unifesp_sd.Rdict.Dicionario.{Dicionario, Palavra, maxword, dictsiz, escreve, iguais}
use unifesp_sd.Rdict.Atende.{Procedimento, p_initw, p_insertw, p_deletew, p_lookupw}

-- The shared variables.
pub record Memoria : Type 0 where
  pub dict : ℕ → Palavra
  pub nwords : ℤ

abbrev pub memoria : Dicionario → Memoria
memoria d = record { dict = d.dict; nwords = pos d.nwords }

-- The two procedures with a loop over the rows.
pub data Busca : Type 0 where
  remocao consulta : Busca

-- The statement that comes next: `nwords=0` of `initw`; `strcpy`, `nwords++`, `return nwords` of
-- `insertw`; the tests of the loops of `deletew` and `lookupw` at a row; `nwords--` and `strcpy` of
-- `deletew`, with the row that was found; or the result.
pub data Ponto : Type 0 where
  zera copia soma devolve : Ponto
  testa compara : Busca → ℕ → Ponto
  subtrai substitui : ℕ → Ponto
  feito : ℤ → Ponto

-- The row `dict[nwords]`, if it exists.
unfoldable pub linha : ℤ → Option ℕ
linha (pos n) = if ltb n dictsiz then some n else none
linha (negsuc n) = none

abbrev pub achou : Busca → ℕ → Ponto
achou remocao i = subtrai i
achou consulta i = feito (pos 1)

-- A step of a thread, whose procedure was called with `word`. A thread that has its result stays as
-- it is.
unfoldable pub avanca_em : Ponto → Memoria → Palavra → Option (Memoria × Ponto)
unfolding linha
avanca_em zera m word = some (record m { nwords = pos 0 }, feito (pos 1))
avanca_em copia m word = elim (linha m.nwords) [
  | none ↦ none
  | some n ↦
      if leb (length word) maxword
      then some (record m { dict = escreve m.dict n word }, soma)
      else none
]
avanca_em soma m word = some (record m { nwords = i32 (m.nwords +ℤ pos 1) }, devolve)
avanca_em devolve m word = some (m, feito m.nwords)
avanca_em (testa b i) m word =
    some (m, if ltb_ℤ (pos i) m.nwords then compara b i else feito (pos 0))
avanca_em (compara b i) m word =
    if ltb i dictsiz
    then some (m, if iguais word (m.dict i) then achou b i else testa b (suc i))
    else none
avanca_em (subtrai i) m word = some (record m { nwords = i32 (m.nwords +ℤ negsuc 0) }, substitui i)
avanca_em (substitui i) m word = elim (linha m.nwords) [
  | none ↦ none
  | some n ↦ some (record m { dict = escreve m.dict i (m.dict n) }, feito (pos 1))
]
avanca_em (feito r) m word = some (m, feito r)

-- Where a thread begins.
unfoldable pub entra : Procedimento → Ponto
entra p_initw = zera
entra p_insertw = copia
entra p_deletew = testa remocao 0
entra p_lookupw = testa consulta 0

pub record Linha : Type 0 where
  pub word : Palavra
  pub ponto : Ponto

-- A step of the thread of that number.
unfoldable pub passo : ℕ → Memoria → List Linha → Option (Memoria × List Linha)
unfolding avanca_em
passo n m [] = some (m, [])
passo zero m (t ∷ ts) = do
  (m, p) ← avanca_em t.ponto m t.word
  some (m, record t { ponto = p } ∷ ts)
passo (suc n) m (t ∷ ts) = do (m, ts) ← passo n m ts; some (m, t ∷ ts)

-- The threads, scheduled by a list of their numbers.
unfoldable pub corre : List ℕ → Memoria → List Linha → Option (Memoria × List Linha)
unfolding passo
corre [] m ts = some (m, ts)
corre (n ∷ ns) m ts = do (m, ts) ← passo n m ts; corre ns m ts

-- A thread that is started for a call.
unfoldable pub parte : Procedimento → Palavra → Linha
unfolding entra
parte p word = record { word = word; ponto = entra p }
