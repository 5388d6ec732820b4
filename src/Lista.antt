-- ===== src/Lista.antt =====
-- LAB07-SD/servidor.c: the queue functions on the heap, pointer by pointer (`init`, `EstaNaFila`,
-- `insere`, `removeItem`, `imprime`). `struct Sfila` is reached through one pointer only, so it is a
-- value that a function returns anew. What `malloc` returns, an address and what lies there, is an
-- argument. A loop runs on turns.
pub mod Memoria
pub mod Cadeia
pub mod Percurso
pub mod Insercao
pub mod Remocao
mod Exemplos
use unifesp_sd.Base.{
  ℕ, zero, suc, ◌+◌, ◌-◌, Bool, true, false, List, [], ◌∷◌, ltb, ◌==◌, if◌then◌else◌,
}
use unifesp_sd.Base.Int.{ℤ, ltb_ℤ, ◌==ℤ◌}
use unifesp_sd.Lista.Memoria.{
  Ponteiro, nulo, No, Comando, sem_voltas, devolve, ◌>>=◌, ◌>>◌, malloc, le, muda, free,
}

pub record Lista : Type 0 where
  pub tamanho : ℕ
  pub n : ℕ
  pub head : Ponteiro

unfoldable pub init : ℕ → Lista
init n = record { tamanho = 0; n = n; head = nulo }

-- The loop of `EstaNaFila` from the node `aux`, on turns. `Cliente` is read in each one.
unfoldable pub procura : ℕ → Ponteiro → Ponteiro → Comando Bool
procura zero aux cliente = λ _. sem_voltas
procura (suc k) aux cliente = if aux == nulo then devolve false else do
  a ← le aux
  c ← le cliente
  if a.pid ==ℤ c.pid then devolve true else procura k a.next cliente

unfoldable pub esta_na_fila : Lista → Ponteiro → Comando Bool
unfolding procura
esta_na_fila fila cliente = procura (suc fila.tamanho) fila.head cliente

-- `novo->next = aux->next; aux->next = novo;`
unfoldable pub liga_depois : Ponteiro → Ponteiro → Comando (Unit {0})
liga_depois aux novo = do
  a ← le aux
  muda novo (λ v. record v { next = a.next })
  muda aux (λ v. record v { next = novo })

-- The `while` of `insere` from the node `aux`, on turns, and the two statements after it.
unfoldable pub avanca : ℕ → Ponteiro → Ponteiro → ℤ → Comando (Unit {0})
unfolding liga_depois
avanca zero aux novo tempo = λ _. sem_voltas
avanca (suc k) aux novo tempo = do
  a ← le aux
  if a.next == nulo then liga_depois aux novo else do
    b ← le a.next
    if ltb_ℤ b.tempo tempo then avanca k a.next novo tempo else liga_depois aux novo

-- `insere` from the test of `tamanho` on: the new value of `head`.
unfoldable pub encaixa : Lista → Ponteiro → ℤ → Comando Ponteiro
encaixa fila novo tempo =
    if fila.tamanho == 0 then muda novo (λ v. record v { next = nulo }) >> devolve novo else do
      primeiro ← le fila.head
      if ltb_ℤ tempo primeiro.tempo
          then muda novo (λ v. record v { next = fila.head }) >> devolve novo
          else avanca (suc fila.tamanho) fila.head novo tempo >> devolve fila.head

-- `novo` and `lixo` are what `malloc` returns.
unfoldable pub insere : Ponteiro → No → Lista → ℤ → ℤ → Comando (Bool × Lista)
insere novo lixo fila pid tempo =
    if ltb fila.tamanho fila.n
    then (do
      malloc novo lixo
      muda novo (λ v. record v { pid = pid })
      muda novo (λ v. record v { tempo = tempo })
      achou ← esta_na_fila fila novo
      if achou then devolve (false, fila) else do
        head ← encaixa fila novo tempo
        devolve (true, record fila { tamanho = fila.tamanho + 1; head = head }))
    else devolve (false, fila)

-- The node that is returned is the copy `item`, which `malloc` gives at the start.
unfoldable pub remove_item : Ponteiro → No → Lista → Comando (Ponteiro × Lista)
remove_item item lixo fila = do
  malloc item lixo
  if fila.head == nulo then devolve (item, fila) else do
    aux ← le fila.head
    muda item (λ v. record v { pid = aux.pid })
    muda item (λ v. record v { tempo = aux.tempo })
    free fila.head
    devolve (item, record fila { tamanho = fila.tamanho - 1; head = aux.next })

-- The numbers that are printed, on turns.
unfoldable pub imprime_de : ℕ → Ponteiro → Comando (List (ℤ × ℤ))
imprime_de zero aux = λ _. sem_voltas
imprime_de (suc k) aux =
    if aux == nulo
    then devolve []
    else do a ← le aux; resto ← imprime_de k a.next; devolve ((a.pid, a.tempo) ∷ resto)

unfoldable pub imprime : Lista → Comando (List (ℤ × ℤ))
unfolding imprime_de
imprime fila = imprime_de (suc fila.tamanho) fila.head
