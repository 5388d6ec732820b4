-- ===== src/Lista/Percurso.antt =====
-- The loops that only read: `EstaNaFila` and `imprime`.
use unifesp_sd.Base.{ℕ, zero, suc, ◌<◌, ◌≡◌, refl, inl, inr, List, arith, length, map, Bool-cases}
use unifesp_sd.Base.Int.{◌==ℤ◌}
use unifesp_sd.Fila
use unifesp_sd.Lista.{Lista, procura, esta_na_fila, imprime_de, imprime}
use unifesp_sd.Lista.Memoria.{Ponteiro, No, Memoria, pronto, Aponta, Aponta-nulo, le-Aponta}
use unifesp_sd.Lista.Cadeia.{Celula, celula_chave, Cadeia, fim, elo, IsLista}

-- The loop of `EstaNaFila` answers as the abstract one and changes nothing.
pub procura_lem :
    {m : Memoria} {p : Ponteiro} {cs : List Celula} (k : ℕ) (cliente : Ponteiro) (v : No)
    → Aponta m cliente v
    → Cadeia m p cs
    → length cs < k
    → procura k p cliente m ≡ pronto (Fila.procura v.pid cs) m
unfolding procura Fila.procura
procura_lem zero cliente v c s h = absurd (omega arith)
procura_lem (suc k) cliente v c fim h = refl
procura_lem (suc k) cliente v c (elo {pid} e out s) h =
    rw (Aponta-nulo e, le-Aponta e)
      (rw (le-Aponta c) (elim (Bool-cases (pid ==ℤ v.pid)) [
        | inl hit ↦ rw hit
        | inr miss ↦ rw (miss, procura_lem k cliente v c s (omega arith))
      ]))

pub esta_na_fila_lem :
    {m : Memoria} {l : Lista} {cs : List Celula} (cliente : Ponteiro) (v : No)
    → Aponta m cliente v
    → IsLista m l cs
    → esta_na_fila l cliente m ≡ pronto (Fila.procura v.pid cs) m
unfolding esta_na_fila
esta_na_fila_lem {l} cliente v c is =
    procura_lem (suc l.tamanho) cliente v c is.nos (omega (arith, is.conta))

imprime_de_lem :
    {m : Memoria} {p : Ponteiro} {cs : List Celula} (k : ℕ)
    → Cadeia m p cs
    → length cs < k
    → imprime_de k p m ≡ pronto (map (λ c. (c.pid, c.tempo)) cs) m
unfolding imprime_de
imprime_de_lem zero s h = absurd (omega arith)
imprime_de_lem (suc k) fim h = refl
imprime_de_lem (suc k) (elo e out s) h =
    rw (Aponta-nulo e, le-Aponta e) (rw (imprime_de_lem k s (omega arith)))

-- `imprime` ends on a queue in memory, prints the PID and the time of each node in order, and changes
-- nothing.
pub imprime_lem :
    {m : Memoria} {l : Lista} {cs : List Celula}
    → IsLista m l cs
    → imprime l m ≡ pronto (map (λ c. (c.pid, c.tempo)) cs) m
unfolding imprime
imprime_lem {l} is = imprime_de_lem (suc l.tamanho) is.nos (omega (arith, is.conta))
