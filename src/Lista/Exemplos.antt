-- ===== src/Lista/Exemplos.antt =====
-- The queue functions on a small memory, and the theorems there.
use unifesp_sd.Base.{◌≡◌, refl, Option, none, some, [], ◌∷◌, arith, ◌==◌, if◌then◌else◌}
use unifesp_sd.Base.Int.{pos, negsuc}
use unifesp_sd.Lista.{
  Lista, init, procura, esta_na_fila, liga_depois, avanca, encaixa, insere, remove_item, imprime_de,
  imprime,
}
use unifesp_sd.Lista.Memoria.{
  nulo, No, Memoria, grava, Fim, pronto, indefinido, sem_voltas, depois, malloc, le, muda, Retorna,
}
use unifesp_sd.Lista.Cadeia.{celula, no_de, fim, elo, IsLista}
use unifesp_sd.Lista.Percurso.{imprime_lem}
use unifesp_sd.Lista.Insercao.{Inserida, insere-Inserida}
use unifesp_sd.Lista.Remocao.{Removida, remove_item-Removida}

abbrev lixo : No
lixo = no_de (negsuc 4) (pos 77) 13

-- Nodes at 5 and 9, in that order.
abbrev memoria : Memoria
memoria a =
    if a == 5
    then some (no_de (pos 7) (pos 3) 9)
    else (if a == 9 then some (no_de (pos 8) (pos 6) nulo) else none)

abbrev fila : Lista
fila = record { tamanho = 2; n = 10; head = 5 }

fila-IsLista : IsLista memoria fila (celula 5 (pos 7) (pos 3) ∷ celula 9 (pos 8) (pos 6) ∷ [])
fila-IsLista = record {
  nos =
      elo (record { valido = λ e. absurd (omega arith); la = refl }) refl
        (elo (record { valido = λ e. absurd (omega arith); la = refl }) refl fim);
  conta = refl;
}

imprime_lem_teste : imprime fila memoria ≡ pronto ((pos 7, pos 3) ∷ (pos 8, pos 6) ∷ []) memoria
imprime_lem_teste = imprime_lem fila-IsLista

insere-Inserida_example :
    Retorna
      (Inserida memoria 4
        (pos 9)
        (pos 5)
        fila
        (celula 5 (pos 7) (pos 3) ∷ celula 9 (pos 8) (pos 6) ∷ []))
      (insere 4 lixo fila (pos 9) (pos 5) memoria)
insere-Inserida_example =
    insere-Inserida 4 lixo (pos 9) (pos 5) fila-IsLista (λ e. absurd (omega arith)) refl

remove_item-Removida_example :
    Retorna
      (Removida memoria 4 lixo fila (celula 5 (pos 7) (pos 3) ∷ celula 9 (pos 8) (pos 6) ∷ []))
      (remove_item 4 lixo fila memoria)
remove_item-Removida_example =
    remove_item-Removida memoria fila 4 lixo (λ e. absurd (omega arith)) fila-IsLista refl

abbrev resultado : {A : Type 0} → Fim A → Option A
resultado (pronto a m) = some a
resultado indefinido = none
resultado sem_voltas = none

-- Two insertions into a new queue, and what is printed then.
insere-imprime :
    resultado (
      depois
        (insere 4 lixo (init 10) (pos 9) (pos 5) (λ a. none))
        (λ r. λ m. depois (insere 6 lixo r.1 (pos 8) (pos 2) m) (λ t. imprime t.1)))
    ≡ some ((pos 8, pos 2) ∷ (pos 9, pos 5) ∷ [])
unfolding insere init malloc le muda grava esta_na_fila procura encaixa avanca liga_depois imprime
    imprime_de
insere-imprime = refl
