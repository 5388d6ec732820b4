-- ===== src/FilaAvulsa/Exemplos.antt =====
-- A run of the `main` of fila.c.
use unifesp_sd.Base.{ℕ, ◌≡◌, refl, List, [], ◌∷◌, Perm}
use unifesp_sd.Base.Int.{pos}
use unifesp_sd.Netkit.Mensagem.{termina, falha}
use unifesp_sd.Fila.Ordem.{IsSorted}
use unifesp_sd.FilaAvulsa.{Sitem, sitem_chave, impressa, imprime, main}
use unifesp_sd.FilaAvulsa.Relatorio.{pedidos, remocoes, main_ordena}

abbrev sorteio : List ℕ
sorteio = 13 ∷ 6 ∷ 7 ∷ 15 ∷ 3 ∷ 25 ∷ 6 ∷ 2 ∷ 9 ∷ 1 ∷ []

-- With the block that is asked for.
main_ordena_example :
    (xs : List (Sitem ℕ)) × IsSorted xs
    × Perm xs (pedidos {C = ℕ} 0 0 sorteio)
    × (main {C = ℕ} 8 0 sorteio ≡ falha (impressa (imprime xs) ∷ []))
main_ordena_example = main_ordena {C = ℕ} 8 0 sorteio refl

-- With a block for a whole node.
main_ordena_teste :
    (xs : List (Sitem ℕ)) × IsSorted xs
    × Perm xs (pedidos {C = ℕ} 0 0 sorteio)
    × (main {C = ℕ} 40 0 sorteio ≡ termina (pos 0) (impressa (imprime xs) ∷ remocoes xs))
main_ordena_teste = main_ordena {C = ℕ} 40 0 sorteio refl
