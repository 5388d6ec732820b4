-- ===== src/Rdict/Concorrente/Exemplos.antt =====
-- The threads of the dictionary service on concrete words, and the theorems at them.
use unifesp_sd.Base.{◌+◌, ◌≡◌, refl, some, none, List, [], ◌∷◌, ◌++◌, map, arith}
use unifesp_sd.Base.Int.{pos}
use unifesp_sd.Rdict.Dicionario.{Dicionario}
use unifesp_sd.Rdict.Dicionario.Palavras.{palavras}
use unifesp_sd.Rdict.Atende.{p_insertw, p_deletew, p_lookupw, local}
use unifesp_sd.Rdict.Exemplos.{ola, ja, duas}
use unifesp_sd.Rdict.Concorrente.{memoria, Linha, feito, entra, corre, parte}
use unifesp_sd.Rdict.Concorrente.Sozinha.{sozinha, passos, terminada, sozinha-local}
use unifesp_sd.Rdict.Concorrente.Corrida.{alternada, palavra_perdida, remocoes, remocao_fora}
use unifesp_sd.Rdict.Concorrente.Leitoras.{Leitoras, leituras_livres}
use unifesp_sd.Rdict.Concorrente.Contagem.{Conta, corre-Conta}

sozinha-local_example :
    sozinha (passos 2) (entra p_deletew) (memoria duas) ola ≡ terminada (local p_deletew duas ola)
sozinha-local_example = sozinha-local p_deletew duas ola (omega arith)

palavra_perdida_example :
    (e : Dicionario) × (corre alternada
        (memoria duas)
        (parte p_insertw ja ∷ parte p_insertw ola ∷ [])
      ≡ some (
        memoria e,
        record { word = ja; ponto = feito (pos (2 + 1 + 1)) }
            ∷ record { word = ola; ponto = feito (pos (2 + 1 + 1)) }
            ∷ [],
      ))
    × (palavras e ≡ palavras duas ++ ola ∷ duas.dict (2 + 1) ∷ [])
palavra_perdida_example = palavra_perdida duas ja ola (omega arith) (omega arith) (omega arith)

abbrev uma : Dicionario
uma = record { dict = λ i. ja; nwords = 1 }

remocao_fora_teste :
    corre remocoes (memoria uma) (parte p_deletew ja ∷ parte p_deletew ja ∷ []) ≡ none
remocao_fora_teste = remocao_fora uma ja refl refl

leituras_livres_example :
    (us : List Linha) × (corre
        (1 ∷ 0 ∷ 0 ∷ 1 ∷ 5 ∷ [])
        (memoria duas)
        (map (parte p_lookupw) (ja ∷ ola ∷ []))
      ≡ some (memoria duas, us))
    × Leitoras duas (ja ∷ ola ∷ []) us
leituras_livres_example =
    leituras_livres duas (ja ∷ ola ∷ []) (1 ∷ 0 ∷ 0 ∷ 1 ∷ 5 ∷ []) (omega arith)

corre-Conta_teste :
    Conta 2 2 (corre (0 ∷ 1 ∷ 1 ∷ []) (memoria duas) (map (parte p_insertw) (ola ∷ ja ∷ [])))
corre-Conta_teste = corre-Conta duas (ola ∷ ja ∷ []) (0 ∷ 1 ∷ 1 ∷ []) (omega arith)
