-- ===== src/Rdict/Concorrente/Corrida.antt =====
-- What threads of the dictionary service do to each other.
use mathlib.Core.List.{append_assoc}
use unifesp_sd.Base.{
  ℕ, ◌+◌, ◌≤◌, ◌<◌, ◌≡◌, refl, ap, sym, ◌∙◌, inr, true, false, none, some, List, [], ◌∷◌, ◌++◌,
  arith, length, leb, ◌==◌, suc,
}
use unifesp_sd.Base.Int.{pos, ◌+ℤ◌, trunca}
use unifesp_sd.Rdict.Dicionario.{Dicionario, Palavra, maxword, dictsiz, escreve, iguais}
use unifesp_sd.Rdict.Dicionario.Palavras.{
  palavras, linhas, linhas-suc, linhas-escreve_fora, iguais_iff,
}
use unifesp_sd.Rdict.Atende.{p_insertw, p_deletew}
use unifesp_sd.Rdict.Concorrente.{memoria, feito, linha, avanca_em, passo, corre, entra, parte}
use unifesp_sd.Rdict.Concorrente.Sozinha.{linha-pos, soma-pos}

-- Two threads take turns, the first one first.
abbrev pub alternada : List ℕ
alternada = 0 ∷ 1 ∷ 0 ∷ 1 ∷ 0 ∷ 1 ∷ []

linhas-duas :
    (dict : ℕ → Palavra) (n : ℕ)
    → linhas dict (suc (suc n)) 0 ≡ linhas dict n 0 ++ dict n ∷ dict (suc n) ∷ []
linhas-duas dict n =
    let here : 0 + n ≡ n = omega arith in
    let next : 0 + suc n ≡ suc n = omega arith in
    linhas-suc dict (suc n) 0
    ∙ ap (λ i. linhas dict (suc n) 0 ++ dict i ∷ []) next
    ∙ ap (λ xs. xs ++ dict (suc n) ∷ []) (linhas-suc dict n 0)
    ∙ ap (λ i. (linhas dict n 0 ++ dict i ∷ []) ++ dict (suc n) ∷ []) here
    ∙ append_assoc (linhas dict n 0) (dict n ∷ []) (dict (suc n) ∷ [])

linhas-perdida :
    (dict : ℕ → Palavra) (n : ℕ) (v w : Palavra)
    → linhas (escreve (escreve dict n v) n w) (n + 1 + 1) 0
      ≡ linhas dict n 0 ++ w ∷ dict (n + 1) ∷ []
linhas-perdida dict n v w =
    let two : n + 1 + 1 ≡ suc (suc n) = omega arith in
    let one : n + 1 ≡ suc n = omega arith in
    let same : (n == n) ≡ true = ground arith in
    let other : (n == suc n) ≡ false = ground arith in
    let new = escreve (escreve dict n v) n w in
    let kept : linhas new n 0 ≡ linhas dict n 0 =
      linhas-escreve_fora (escreve dict n v) n 0 n w (inr (omega arith))
      ∙ linhas-escreve_fora dict n 0 n v (inr (omega arith)) in
    ap (λ k. linhas new k 0) two
    ∙ linhas-duas new n
    ∙ ap (λ xs. xs ++ new n ∷ new (suc n) ∷ []) kept
    ∙ rw (same, other, one)

-- Two threads that take turns, with room for both words, both answer that theirs is the last of two
-- more words. But the first word is overwritten: the dictionary has the second one in its place, and
-- behind it what stood in the next row.
pub palavra_perdida :
    (d : Dicionario) (v w : Palavra)
    → suc d.nwords < dictsiz
    → length v ≤ maxword
    → length w ≤ maxword
    → (e : Dicionario) × (corre alternada (memoria d) (parte p_insertw v ∷ parte p_insertw w ∷ [])
        ≡ some (
          memoria e,
          record { word = v; ponto = feito (pos (d.nwords + 1 + 1)) }
              ∷ record { word = w; ponto = feito (pos (d.nwords + 1 + 1)) }
              ∷ [],
        ))
      × (palavras e ≡ palavras d ++ w ∷ d.dict (d.nwords + 1) ∷ [])
unfolding parte entra corre avanca_em
palavra_perdida d v w room a b =
    let lugar : linha (pos d.nwords) ≡ some d.nwords = linha-pos d.nwords (omega arith) in
    let first : leb (length v) maxword ≡ true = ground arith in
    let second : leb (length w) maxword ≡ true = ground arith in
    let um = soma-pos d.nwords (omega arith) in
    let dois = soma-pos (d.nwords + 1) (omega arith) in
    (
      record { dict = escreve (escreve d.dict d.nwords v) d.nwords w; nwords = d.nwords + 1 + 1 },
      rw (lugar, first, corre, passo, avanca_em)
          (rw (lugar, second, avanca_em, linha) (rw (um, dois) refl)),
      linhas-perdida d.dict d.nwords v w,
    )

-- Two threads that delete the only word of a dictionary: each finds the word and takes one from
-- `nwords`, which comes to -1.
abbrev pub remocoes : List ℕ
remocoes = 0 ∷ 0 ∷ 1 ∷ 1 ∷ 0 ∷ 1 ∷ 0 ∷ []

-- Two threads that delete the only word of a dictionary at once read out of bounds: both find it and
-- take one from `nwords`, so that the first copies the row -1.
pub remocao_fora :
    (d : Dicionario) (w : Palavra)
    → d.nwords ≡ 1
    → d.dict 0 ≡ w
    → corre remocoes (memoria d) (parte p_deletew w ∷ parte p_deletew w ∷ []) ≡ none
unfolding parte entra corre passo avanca_em linha ◌+ℤ◌ trunca
remocao_fora d w e f =
    let igual : iguais w (d.dict 0) ≡ true = (iguais_iff w (d.dict 0)).1 (sym f) in
    rw (e, igual) refl
