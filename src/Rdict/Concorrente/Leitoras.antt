-- ===== src/Rdict/Concorrente/Leitoras.antt =====
-- Threads of the dictionary service that only look words up.
use unifesp_sd.Base.{
  ℕ, zero, suc, ◌+◌, ◌≤◌, ◌≡◌, refl, subst, ◌∙◌, none, some, List, [], ◌∷◌, map, arith, Bool-cases,
  inl, inr,
}
use unifesp_sd.Base.Int.{pos}
use unifesp_sd.Rdict.Dicionario.{Dicionario, Palavra, dictsiz, iguais, procura, lookupw}
use unifesp_sd.Rdict.Atende.{p_lookupw}
use unifesp_sd.Rdict.Concorrente.{
  memoria, consulta, Ponto, testa, compara, feito, avanca_em, Linha, passo, corre, entra, parte,
}
use unifesp_sd.Rdict.Concorrente.Sozinha.{avanca_em-testa, avanca_em-sai, avanca_em-compara}

-- A thread that looks `w` up in the dictionary is in its loop and has not met the word so far, or it
-- has the answer of `lookupw`.
pub data Leitora (d : Dicionario) (w : Palavra) : Ponto → Type 0 where
  testando :
      (i k : ℕ)
      → i + k ≡ d.nwords
      → procura d.dict w d.nwords 0 ≡ procura d.dict w k i
      → Leitora d w (testa consulta i)
  comparando :
      (i k : ℕ)
      → i + suc k ≡ d.nwords
      → procura d.dict w d.nwords 0 ≡ procura d.dict w (suc k) i
      → Leitora d w (compara consulta i)
  pronta : Leitora d w (feito (pos (lookupw d w)))

-- A list of such threads, for the list of their words.
pub data Leitoras (d : Dicionario) : List Palavra → List Linha → Type 0 where
  vazias : Leitoras d [] []
  outra :
      {ws : List Palavra} {ts : List Linha} (w : Palavra) (p : Ponto)
      → Leitora d w p
      → Leitoras d ws ts
      → Leitoras d (w ∷ ws) (record { word = w; ponto = p } ∷ ts)

resposta-none :
    (d : Dicionario) (w : Palavra) → procura d.dict w d.nwords 0 ≡ none → lookupw d w ≡ 0
unfolding lookupw
resposta-none d w e = rw (e, lookupw) refl

resposta-some :
    (d : Dicionario) (w : Palavra) (i : ℕ) → procura d.dict w d.nwords 0 ≡ some i → lookupw d w ≡ 1
unfolding lookupw
resposta-some d w i e = rw (e, lookupw) refl

avanca_em-Leitora :
    (d : Dicionario) (w : Palavra) (p : Ponto)
    → d.nwords ≤ dictsiz
    → Leitora d w p
    → (q : Ponto) × (avanca_em p (memoria d) w ≡ some (memoria d, q)) × Leitora d w q
unfolding procura avanca_em
avanca_em-Leitora d w _ c (testando i zero e f) = (
  feito (pos 0),
  avanca_em-sai d w consulta i (omega arith),
  subst (λ r. Leitora d w (feito (pos r))) (resposta-none d w f) pronta,
)
avanca_em-Leitora d w _ c (testando i (suc k) e f) =
    (compara consulta i, avanca_em-testa d w consulta i (omega arith), comparando i k e f)
avanca_em-Leitora d w _ c (comparando i k e f) = elim (Bool-cases (iguais w (d.dict i))) [
  | inl g ↦ (
    feito (pos 1),
    avanca_em-compara d w consulta i (omega arith) ∙ rw g refl,
    subst (λ r. Leitora d w (feito (pos r))) (resposta-some d w i (f ∙ rw (g, procura) refl))
        pronta,
  )
  | inr g ↦ (
    testa consulta (suc i),
    avanca_em-compara d w consulta i (omega arith) ∙ rw g refl,
    testando (suc i) k (omega arith) (f ∙ rw (g, procura) refl),
  )
]
avanca_em-Leitora d w _ c pronta = (_, refl, pronta)

passo-Leitoras :
    (d : Dicionario) (n : ℕ) (ws : List Palavra) (ts : List Linha)
    → d.nwords ≤ dictsiz
    → Leitoras d ws ts
    → (us : List Linha) × (passo n (memoria d) ts ≡ some (memoria d, us)) × Leitoras d ws us
unfolding passo
passo-Leitoras d n _ _ c vazias = ([], refl, vazias)
passo-Leitoras d zero _ _ c (outra {ws} {ts} w p l ls) =
    let (q, e, m) = avanca_em-Leitora d w p c l in (_, rw (e, passo) refl, outra w q m ls)
passo-Leitoras d (suc n) _ _ c (outra {ws} {ts} w p l ls) =
    let (us, e, ms) = passo-Leitoras d n ws ts c ls in (_, rw (e, passo) refl, outra w p l ms)

corre-Leitoras :
    (ns : List ℕ) (d : Dicionario) (ws : List Palavra) (ts : List Linha)
    → d.nwords ≤ dictsiz
    → Leitoras d ws ts
    → (us : List Linha) × (corre ns (memoria d) ts ≡ some (memoria d, us)) × Leitoras d ws us
unfolding corre
corre-Leitoras [] d ws ts c ls = (ts, refl, ls)
corre-Leitoras (n ∷ ns) d ws ts c ls =
    let (us, e, ms) = passo-Leitoras d n ws ts c ls in
    let (vs, f, os) = corre-Leitoras ns d ws us c ms in (vs, rw (e, corre) f, os)

partem-Leitoras : (d : Dicionario) (ws : List Palavra) → Leitoras d ws (map (parte p_lookupw) ws)
unfolding parte entra
partem-Leitoras d [] = vazias
partem-Leitoras d (w ∷ ws) =
    outra w _ (testando 0 d.nwords (omega arith) refl) (partem-Leitoras d ws)

-- Any number of threads that look words up do not disturb each other, however their statements
-- interleave and for how long: in a dictionary of at most a hundred words none of them reads out of
-- bounds, the dictionary stays as it is, and each thread is still in its loop or has the answer of
-- `lookupw` for its word.
pub leituras_livres :
    (d : Dicionario) (ws : List Palavra) (ns : List ℕ)
    → d.nwords ≤ dictsiz
    → (us : List Linha) × (corre ns (memoria d) (map (parte p_lookupw) ws) ≡ some (memoria d, us))
      × Leitoras d ws us
leituras_livres d ws ns c = corre-Leitoras ns d ws _ c (partem-Leitoras d ws)
