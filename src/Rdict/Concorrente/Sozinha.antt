-- ===== src/Rdict/Concorrente/Sozinha.antt =====
-- A thread of the dictionary service that no other disturbs.
use unifesp_sd.Base.{
  ℕ, zero, suc, ◌+◌, ◌-◌, ◌≤◌, ◌<◌, ◌≡◌, refl, ap, ◌∙◌, if◌then◌else◌, true, false, Option, none,
  some, length, ltb, leb, arith, Bool-cases, Option-cases, inl, inr, ◌>>=◌,
}
use unifesp_sd.Base.Int.{ℤ, pos, negsuc, ◌+ℤ◌, i32, trunca, ltb_ℤ}
use unifesp_sd.Rdict.Dicionario.{
  Dicionario, Palavra, maxword, dictsiz, escreve, iguais, procura, initw, insertw, deletew, lookupw,
}
use unifesp_sd.Rdict.Atende.{Procedimento, p_initw, p_insertw, p_deletew, p_lookupw, local}
use unifesp_sd.Rdict.Concorrente.{
  Memoria, memoria, Busca, remocao, consulta, Ponto, copia, testa, compara, subtrai, substitui,
  feito, linha, achou, avanca_em, entra,
}

-- So many steps of one thread.
unfoldable pub sozinha : ℕ → Ponto → Memoria → Palavra → Option (Memoria × Ponto)
unfolding avanca_em
sozinha zero p m word = some (m, p)
sozinha (suc k) p m word = do (m, p) ← avanca_em p m word; sozinha k p m word

-- Two steps for each row, and three more.
unfoldable pub passos : ℕ → ℕ
passos zero = 3
passos (suc k) = suc (suc (passos k))

abbrev pub terminada : Option (Dicionario × ℕ) → Option (Memoria × Ponto)
terminada none = none
terminada (some (d, n)) = some (memoria d, feito (pos n))

passos-tres : (k : ℕ) → (j : ℕ) × (passos k ≡ suc (suc (suc j)))
unfolding passos
passos-tres zero = (0, refl)
passos-tres (suc k) = let (j, e) = passos-tres k in (suc (suc j), rw e)

sozinha-feito :
    (k : ℕ) (r : ℤ) (m : Memoria) (w : Palavra) → sozinha k (feito r) m w ≡ some (m, feito r)
unfolding sozinha
sozinha-feito zero r m w = refl
sozinha-feito (suc k) r m w = sozinha-feito k r m w

pub linha-pos : (n : ℕ) → n < dictsiz → linha (pos n) ≡ some n
unfolding linha
linha-pos n h = ground arith

pub soma-pos : (n : ℕ) → n ≤ dictsiz → i32 (pos n +ℤ pos 1) ≡ pos (n + 1)
unfolding trunca ◌+ℤ◌
soma-pos n h = ground arith

pub subtrai-pos : (n : ℕ) → 0 < n → n ≤ dictsiz → i32 (pos n +ℤ negsuc 0) ≡ pos (n - 1)
unfolding trunca ◌+ℤ◌
subtrai-pos n g h = ground arith

-- The dictionary while `deletew` is between its two statements.
abbrev pub menor : Dicionario → Dicionario
menor d = record d { nwords = d.nwords - 1 }

pub avanca_em-subtrai :
    (d : Dicionario) (w : Palavra) (i : ℕ)
    → 0 < d.nwords
    → d.nwords ≤ dictsiz
    → avanca_em (subtrai i) (memoria d) w ≡ some (memoria (menor d), substitui i)
unfolding avanca_em
avanca_em-subtrai d w i g h = rw (subtrai-pos d.nwords g h) refl

pub avanca_em-substitui :
    (d : Dicionario) (w : Palavra) (i : ℕ)
    → d.nwords < dictsiz
    → avanca_em (substitui i) (memoria d) w
      ≡ some (memoria (record d { dict = escreve d.dict i (d.dict d.nwords) }), feito (pos 1))
unfolding avanca_em
avanca_em-substitui d w i h = rw (linha-pos d.nwords h, avanca_em) refl

-- The steps of the loops.
pub avanca_em-testa :
    (d : Dicionario) (w : Palavra) (b : Busca) (i : ℕ)
    → i < d.nwords
    → avanca_em (testa b i) (memoria d) w ≡ some (memoria d, compara b i)
unfolding avanca_em
avanca_em-testa d w b i h =
    let dentro : ltb_ℤ (pos i) (pos d.nwords) ≡ true = ground arith in rw dentro refl

pub avanca_em-sai :
    (d : Dicionario) (w : Palavra) (b : Busca) (i : ℕ)
    → d.nwords ≤ i
    → avanca_em (testa b i) (memoria d) w ≡ some (memoria d, feito (pos 0))
unfolding avanca_em
avanca_em-sai d w b i h =
    let fora : ltb_ℤ (pos i) (pos d.nwords) ≡ false = ground arith in rw fora refl

pub avanca_em-compara :
    (d : Dicionario) (w : Palavra) (b : Busca) (i : ℕ)
    → i < dictsiz
    → avanca_em (compara b i) (memoria d) w
      ≡ some (memoria d, if iguais w (d.dict i) then achou b i else testa b (suc i))
unfolding avanca_em
avanca_em-compara d w b i h = let existe : ltb i dictsiz ≡ true = ground arith in rw existe refl

sozinha-passo :
    {q : Ponto} {n : Memoria} (k : ℕ) (p : Ponto) (m : Memoria) (w : Palavra)
    → avanca_em p m w ≡ some (n, q)
    → sozinha (suc k) p m w ≡ sozinha k q n w
unfolding sozinha
sozinha-passo k p m w e = ap (λ (r : Option (Memoria × Ponto)). r >>= λ (m, p). sozinha k p m w) e

-- What the loop leads to from a row on.
resultado : Busca → Dicionario → Option ℕ → Option (Memoria × Ponto)
resultado b d none = some (memoria d, feito (pos 0))
resultado consulta d (some i) = some (memoria d, feito (pos 1))
resultado remocao d (some i) =
    let n = d.nwords - 1 in
    some (memoria (record { dict = escreve d.dict i (d.dict n); nwords = n }), feito (pos 1))

-- The row is found.
sozinha-achou :
    (b : Busca) (d : Dicionario) (w : Palavra) (j i : ℕ)
    → i < d.nwords
    → d.nwords ≤ dictsiz
    → sozinha (suc (suc (suc j))) (achou b i) (memoria d) w ≡ resultado b d (some i)
unfolding sozinha resultado
sozinha-achou consulta d w j i h c = sozinha-feito j (pos 1) (memoria d) w
sozinha-achou remocao d w j i h c =
    sozinha-passo (suc (suc j)) (subtrai i) (memoria d) w (avanca_em-subtrai d w i (omega arith) c)
    ∙ sozinha-passo (suc j) (substitui i) (memoria (menor d)) w
        (avanca_em-substitui (menor d) w i (omega arith))
    ∙ sozinha-feito (suc j) (pos 1) _ w

sozinha-testa :
    (b : Busca) (d : Dicionario) (w : Palavra) (k i : ℕ)
    → i + k ≡ d.nwords
    → d.nwords ≤ dictsiz
    → sozinha (passos k) (testa b i) (memoria d) w ≡ resultado b d (procura d.dict w k i)
unfolding passos resultado procura
sozinha-testa b d w zero i e h =
    sozinha-passo 2 (testa b i) (memoria d) w (avanca_em-sai d w b i (omega arith))
    ∙ sozinha-feito 2 (pos 0) _ w
sozinha-testa b d w (suc k) i e h =
    let (j, f) = passos-tres k in
    let dentro =
      sozinha-passo (suc (passos k)) (testa b i) (memoria d) w
        (avanca_em-testa d w b i (omega arith)) in
    let compara =
      sozinha-passo (passos k) (compara b i) (memoria d) w
        (avanca_em-compara d w b i (omega arith)) in
    dentro ∙ compara ∙ elim (Bool-cases (iguais w (d.dict i))) [
      | inl g ↦ rw (g, f, procura) (sozinha-achou b d w j i (omega arith) h)
      | inr g ↦ rw (g, procura) (sozinha-testa b d w k (suc i) (omega arith) h)
    ]

sozinha-insertw :
    (d : Dicionario) (w : Palavra) (j : ℕ)
    → sozinha (suc (suc (suc j))) copia (memoria d) w ≡ terminada (insertw d w)
unfolding sozinha insertw linha
sozinha-insertw d w j = elim (Bool-cases (ltb d.nwords dictsiz)) [
  | inl e ↦ elim (Bool-cases (leb (length w) maxword)) [
    | inl f ↦
        let mais : i32 (pos d.nwords +ℤ pos 1) ≡ pos (d.nwords + 1) =
          soma-pos d.nwords (ground arith) in
        rw (e, f, avanca_em)
          (sozinha-feito j _ _ w
            ∙ ap (λ n. some (record { dict = escreve d.dict d.nwords w; nwords = n }, feito n))
                mais)
    | inr f ↦ rw (e, f, avanca_em) refl
  ]
  | inr e ↦ rw (e, avanca_em) refl
]

-- Without another thread in between, the statements of a procedure are the procedure: same
-- dictionary and same result, and undefined behaviour for the same words and dictionaries. Two steps
-- for each word, and three more, are enough, for a dictionary with at most a hundred words.
pub sozinha-local :
    (p : Procedimento) (d : Dicionario) (w : Palavra)
    → d.nwords ≤ dictsiz
    → sozinha (passos d.nwords) (entra p) (memoria d) w ≡ terminada (local p d w)
unfolding sozinha entra local resultado initw deletew lookupw
sozinha-local p_initw d w h =
    let (j, e) = passos-tres d.nwords in rw e (sozinha-feito (suc (suc j)) (pos 1) _ w)
sozinha-local p_insertw d w h = let (j, e) = passos-tres d.nwords in rw e (sozinha-insertw d w j)
sozinha-local p_deletew d w h = elim (Option-cases (procura d.dict w d.nwords 0)) [
  | inl e ↦ rw (sozinha-testa remocao d w d.nwords 0 (omega arith) h, e, deletew, resultado) refl
  | inr (i, e) ↦
      rw (sozinha-testa remocao d w d.nwords 0 (omega arith) h, e, deletew, resultado) refl
]
sozinha-local p_lookupw d w h = elim (Option-cases (procura d.dict w d.nwords 0)) [
  | inl e ↦ rw (sozinha-testa consulta d w d.nwords 0 (omega arith) h, e, lookupw, resultado) refl
  | inr (i, e) ↦
      rw (sozinha-testa consulta d w d.nwords 0 (omega arith) h, e, lookupw, resultado) refl
]
