-- ===== src/Rdict/Dicionario/Palavras.antt =====
-- The words that a dictionary holds, as a list, and what the operations do to it.
use mathlib.Core.List.{
  Mem, mem-cons, mem-cons_self, mem-cons_of_mem, not-mem-nil, perm_append_singleton,
}
use mathlib.Core.List.Perm
use native.Mathlib.Decide.{dec_lt}
use mathlib.Core.HLevel.{⊥_prop}
use mathlib.Core.Logic.Or
use unifesp_sd.Base.{
  ℕ, zero, suc, ◌+◌, ◌-◌, ◌≤◌, ◌<◌, ◌≡◌, ◌↔◌, ◌⊎◌, refl, sym, ap, subst, ◌∙◌, inl, inr, true, none,
  some, List, [], ◌∷◌, ◌++◌, Perm, arith, length, Bool-cases, Option-cases, ◌==◌, ltb, leb, ◌&&◌,
}
use unifesp_sd.Rdict.Dicionario.{
  Palavra, iguais, Dicionario, maxword, dictsiz, escreve, insertw, procura, deletew, lookupw,
}

pub iguais_iff : (a b : Palavra) → (iguais a b ≡ true) ↔ (a ≡ b)
unfolding iguais
iguais_iff [] [] = (λ h. refl, λ h. refl)
iguais_iff [] (y ∷ ys) = (λ h. cc, λ h. cc)
iguais_iff (x ∷ xs) [] = (λ h. cc, λ h. cc)
iguais_iff (x ∷ xs) (y ∷ ys) =
    (λ h. ground (arith, (iguais_iff xs ys).0), λ h. ground (arith, (iguais_iff xs ys).1))

-- The rows from `i` on, `k` of them.
abbrev pub linhas : (ℕ → Palavra) → ℕ → ℕ → List Palavra
linhas dict zero i = []
linhas dict (suc k) i = dict i ∷ linhas dict k (suc i)

abbrev pub palavras : Dicionario → List Palavra
palavras d = linhas d.dict d.nwords 0

pub linhas-suc :
    (dict : ℕ → Palavra) (k i : ℕ) → linhas dict (suc k) i ≡ linhas dict k i ++ dict (i + k) ∷ []
linhas-suc dict zero i = ground arith
linhas-suc dict (suc k) i =
    ap (◌∷◌ (dict i))
      (linhas-suc dict k (suc i) ∙ ap (λ n. linhas dict k (suc i) ++ dict n ∷ []) (omega arith))

-- A write below or above the rows leaves them.
pub linhas-escreve_fora :
    (dict : ℕ → Palavra) (k i j : ℕ) (w : Palavra)
    → ((j < i) ⊎ (i + k ≤ j))
    → linhas (escreve dict j w) k i ≡ linhas dict k i
linhas-escreve_fora dict zero i j w h = refl
linhas-escreve_fora dict (suc k) i j w h =
    ground (arith, linhas-escreve_fora dict k (suc i) j w (omega arith))

-- What the loop of `deletew` and `lookupw` finds.
procura-some :
    (dict : ℕ → Palavra) (w : Palavra) (k i j : ℕ)
    → procura dict w k i ≡ some j
    → (i ≤ j) × (j < i + k) × (dict j ≡ w)
unfolding procura
procura-some dict w zero i j h = absurd (cc)
procura-some dict w (suc k) i j h = elim (Bool-cases (iguais w (dict i))) [
  | inl e ↦
      let here : i ≡ j = ground arith in
      (omega arith, omega arith, ap dict (sym here) ∙ sym ((iguais_iff w (dict i)).0 e))
  | inr e ↦
      let (a, b, c) = procura-some dict w k (suc i) j (ground arith) in
      (omega arith, omega arith, c)
]

procura-mem :
    (dict : ℕ → Palavra) (w : Palavra) (k i j : ℕ)
    → procura dict w k i ≡ some j
    → Mem w (linhas dict k i)
unfolding procura
procura-mem dict w zero i j h = absurd (cc)
procura-mem dict w (suc k) i j h = elim (Bool-cases (iguais w (dict i))) [
  | inl e ↦ rw ((iguais_iff w (dict i)).0 e) mem-cons_self
  | inr e ↦ mem-cons_of_mem (dict i) (procura-mem dict w k (suc i) j (ground arith))
]

procura-none :
    (dict : ℕ → Palavra) (w : Palavra) (k i : ℕ)
    → procura dict w k i ≡ none
    → ¬ Mem w (linhas dict k i)
unfolding procura
procura-none dict w zero i h m = not-mem-nil m
procura-none dict w (suc k) i h m = elim (Bool-cases (iguais w (dict i))) [
  | inl e ↦ absurd (ground arith)
  | inr e ↦
      Or.elim ⊥_prop (mem-cons.0 m) (λ q. cc ((iguais_iff w (dict i)).1 q))
        (procura-none dict w k (suc i) (ground arith))
]

-- `lookupw` answers 1 exactly for the words that the dictionary holds, and else 0.
pub lookupw_iff :
    (d : Dicionario) (w : Palavra)
    → ((lookupw d w ≡ 1) ↔ Mem w (palavras d)) × ((lookupw d w ≡ 0) ↔ (¬ Mem w (palavras d)))
unfolding lookupw
lookupw_iff d w = elim (Option-cases (procura d.dict w d.nwords 0)) [
  | inl e ↦
      let out = procura-none d.dict w d.nwords 0 e in
      rw (e, lookupw) ((λ h. absurd (omega arith), λ m. absurd (out m)), (λ h. out, λ h. refl))
  | inr (j, e) ↦
      let held = procura-mem d.dict w d.nwords 0 j e in
      rw (e, lookupw) ((λ h. held, λ m. refl), (λ h. absurd (omega arith), λ h. absurd (h held)))
]

acrescenta :
    (dict : ℕ → Palavra) (n : ℕ) (w : Palavra)
    → linhas (escreve dict n w) (n + 1) 0 ≡ linhas dict n 0 ++ w ∷ []
acrescenta dict n w =
    let s : n + 1 ≡ suc n = omega arith in
    let z : 0 + n ≡ n = omega arith in
    let t : (n == n) ≡ true = ground arith in
    ap (λ k. linhas (escreve dict n w) k 0) s
    ∙ linhas-suc (escreve dict n w) n 0
    ∙ ap (λ k. linhas (escreve dict n w) n 0 ++ escreve dict n w k ∷ []) z
    ∙ rw (linhas-escreve_fora dict n 0 n w (inr (omega arith)), t)

-- `insertw` adds a word that fits behind the others and answers their new number; a word or a
-- dictionary that is too long makes it write out of bounds.
pub insertw-palavras :
    (d : Dicionario) (w : Palavra)
    → ((e : Dicionario) × (insertw d w ≡ some (e, d.nwords + 1))
        × (palavras e ≡ palavras d ++ w ∷ [])
        × (d.nwords < dictsiz)
        × (length w ≤ maxword))
      ⊎ ((insertw d w ≡ none) × ((dictsiz ≤ d.nwords) ⊎ (maxword < length w)))
unfolding insertw
insertw-palavras d w = elim (Bool-cases (ltb d.nwords dictsiz && leb (length w) maxword)) [
  | inl e ↦ inl (
    record { dict = escreve d.dict d.nwords w; nwords = d.nwords + 1 },
    rw e,
    acrescenta d.dict d.nwords w,
    ground arith,
    ground arith,
  )
  | inr e ↦ inr (rw e, ground arith)
]

-- The row `j` with another word in it, and the word that was there.
troca-perm :
    (dict : ℕ → Palavra) (k i j : ℕ) (v : Palavra)
    → i ≤ j
    → j < i + k
    → Perm (linhas dict k i ++ v ∷ []) (dict j ∷ linhas (escreve dict j v) k i)
troca-perm dict zero i j v h g = absurd (omega arith)
troca-perm dict (suc k) i j v h g = elim (Bool-cases (j == i)) [
  | inl e ↦
      let here : j ≡ i = ground arith in
      rw (linhas-escreve_fora dict k (suc i) j v (inl (omega arith)), e)
        (rw here (Perm.cons (dict i) (perm_append_singleton v (linhas dict k (suc i)))))
  | inr e ↦
      let later : suc i ≤ j = ground arith in
      let rest = troca-perm dict k (suc i) j v later (omega arith) in
      rw e (Perm.trans (Perm.cons (dict i) rest) (Perm.swap (dict j) (dict i) _))
]

ultima-perm :
    (dict : ℕ → Palavra) (m j : ℕ)
    → j < suc m
    → Perm (linhas dict m 0 ++ dict (0 + m) ∷ []) (dict j ∷ linhas (escreve dict j (dict m)) m 0)
ultima-perm dict m j h =
    let z : 0 + m ≡ m = omega arith in
    rw z (elim (dec_lt j m) [
      | yes lt ↦ troca-perm dict m 0 j (dict m) (omega arith) (omega arith)
      | no ge ↦
          let last : j ≡ m = omega arith in
          rw (last, linhas-escreve_fora dict m 0 m (dict m) (inr (omega arith)))
            (perm_append_singleton (dict m) (linhas dict m 0))
    ])

-- The dictionary without the word in row `j`, whose place the last one took.
sem_linha : Dicionario → ℕ → Dicionario
sem_linha d j = record { dict = escreve d.dict j (d.dict (d.nwords - 1)); nwords = d.nwords - 1 }

sem_linha-perm :
    (d : Dicionario) (n j : ℕ)
    → d.nwords ≡ n
    → j < n
    → Perm (palavras d) (d.dict j ∷ palavras (sem_linha d j))
unfolding sem_linha
sem_linha-perm d zero j e h = absurd (omega arith)
sem_linha-perm d (suc m) j e h =
    let last : d.nwords - 1 ≡ m = omega arith in
    rw (last, e, linhas-suc d.dict m 0) (ultima-perm d.dict m j h)

-- `deletew` takes one copy of a word that the dictionary holds out of it and answers 1; the others
-- stay, in another order. For a word that it does not hold it answers 0 and changes nothing.
pub deletew-palavras :
    (d : Dicionario) (w : Palavra)
    → ((e : Dicionario) × (deletew d w ≡ (e, 1)) × Perm (palavras d) (w ∷ palavras e))
      ⊎ ((deletew d w ≡ (d, 0)) × (¬ Mem w (palavras d)))
unfolding deletew
deletew-palavras d w = elim (Option-cases (procura d.dict w d.nwords 0)) [
  | inl e ↦ inr (rw (e, deletew), procura-none d.dict w d.nwords 0 e)
  | inr (j, e) ↦
      let (a, b, c) = procura-some d.dict w d.nwords 0 j e in
      inl (
        sem_linha d j,
        unfold sem_linha in rw (e, deletew),
        subst (λ v. Perm (palavras d) (v ∷ palavras (sem_linha d j))) c
            (sem_linha-perm d d.nwords j refl (omega arith)),
      )
]
