-- ===== src/Rdict/Leitura/Nextin.antt =====
-- What `nextin` accepts.
use unifesp_sd.Base.{
  ℕ, zero, suc, ◌+◌, ◌≤◌, ◌<◌, ◌≡◌, refl, ap, Bool, true, false, List, [], ◌∷◌, ◌++◌, arith, All,
  length, Bool-cases, inl, inr, ◌==◌, ltb,
}
use unifesp_sd.Rdict.Dicionario.{maxword}
use unifesp_sd.Rdict.Leitura.{
  Lido, fim, longa, lido, com_letra, quer_palavra, pula, le_palavra, palavra_de, comando_de, nextin,
}

module _ (isspace : ℕ → Bool) where
  -- A word of `k` characters at most, none of them a space, and less than `n` characters left.
  abbrev pub Limpa : ℕ → ℕ → Lido → Type 0
  Limpa k n fim = Unit
  Limpa k n longa = Unit
  Limpa k n (lido cmd w resto) =
      (length w ≤ k) × All (λ c. isspace c ≡ false) w × (length resto < n)

  com_letra-Limpa :
      (k n c : ℕ) (r : Lido)
      → isspace c ≡ false
      → Limpa k n r
      → Limpa (suc k) (suc n) (com_letra c r)
  com_letra-Limpa k n c fim e h = tt
  com_letra-Limpa k n c longa e h = tt
  com_letra-Limpa k n c (lido cmd w r) e h = (omega arith, (e, h.1), omega arith)

  le_palavra-Limpa :
      (cmd k i : ℕ) (cs : List ℕ)
      → i + k ≡ maxword
      → Limpa k (length cs) (le_palavra isspace cmd i cs)
  unfolding le_palavra
  le_palavra-Limpa cmd k i [] e = tt
  le_palavra-Limpa cmd zero i (c ∷ cs) e = elim (Bool-cases (isspace c)) [
    | inl s ↦ rw s (omega arith, tt, omega arith)
    | inr s ↦ let full : ltb maxword (suc i) ≡ true = ground arith in rw (s, full) tt
  ]
  le_palavra-Limpa cmd (suc k) i (c ∷ cs) e = elim (Bool-cases (isspace c)) [
    | inl s ↦ rw s (omega arith, tt, omega arith)
    | inr s ↦
        let fits : ltb maxword (suc i) ≡ false = ground arith in
        rw (s, fits)
          (com_letra-Limpa k (length cs) c _ s (le_palavra-Limpa cmd k (suc i) cs (omega arith)))
  ]

  length-pula-le : (cs : List ℕ) → length (pula isspace cs) ≤ length cs
  unfolding pula
  length-pula-le [] = omega arith
  length-pula-le (c ∷ cs) = ground (arith, length-pula-le cs)

  Limpa-mono : (k n m : ℕ) (r : Lido) → n ≤ m → Limpa k n r → Limpa k m r
  Limpa-mono k n m fim h l = tt
  Limpa-mono k n m longa h l = tt
  Limpa-mono k n m (lido cmd w r) h l = (l.0, l.1, omega arith)

  palavra_de-Limpa : (cmd : ℕ) (cs : List ℕ) → Limpa maxword (length cs) (palavra_de isspace cmd cs)
  unfolding palavra_de
  palavra_de-Limpa cmd [] = tt
  palavra_de-Limpa cmd (c ∷ cs) = elim (Bool-cases (c == b'\n')) [
    | inl e ↦ rw e (omega arith, tt, omega arith)
    | inr e ↦ rw e (le_palavra-Limpa cmd maxword 0 (c ∷ cs) refl)
  ]

  comando_de-Limpa : (cs : List ℕ) → Limpa maxword (length cs) (comando_de isspace cs)
  unfolding comando_de
  comando_de-Limpa [] = tt
  comando_de-Limpa (c ∷ cs) = elim (Bool-cases (quer_palavra c)) [
    | inl e ↦ rw e (
        Limpa-mono maxword _ _ (palavra_de isspace c (pula isspace cs))
          (omega (arith, length-pula-le cs)) (palavra_de-Limpa c (pula isspace cs)))
    | inr e ↦ rw e (omega arith, tt, omega arith)
  ]

  -- Whatever the input, a command that `nextin` returns has a word of fifty characters at most with
  -- no space in it, which its buffer holds, and some of the input was read.
  pub nextin-Limpa : (cs : List ℕ) → Limpa maxword (length cs) (nextin isspace cs)
  unfolding nextin
  nextin-Limpa cs =
      Limpa-mono maxword _ _ (comando_de isspace (pula isspace cs)) (length-pula-le cs)
        (comando_de-Limpa (pula isspace cs))

  le_palavra_lem :
      (cmd i : ℕ) (w resto : List ℕ)
      → isspace b'\n' ≡ true
      → All (λ c. isspace c ≡ false) w
      → i + length w ≤ maxword
      → le_palavra isspace cmd i (w ++ b'\n' ∷ resto) ≡ lido cmd w resto
  unfolding le_palavra
  le_palavra_lem cmd i [] resto nl a h = rw nl
  le_palavra_lem cmd i (c ∷ w) resto nl a h =
      let fits : ltb maxword (suc i) ≡ false = ground arith in
      rw (a.0, fits, le_palavra_lem cmd (suc i) w resto nl a.1 (omega arith))

  -- A command that takes a word, a space, a word of one to fifty characters with no space, and the
  -- end of the line are read as that command and that word, and the rest is left.
  pub nextin_lido :
      (cmd c : ℕ) (w resto : List ℕ)
      → isspace b' ' ≡ true
      → isspace b'\n' ≡ true
      → isspace cmd ≡ false
      → quer_palavra cmd ≡ true
      → isspace c ≡ false
      → All (λ x. isspace x ≡ false) w
      → length w < maxword
      → nextin isspace (cmd ∷ b' ' ∷ c ∷ (w ++ b'\n' ∷ resto)) ≡ lido cmd (c ∷ w) resto
  unfolding nextin
  nextin_lido cmd c w resto sp nl sc q s a h =
      let other : (c == b'\n') ≡ false = elim (Bool-cases (c == b'\n')) [
        | inl e ↦ let here : c ≡ b'\n' = ground arith in cc (ap isspace here)
        | inr e ↦ e
      ] in
      rw (sc, q, sp, s, other) (le_palavra_lem cmd 0 (c ∷ w) resto nl (s, a) (omega arith))
