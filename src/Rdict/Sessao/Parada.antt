-- ===== src/Rdict/Sessao/Parada.antt =====
-- The client's loop ends: each round reads some of the input.
use unifesp_sd.Base.{
  ℕ, zero, suc, ◌<◌, ◌≡◌, refl, Bool, Option, List, [], ◌++◌, arith, length, inl, inr, Bool-cases,
  ltb,
}
use unifesp_sd.Base.Int.{ℤ}
use unifesp_sd.Rdict.Dicionario.{Palavra, maxword}
use unifesp_sd.Rdict.Leitura.{Lido, fim, longa, lido, nextin}
use unifesp_sd.Rdict.Leitura.Nextin.{Limpa, nextin-Limpa}
use unifesp_sd.Rdict.Sessao.{
  Aviso, Estado, Passo, segue, sai, Termino, exit_com, comando, laco, rdictprog_1, main,
}

module _ {S : Type 0} (servidor : S → ℕ → Palavra → S × Option ℤ) (isspace : ℕ → Bool) where
  -- The process ends.
  abbrev pub Acaba : Termino S → Type 0
  Acaba r = (codigo : ℕ) × (avisos : List Aviso) × (r ≡ exit_com codigo avisos)

  comando-Acaba :
      (k : ℕ) (s : Estado S) (entrada : List ℕ) (avisos : List Aviso) (cmd : ℕ) (w resto : List ℕ)
      (p : Passo S)
      → nextin isspace entrada ≡ lido cmd w resto
      → comando servidor s cmd w ≡ p
      → ((t : Estado S) (novos : List Aviso) → Acaba (laco servidor isspace k t resto novos))
      → Acaba (laco servidor isspace (suc k) s entrada avisos)
  unfolding laco
  comando-Acaba k s entrada avisos cmd w resto (segue t novos) e f h =
      rw (e, laco) (rw f (h t (avisos ++ novos)))
  comando-Acaba k s entrada avisos cmd w resto (sai novos) e f h =
      (0, avisos ++ novos, rw (e, laco) (rw f))

  lido-Acaba :
      (k : ℕ) (s : Estado S) (entrada : List ℕ) (avisos : List Aviso) (r : Lido)
      → nextin isspace entrada ≡ r
      → Limpa isspace maxword (length entrada) r
      → ((t : Estado S) (resto : List ℕ) (novos : List Aviso)
          → length resto < length entrada
          → Acaba (laco servidor isspace k t resto novos))
      → Acaba (laco servidor isspace (suc k) s entrada avisos)
  unfolding laco
  lido-Acaba k s entrada avisos fim e l h = (0, avisos, rw (e, laco))
  lido-Acaba k s entrada avisos longa e l h = (1, avisos, rw (e, laco))
  lido-Acaba k s entrada avisos (lido cmd w resto) e l h =
      comando-Acaba k s entrada avisos cmd w resto _ e refl (λ t novos. h t resto novos l.2)

  laco-Acaba :
      (k : ℕ) (s : Estado S) (entrada : List ℕ) (avisos : List Aviso)
      → length entrada < k
      → Acaba (laco servidor isspace k s entrada avisos)
  laco-Acaba zero s entrada avisos h = absurd (omega arith)
  laco-Acaba (suc k) s entrada avisos h =
      lido-Acaba k s entrada avisos _ refl (nextin-Limpa isspace entrada)
        λ t resto novos l. laco-Acaba k t resto novos (omega arith)

  -- With any arguments and whatever the server answers, the client's `main` ends the process on any
  -- input: one turn of the loop for each character, and one more, are enough.
  pub main-Acaba :
      (argc : ℕ) (criado : Bool) (k : ℕ) (s : Estado S) (entrada : List ℕ)
      → length entrada < k
      → Acaba (main servidor isspace argc criado k s entrada)
  unfolding main rdictprog_1
  main-Acaba argc criado k s entrada h = elim (Bool-cases (ltb argc 2)) [
    | inl e ↦ (1, [], rw e)
    | inr e ↦ rw e (elim (Bool-cases criado) [
      | inl f ↦ rw f (laco-Acaba k s entrada [] h)
      | inr f ↦ (1, [], rw f)
    ])
  ]
