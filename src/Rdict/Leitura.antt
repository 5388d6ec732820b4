-- ===== src/Rdict/Leitura.antt =====
-- `nextin` and the client's loop of rdict_client.c in LAB07-SD/thread-RPC.c, on the characters of
-- the standard input. `isspace` is the C library's. `sprintf` prints the one character of the command
-- with `%s`: of what it reads, that character is kept, although no byte that ends a string follows it.
pub mod Nextin
use unifesp_sd.Base.{
  ℕ, zero, suc, ◌+◌, Bool, true, false, ◌||◌, Option, none, some, List, [], ◌∷◌, ◌==◌, ltb,
  if◌then◌else◌,
}
use unifesp_sd.Rdict.Dicionario.{Palavra, maxword, Dicionario, initw, insertw, deletew, lookupw}

-- What `nextin` returns: -1 at the end of the input, a command with its word and the input left, or
-- the end of the process by a word that is too long.
pub data Lido : Type 0 where
  fim longa : Lido
  lido : ℕ → Palavra → List ℕ → Lido

-- `*word++=ch` before what follows is read.
abbrev pub com_letra : ℕ → Lido → Lido
com_letra c fim = fim
com_letra c longa = longa
com_letra c (lido cmd w resto) = lido cmd (c ∷ w) resto

abbrev pub quer_palavra : ℕ → Bool
quer_palavra c = c == b'i' || (c == b'l' || c == b'd')

module _ (isspace : ℕ → Bool) where
  -- `while(isspace(ch)) ch=getc(stdin);`, which leaves a character or the end of the input.
  unfoldable pub pula : List ℕ → List ℕ
  pula [] = []
  pula (c ∷ cs) = if isspace c then pula cs else c ∷ cs

  -- The loop that stores the word, of which `i` characters are read. At the end of the input `getc`
  -- goes on giving EOF, which is no space, until the word is too long.
  unfoldable pub le_palavra : ℕ → ℕ → List ℕ → Lido
  le_palavra cmd i [] = longa
  le_palavra cmd i (c ∷ cs) =
      let resto = le_palavra cmd (suc i) cs in
      if isspace c
      then lido cmd [] cs
      else (if ltb maxword (suc i) then longa else com_letra c resto)

  -- From the first character of the word on.
  unfoldable pub palavra_de : ℕ → List ℕ → Lido
  unfolding le_palavra
  palavra_de cmd [] = fim
  palavra_de cmd (c ∷ cs) = if c == b'\n' then lido cmd [] cs else le_palavra cmd 0 (c ∷ cs)

  -- From the command on.
  unfoldable pub comando_de : List ℕ → Lido
  unfolding palavra_de pula
  comando_de [] = fim
  comando_de (c ∷ cs) = if quer_palavra c then palavra_de c (pula cs) else lido c [] cs

  unfoldable pub nextin : List ℕ → Lido
  unfolding comando_de pula
  nextin cs = comando_de (pula cs)
