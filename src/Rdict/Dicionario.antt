-- ===== src/Rdict/Dicionario.antt =====
-- rdict_srp.c in LAB07-SD/thread-RPC.c. A word is the list of its bytes; `dict` is a function from
-- the row to the word in it. A copy that would leave its row, or a row that does not exist, is
-- undefined behaviour: `none`. A row that `deletew` copies onto itself stays as it is, although C
-- leaves that `strcpy` undefined; `serv_request` in Rdict.Atende has undefined behaviour there.
pub mod Palavras
use unifesp_sd.Base.{
  ℕ, zero, suc, ◌+◌, ◌-◌, Bool, true, false, ◌&&◌, Option, none, some, List, [], ◌∷◌, length, ltb,
  leb, ◌==◌, if◌then◌else◌,
}

abbrev pub maxword : ℕ
maxword = 50

abbrev pub dictsiz : ℕ
dictsiz = 100

abbrev pub Palavra : Type 0
Palavra = List ℕ

-- `strcmp(a, b) == 0`
unfoldable pub iguais : Palavra → Palavra → Bool
iguais [] [] = true
iguais [] (y ∷ ys) = false
iguais (x ∷ xs) [] = false
iguais (x ∷ xs) (y ∷ ys) = (x == y) && iguais xs ys

pub record Dicionario : Type 0 where
  pub dict : ℕ → Palavra
  pub nwords : ℕ

unfoldable pub initw : Dicionario → Dicionario × ℕ
initw d = (record d { nwords = 0 }, 1)

-- `strcpy(dict[i], word)`
abbrev pub escreve : (ℕ → Palavra) → ℕ → Palavra → ℕ → Palavra
escreve dict i word j = if i == j then word else dict j

unfoldable pub insertw : Dicionario → Palavra → Option (Dicionario × ℕ)
insertw d word =
    if ltb d.nwords dictsiz && leb (length word) maxword
    then some (record { dict = escreve d.dict d.nwords word; nwords = d.nwords + 1 }, d.nwords + 1)
    else none

-- The loops of `deletew` and `lookupw`: the first row from `i` on that holds the word, with the
-- rounds that are left.
unfoldable pub procura : (ℕ → Palavra) → Palavra → ℕ → ℕ → Option ℕ
procura dict word zero i = none
procura dict word (suc k) i = elim (iguais word (dict i)) [
  | true ↦ some i
  | false ↦ procura dict word k (suc i)
]

-- The last word takes the place of the one that goes.
unfoldable pub deletew : Dicionario → Palavra → Dicionario × ℕ
unfolding procura
deletew d word = elim (procura d.dict word d.nwords 0) [
  | none ↦ (d, 0)
  | some i ↦ let n = d.nwords - 1 in (record { dict = escreve d.dict i (d.dict n); nwords = n }, 1)
]

unfoldable pub lookupw : Dicionario → Palavra → ℕ
unfolding procura
lookupw d word = elim (procura d.dict word d.nwords 0) [ none ↦ 0 | some i ↦ 1 ]
