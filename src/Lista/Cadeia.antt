-- ===== src/Lista/Cadeia.antt =====
-- The nodes that hang from a pointer, as a list of cells.
use unifesp_sd.Base.{
  ◌≡◌, refl, Bool, true, false, ◌||◌, Option, none, List, [], ◌∷◌, arith, length, ◌==◌,
}
use unifesp_sd.Base.Int.{ℤ}
use unifesp_sd.Fila.{Chave, Sfila}
use unifesp_sd.Lista.{Lista}
use unifesp_sd.Lista.Memoria.{Ponteiro, nulo, No, Memoria, grava, Aponta}

-- A node, with the address where it stands.
pub record Celula : Type 0 where
  pub onde : Ponteiro
  pub pid : ℤ
  pub tempo : ℤ

abbrev pub celula : Ponteiro → ℤ → ℤ → Celula
celula p pid tempo = record { onde = p; pid = pid; tempo = tempo }

instance abbrev pub celula_chave : Chave Celula
celula_chave = record { pid = λ c. c.pid; tempo = λ c. c.tempo }

abbrev pub no_de : ℤ → ℤ → Ponteiro → No
no_de pid tempo next = record { pid = pid; tempo = tempo; next = next }

-- Is `a` the address of one of the cells?
abbrev pub tem : Ponteiro → List Celula → Bool
tem a [] = false
tem a (c ∷ cs) = (a == c.onde) || tem a cs

-- From the pointer, `next` leads through these cells to NULL, and through none of them twice.
pub data Cadeia (m : Memoria) : Ponteiro → List Celula → Type 0 where
  fim : Cadeia m nulo []
  elo :
      {p q : Ponteiro} {pid tempo : ℤ} {cs : List Celula}
      → Aponta m p (no_de pid tempo q)
      → tem p cs ≡ false
      → Cadeia m q cs
      → Cadeia m p (celula p pid tempo ∷ cs)

-- A queue in memory: the chain behind `head`, and the counter.
pub record IsLista (m : Memoria) (l : Lista) (cs : List Celula) : Type 0 where
  pub nos : Cadeia m l.head cs
  pub conta : l.tamanho ≡ length cs

-- The queue of cells that it stands for.
abbrev pub vista : Lista → List Celula → Sfila Celula
vista l cs = record { tamanho = l.tamanho; n = l.n; head = cs }

-- A chain stands as long as its own addresses keep their nodes.
pub Cadeia-mesma :
    {m g : Memoria} {p : Ponteiro} {cs : List Celula}
    → Cadeia m p cs
    → ((a : Ponteiro) → tem a cs ≡ true → g a ≡ m a)
    → Cadeia g p cs
Cadeia-mesma fim same = fim
Cadeia-mesma (elo {p} e out s) same =
    let here = same p (ground arith) in
    let l = e.la in
    elo (record { valido = e.valido; la = ground arith }) out
      (Cadeia-mesma s (λ a h. same a (ground arith)))

pub Cadeia-grava :
    {m : Memoria} {p : Ponteiro} {cs : List Celula} (a : Ponteiro) (c : Option No)
    → Cadeia m p cs
    → tem a cs ≡ false
    → Cadeia (grava m a c) p cs
unfolding grava
Cadeia-grava a c s out = Cadeia-mesma s (λ b h. ground arith)

-- An address that holds no node is none of the cells'.
pub tem_de_vago :
    {m : Memoria} {p : Ponteiro} {cs : List Celula} (a : Ponteiro)
    → Cadeia m p cs
    → m a ≡ none
    → tem a cs ≡ false
tem_de_vago a fim h = refl
tem_de_vago a (elo {p} e out s) h = let l = e.la in ground (arith, tem_de_vago a s h)

-- A chain with a first cell.
pub Cadeia-cons :
    {m : Memoria} {p : Ponteiro} {c : Celula} {cs : List Celula}
    → Cadeia m p (c ∷ cs)
    → (q : Ponteiro) × (c ≡ celula p c.pid c.tempo)
      × Aponta m p (no_de c.pid c.tempo q)
      × (tem p cs ≡ false)
      × Cadeia m q cs
Cadeia-cons (elo {q} e out s) = (q, refl, e, out, s)

pub Cadeia-nil : {m : Memoria} {p : Ponteiro} → Cadeia m p [] → p ≡ nulo
Cadeia-nil fim = refl
