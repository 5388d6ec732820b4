-- ===== src/Rdict/Concorrente/Contagem.antt =====
-- The counter of the dictionary while threads insert words.
use unifesp_sd.Base.{
  ℕ, zero, suc, ◌+◌, ◌≤◌, ◌<◌, ◌^◌, ◌≡◌, refl, ap, ◌∙◌, Option, none, some, List, [], ◌∷◌, map,
  length, arith, Option-cases, Bool-cases, inl, inr, leb, ◌>>=◌,
}
use unifesp_sd.Base.Int.{pos, ◌+ℤ◌, i32, trunca}
use unifesp_sd.Rdict.Dicionario.{Dicionario, Palavra, maxword}
use unifesp_sd.Rdict.Atende.{p_insertw}
use unifesp_sd.Rdict.Concorrente.{
  Memoria, memoria, Ponto, zera, copia, soma, devolve, testa, compara, subtrai, substitui, feito,
  linha, avanca_em, Linha, passo, corre, entra, parte,
}

-- The points of `insertw`, with whether the thread has counted its word.
abbrev pub Contou : Ponto → ℕ → Type 0
Contou zera n = ⊥
Contou copia n = n ≡ 0
Contou soma n = n ≡ 0
Contou devolve n = n ≡ 1
Contou (testa b i) n = ⊥
Contou (compara b i) n = ⊥
Contou (subtrai i) n = ⊥
Contou (substitui i) n = ⊥
Contou (feito r) n = n ≡ 1

-- Of so many threads, so many have counted their word.
pub data Contadas : ℕ → ℕ → List Linha → Type 0 where
  nenhuma : Contadas 0 0 []
  mais :
      {l c : ℕ} {ts : List Linha} (t : Linha) (k : ℕ)
      → Contou t.ponto k
      → k ≤ 1
      → Contadas l c ts
      → Contadas (suc l) (k + c) (t ∷ ts)

-- Undefined behaviour, or `l` threads whose counts and `n` make up `nwords`.
abbrev pub Conta : ℕ → ℕ → Option (Memoria × List Linha) → Type 0
Conta n l none = Unit
Conta n l (some (m, ts)) = (c : ℕ) × (m.nwords ≡ pos (n + c)) × Contadas l c ts

conta-suc : (n : ℕ) → suc n < 2 ^ 31 → i32 (pos n +ℤ pos 1) ≡ pos (suc n)
unfolding trunca ◌+ℤ◌
conta-suc n h = ground arith

Contadas-le : (l c : ℕ) (ts : List Linha) → Contadas l c ts → c ≤ l
Contadas-le _ _ _ nenhuma = omega arith
Contadas-le _ _ _ (mais {l} {c} {ts} t k a b s) = omega (arith, Contadas-le l c ts s)

-- A step of a thread at a point of `insertw`, while `nwords` is `n`.
Mudou : ℕ → ℕ → Option (Memoria × Ponto) → Type 0
Mudou n k none = Unit
Mudou n k (some (m, q)) = (j : ℕ) × (m.nwords ≡ pos (n + j)) × Contou q (k + j) × (k + j ≤ 1)

avanca_em-Mudou :
    (p : Ponto) (m : Memoria) (w : Palavra) (n k : ℕ)
    → m.nwords ≡ pos n
    → suc n < 2 ^ 31
    → Contou p k
    → k ≤ 1
    → Mudou n k (avanca_em p m w)
unfolding Mudou avanca_em
avanca_em-Mudou zera m w n k e h c b = absurd c
avanca_em-Mudou copia m w n k e h c b = elim (Option-cases (linha m.nwords)) [
  | inl f ↦ rw (f, avanca_em) tt
  | inr (i, f) ↦ elim (Bool-cases (leb (length w) maxword)) [
    | inl g ↦ rw (f, g, avanca_em) (0, ground arith, omega arith, omega arith)
    | inr g ↦ rw (f, g, avanca_em) tt
  ]
]
avanca_em-Mudou soma m w n k e h c b = (
  1,
  ap (λ z. i32 (z +ℤ pos 1)) e ∙ conta-suc n h ∙ ap pos (omega arith),
  omega arith,
  omega arith,
)
avanca_em-Mudou devolve m w n k e h c b = (0, ground arith, omega arith, omega arith)
avanca_em-Mudou (testa b' i) m w n k e h c b = absurd c
avanca_em-Mudou (compara b' i) m w n k e h c b = absurd c
avanca_em-Mudou (subtrai i) m w n k e h c b = absurd c
avanca_em-Mudou (substitui i) m w n k e h c b = absurd c
avanca_em-Mudou (feito r) m w n k e h c b = (0, ground arith, omega arith, omega arith)

-- The first thread steps.
primeira-Conta :
    (n l c k : ℕ) (t : Linha) (ts : List Linha) (r : Option (Memoria × Ponto))
    → Mudou (n + (k + c)) k r
    → Contadas l c ts
    → Conta n (suc l) (r >>= λ (m, p). some (m, record t { ponto = p } ∷ ts))
unfolding Mudou
primeira-Conta n l c k t ts none h s = tt
primeira-Conta n l c k t ts (some (m, q)) (j, e, f, b) s =
    (k + j + c, e ∙ ap pos (omega arith), mais (record t { ponto = q }) (k + j) f b s)

-- Another thread steps.
outra-Conta :
    (n l k : ℕ) (t : Linha) (r : Option (Memoria × List Linha))
    → Conta (n + k) l r
    → Contou t.ponto k
    → k ≤ 1
    → Conta n (suc l) (r >>= λ (m, ts). some (m, t ∷ ts))
outra-Conta n l k t none h a b = tt
outra-Conta n l k t (some (m, ts)) (c, e, s) a b = (k + c, e ∙ ap pos (omega arith), mais t k a b s)

passo-Conta :
    (j n l c : ℕ) (m : Memoria) (ts : List Linha)
    → n + suc l < 2 ^ 31
    → m.nwords ≡ pos (n + c)
    → Contadas l c ts
    → Conta n l (passo j m ts)
unfolding passo
passo-Conta j n _ _ m _ h e nenhuma = (0, e, nenhuma)
passo-Conta zero n _ _ m _ h e (mais {l} {c} {ts} t k a b s) =
    let room = Contadas-le l c ts s in
    primeira-Conta n l c k t ts _
      (avanca_em-Mudou t.ponto m t.word (n + (k + c)) k e (omega (arith, room)) a b) s
passo-Conta (suc j) n _ _ m _ h e (mais {l} {c} {ts} t k a b s) =
    outra-Conta n l k t _
      (passo-Conta j (n + k) l c m ts (omega arith) (e ∙ ap pos (omega arith)) s) a b

continua-Conta :
    (n l : ℕ) (ns : List ℕ) (r : Option (Memoria × List Linha))
    → Conta n l r
    → ((m : Memoria) (ts : List Linha) → Conta n l (some (m, ts)) → Conta n l (corre ns m ts))
    → Conta n l (r >>= λ (m, ts). corre ns m ts)
continua-Conta n l ns none c h = tt
continua-Conta n l ns (some (m, ts)) c h = h m ts c

threads-Conta :
    (ns : List ℕ) (n l : ℕ) (m : Memoria) (ts : List Linha)
    → n + suc l < 2 ^ 31
    → Conta n l (some (m, ts))
    → Conta n l (corre ns m ts)
unfolding corre
threads-Conta [] n l m ts h s = s
threads-Conta (j ∷ ns) n l m ts h (c, e, s) =
    continua-Conta n l ns _ (passo-Conta j n l c m ts h e s)
      (λ m' ts'. threads-Conta ns n l m' ts' h)

partem-Contadas : (ws : List Palavra) → Contadas (length ws) 0 (map (parte p_insertw) ws)
unfolding parte entra
partem-Contadas [] = nenhuma
partem-Contadas (w ∷ ws) = mais _ 0 refl (omega arith) (partem-Contadas ws)

-- However the statements of any number of insertions interleave, and after any part of them: unless
-- one of them writes out of bounds, `nwords` has grown by one for each thread that is past its
-- `nwords++`. The words and the threads together are fewer than an `int` counts.
pub corre-Conta :
    (d : Dicionario) (ws : List Palavra) (ns : List ℕ)
    → d.nwords + suc (length ws) < 2 ^ 31
    → Conta d.nwords (length ws) (corre ns (memoria d) (map (parte p_insertw) ws))
corre-Conta d ws ns h =
    threads-Conta ns d.nwords (length ws) (memoria d) _ h
      (0, ap pos (omega arith), partem-Contadas ws)
