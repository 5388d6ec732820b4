-- ===== src/Lista/Insercao/Laco.antt =====
-- The `while` of `insere`, and the linking behind the node where it stops.
use unifesp_sd.Base.{
  ℕ, zero, suc, ◌<◌, ◌≡◌, inl, inr, false, some, List, [], ◌∷◌, arith, length, ◌==◌, Bool-cases,
}
use unifesp_sd.Base.Int.{ℤ, ltb_ℤ}
use unifesp_sd.Fila.{encadeia}
use unifesp_sd.Lista.{liga_depois, avanca}
use unifesp_sd.Lista.Memoria.{
  Ponteiro, No, Memoria, grava, Aponta, Aponta-nulo, le-Aponta, muda-Aponta, Aponta-grava,
  Aponta-grava_fora, Retorna, retorna, Retorna-mono,
}
use unifesp_sd.Lista.Cadeia.{
  Celula, celula, celula_chave, no_de, tem, Cadeia, fim, elo, Cadeia-grava,
}

pub tem-encadeia :
    (a : Ponteiro) (c : Celula) (cs : List Celula)
    → (a == c.onde) ≡ false
    → tem a cs ≡ false
    → tem a (encadeia c cs) ≡ false
unfolding encadeia
tem-encadeia a c [] h g = ground arith
tem-encadeia a c (d ∷ cs) h g = ground (arith, tem-encadeia a c cs)

-- Behind the node at `p` the cells `cs` became `ds`; only those nodes, `p` and `novo` changed.
pub record Ligada (m : Memoria) (p : Ponteiro) (pid tempo : ℤ) (novo : Ponteiro)
    (cs ds : List Celula) (g : Memoria) : Type 0 where
  pub nos : Cadeia g p (celula p pid tempo ∷ ds)
  pub fora : (a : Ponteiro) → tem a cs ≡ false → (a == p) ≡ false → (a == novo) ≡ false → g a ≡ m a

module _ (novo : Ponteiro) (w : No) where
  abbrev pub nova : Celula
  nova = celula novo w.pid w.tempo

  pub liga_depois-Ligada :
      {m : Memoria} {p q : Ponteiro} {pid tempo : ℤ} {cs : List Celula}
      → Aponta m novo w
      → Aponta m p (no_de pid tempo q)
      → tem p cs ≡ false
      → Cadeia m q cs
      → (novo == p) ≡ false
      → tem novo cs ≡ false
      → Retorna (λ _ g. Ligada m p pid tempo novo cs (nova ∷ cs) g) (liga_depois p novo m)
  unfolding liga_depois
  liga_depois-Ligada {m} {p} {q} {pid} {tempo} {cs} n e out s apart away =
      let m1 = grava m novo (some (record w { next = q })) in
      let e1 : Aponta m1 p (no_de pid tempo q) = Aponta-grava_fora e novo _ (ground arith) in
      let m2 = grava m1 p (some (no_de pid tempo novo)) in
      let n1 : Aponta m1 novo (no_de w.pid w.tempo q) = Aponta-grava m novo _ n.valido in
      let n2 : Aponta m2 novo (no_de w.pid w.tempo q) = Aponta-grava_fora n1 p _ (ground arith) in
      let e2 : Aponta m2 p (no_de pid tempo novo) = Aponta-grava m1 p _ e.valido in
      let s2 : Cadeia m2 q cs = Cadeia-grava p _ (Cadeia-grava novo _ s away) out in
      rw (le-Aponta e, muda-Aponta n (λ v. record v { next = q }))
        (rw (muda-Aponta e1 (λ v. record v { next = novo })) (
          retorna tt m2 (record {
            nos = elo e2 (ground arith) (elo n2 away s2);
            fora = λ a i j k. unfold grava in ground arith;
          })))

  -- The node at `p` stays before what the loop did behind it.
  Ligada-elo :
      {m : Memoria} {p q : Ponteiro} {pid tempo pid' tempo' : ℤ} {cs ds : List Celula}
      → Aponta m p (no_de pid tempo q)
      → tem p (celula q pid' tempo' ∷ cs) ≡ false
      → (p == novo) ≡ false
      → tem p ds ≡ false
      → (u : Unit {0}) (g : Memoria) → Ligada m q pid' tempo' novo cs ds g
      → Ligada m p pid tempo novo (celula q pid' tempo' ∷ cs) (celula q pid' tempo' ∷ ds) g
  Ligada-elo {p} e out apart out' u g r =
      let same = r.fora p (ground arith) (ground arith) apart in
      let l = e.la in
      record {
        nos = elo (record { valido = e.valido; la = ground arith }) (ground arith) r.nos;
        fora = λ a i j k. r.fora a (ground arith) (ground arith) k;
      }

  pub avanca-Ligada :
      {m : Memoria} {p q : Ponteiro} {pid tempo : ℤ} {cs : List Celula} (k : ℕ)
      → Aponta m novo w
      → Aponta m p (no_de pid tempo q)
      → tem p cs ≡ false
      → Cadeia m q cs
      → (novo == p) ≡ false
      → tem novo cs ≡ false
      → length cs < k
      → Retorna
          (λ _ g. Ligada m p pid tempo novo cs (encadeia nova cs) g)
          (avanca k p novo w.tempo m)
  unfolding avanca encadeia
  avanca-Ligada zero n e out s apart away h = absurd (omega arith)
  avanca-Ligada (suc k) n e out fim apart away h =
      rw (le-Aponta e) (liga_depois-Ligada n e out fim apart away)
  avanca-Ligada {p} (suc k) n e out (elo {pid} {tempo} {cs} e' out' s) apart away h =
      rw (le-Aponta e) (
        rw (Aponta-nulo e', le-Aponta e')
          (elim (Bool-cases (ltb_ℤ tempo w.tempo)) [
            | inl before ↦ rw before (
                Retorna-mono
                  (avanca-Ligada k n e' out' s (ground arith) (ground arith) (omega arith))
                  (Ligada-elo e out (ground arith)
                    (tem-encadeia p nova cs (ground arith) (ground arith))))
            | inr after ↦ rw after (liga_depois-Ligada n e out (elo e' out' s) apart away)
          ]))
