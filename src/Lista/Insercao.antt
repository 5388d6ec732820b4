-- ===== src/Lista/Insercao.antt =====
-- `insere` on the heap does what the abstract `insere` does.
pub mod Laco
use unifesp_sd.Base.{
  ℕ, zero, suc, ◌+◌, ◌≤◌, ◌<◌, ◌≡◌, ◌≢◌, refl, ap, subst, sym, ◌∙◌, inl, inr, Bool, true, false,
  Option, none, some, List, [], ◌∷◌, arith, length, ltb, ◌==◌, Bool-cases, if◌then◌else◌,
}
use unifesp_sd.Base.Int.{ℤ, ltb_ℤ}
use unifesp_sd.Fila
use unifesp_sd.Fila.Conteudo.{length-Encaixe}
use unifesp_sd.Lista.{Lista, avanca, encaixa, insere}
use unifesp_sd.Lista.Memoria.{
  Ponteiro, nulo, No, Memoria, grava, Fim, pronto, depois, ◌>>=◌, ◌>>◌, malloc, Aponta, Aponta-nulo,
  le-Aponta, muda-Aponta, Aponta-grava, Aponta-grava_fora, Retorna, retorna, depois-Retorna,
  Retorna-mono, malloc-Aponta,
}
use unifesp_sd.Lista.Cadeia.{
  Celula, celula, celula_chave, no_de, tem, Cadeia, fim, elo, Cadeia-grava, IsLista, vista,
  tem_de_vago, Cadeia-cons,
}
use unifesp_sd.Lista.Percurso.{esta_na_fila_lem}
use unifesp_sd.Lista.Insercao.Laco.{nova, tem-encadeia, Ligada, avanca-Ligada}

-- The new `head` leads through the cells that the abstract queue has; other addresses are as before.
record Encaixada (m : Memoria) (l : Lista) (novo : Ponteiro) (w : No) (cs : List Celula)
    (head : Ponteiro) (g : Memoria) : Type 0 where
  ds : List Celula
  passo :
      Fila.liga (vista l cs) (nova novo w)
      ≡ some (vista (record l { tamanho = l.tamanho + 1; head = head }) ds, true)
  nos : Cadeia g head ds
  conta : length ds ≡ suc (length cs)
  fora : (a : Ponteiro) → tem a cs ≡ false → (a == novo) ≡ false → g a ≡ m a

length-encadeia : (c : Celula) (cs : List Celula) → length (Fila.encadeia c cs) ≡ suc (length cs)
unfolding Fila.encadeia
length-encadeia c [] = refl
length-encadeia c (d ∷ cs) = ground (arith, length-encadeia c cs)

module _ {m : Memoria} {l : Lista} (novo : Ponteiro) (w : No) (n : Aponta m novo w) where
  encaixa-vazia : IsLista m l [] → Retorna (Encaixada m l novo w []) (encaixa l novo w.tempo m)
  unfolding encaixa Fila.liga
  encaixa-vazia is =
      let empty : (l.tamanho == 0) ≡ true = let c = is.conta in ground arith in
      let g = grava m novo (some (record w { next = nulo })) in
      rw (empty, muda-Aponta n (λ v. record v { next = nulo }))
        (retorna novo g (record {
          ds = nova novo w ∷ [];
          passo = rw empty;
          nos = elo (Aponta-grava m novo _ n.valido) refl fim;
          conta = refl;
          fora = λ a i j. unfold grava in ground arith;
        }))

  encaixa-cheia :
      {c : Celula} {cs : List Celula}
      → IsLista m l (c ∷ cs)
      → tem novo (c ∷ cs) ≡ false
      → Retorna (Encaixada m l novo w (c ∷ cs)) (encaixa l novo w.tempo m)
  unfolding encaixa Fila.liga
  encaixa-cheia {c} {cs} is away =
      let (q, here, e, out, s) = Cadeia-cons is.nos in
      let some_there : (l.tamanho == 0) ≡ false = let k = is.conta in ground arith in
      rw (some_there, le-Aponta e)
        (elim (Bool-cases (ltb_ℤ w.tempo c.tempo)) [
          | inl first ↦
              rw (first, muda-Aponta n (λ v. record v { next = l.head }))
                (retorna novo (grava m novo (some (record w { next = l.head }))) (record {
                  ds = nova novo w ∷ c ∷ cs;
                  passo = rw (some_there, first);
                  nos = elo (Aponta-grava m novo _ n.valido) away (Cadeia-grava novo _ is.nos away);
                  conta = refl;
                  fora = λ a i j. unfold grava in ground arith;
                }))
          | inr later ↦ rw later (
              depois-Retorna
                (avanca-Ligada novo w (suc l.tamanho) n e out s (ground arith) (ground arith)
                  (let k = is.conta in omega arith))
                λ u g r. retorna l.head g (record {
                  ds = c ∷ Fila.encadeia (nova novo w) cs;
                  passo = rw (some_there, later);
                  nos =
                      subst (λ d. Cadeia g l.head (d ∷ Fila.encadeia (nova novo w) cs)) (sym here)
                        r.nos;
                  conta = ap suc (length-encadeia (nova novo w) cs);
                  fora = λ a i j. r.fora a (ground arith) (ground (arith, here)) j;
                }))
        ])

  encaixa-Encaixada :
      (cs : List Celula)
      → IsLista m l cs
      → tem novo cs ≡ false
      → Retorna (Encaixada m l novo w cs) (encaixa l novo w.tempo m)
  encaixa-Encaixada [] is away = encaixa-vazia is
  encaixa-Encaixada (c ∷ cs) is away = encaixa-cheia is away

-- What a call of `insere` with the address `novo` for its node leaves: a queue in memory, which is
-- the one that the abstract `insere` gives, with the same result. Nodes of others stay; a node that
-- was allocated and refused is still there, in no queue.
pub record Inserida (m : Memoria) (novo : Ponteiro) (pid tempo : ℤ) (l : Lista) (cs : List Celula)
    (r : Bool × Lista) (g : Memoria) : Type 0 where
  pub ds : List Celula
  pub passo : Fila.insere (vista l cs) (celula novo pid tempo) ≡ some (vista r.1 ds, r.0)
  pub lista : IsLista g r.1 ds
  pub fora : (a : Ponteiro) → tem a cs ≡ false → (a == novo) ≡ false → g a ≡ m a
  pub vaza : r.0 ≡ false → ltb l.tamanho l.n ≡ true → (tem novo ds ≡ false) × (g novo ≢ none)

module _ {m : Memoria} {l : Lista} {cs : List Celula} (novo : Ponteiro) (lixo : No) (pid tempo : ℤ)
    (is : IsLista m l cs) (valido : novo ≢ nulo) (vago : m novo ≡ none) where
  -- The memory once the new node is filled.
  abbrev cheio : No
  cheio = record lixo { pid = pid; tempo = tempo }

  abbrev m1 : Memoria
  m1 = grava m novo (some lixo)

  abbrev m2 : Memoria
  m2 = grava m1 novo (some (record lixo { pid = pid }))

  abbrev m3 : Memoria
  m3 = grava m2 novo (some cheio)

  longe : tem novo cs ≡ false
  longe = tem_de_vago novo is.nos vago

  lista-m3 : IsLista m3 l cs
  lista-m3 = record {
    nos = Cadeia-grava novo _ (Cadeia-grava novo _ (Cadeia-grava novo _ is.nos longe) longe) longe;
    conta = is.conta;
  }

  novo-m1 : Aponta m1 novo lixo
  novo-m1 = Aponta-grava m novo lixo valido

  novo-m2 : Aponta m2 novo (record lixo { pid = pid })
  novo-m2 = Aponta-grava m1 novo _ valido

  novo-m3 : Aponta m3 novo cheio
  novo-m3 = Aponta-grava m2 novo cheio valido

  fora-m3 : (a : Ponteiro) → (a == novo) ≡ false → m3 a ≡ m a
  unfolding grava
  fora-m3 a h = ground arith

  -- On a queue in memory, with the address of no node for the new one, `insere` has no undefined
  -- behaviour and ends, and it does to the queue what the abstract `insere` does, with the same
  -- result; a node that it refuses is never freed.
  pub insere-Inserida : Retorna (Inserida m novo pid tempo l cs) (insere novo lixo l pid tempo m)
  unfolding insere Fila.insere Fila.esta_na_fila
  insere-Inserida = elim (Bool-cases (ltb l.tamanho l.n)) [
    | inr full ↦ rw full (
        retorna (false, l) m
          (record {
            ds = cs;
            passo = rw full;
            lista = is;
            fora = λ a i j. refl;
            vaza = λ p q. cc (full, q);
          }))
    | inl room ↦
        rw (room, malloc-Aponta novo lixo m valido)
          (rw (muda-Aponta novo-m1 (λ v. record v { pid = pid })) (
            rw (muda-Aponta novo-m2 (λ v. record v { tempo = tempo })) (
              rw (esta_na_fila_lem novo cheio novo-m3 lista-m3)
                (elim (Bool-cases (Fila.procura pid cs)) [
                  | inl known ↦ rw known (
                      retorna (false, l) m3
                        (record {
                          ds = cs;
                          passo = rw (room, known);
                          lista = lista-m3;
                          fora = λ a i j. fora-m3 a j;
                          vaza = λ p q. (longe, λ e. cc (novo-m3.la, e));
                        }))
                  | inr new ↦ rw new (
                      depois-Retorna (encaixa-Encaixada novo cheio novo-m3 cs lista-m3 longe)
                        λ head g r. retorna _ g (record {
                          ds = r.ds;
                          passo = rw (room, new) r.passo;
                          lista = record {
                            nos = r.nos;
                            conta = let k = is.conta in let z = r.conta in omega arith;
                          };
                          fora = λ a i j. r.fora a i j ∙ fora-m3 a j;
                          vaza = λ p q. cc p;
                        }))
                ]))))
  ]
