-- ===== src/FilaAvulsa/Relatorio.antt =====
-- What the `main` of fila.c prints.
use mathlib.Core.List.{perm_middle, append-nil}
use mathlib.Core.List.Perm
use unifesp_sd.Base.{
  ℕ, zero, suc, ◌+◌, ◌-◌, ◌≤◌, ◌<◌, ◌≡◌, refl, ap, subst, inl, inr, true, false, none, some,
  Bool-cases, leb, if◌then◌else◌, List, [], ◌∷◌, ◌++◌, Perm, arith, length, ltb,
}
use unifesp_sd.Fila.{Sfila, init, conclui}
use unifesp_sd.Fila.Ordem.{IsSorted, Encaixe-IsSorted}
use unifesp_sd.Fila.Conteudo.{length-Encaixe, Encaixe-perm}
use unifesp_sd.Fila.Invariante.{lista_nova}
use unifesp_sd.Netkit.Mensagem.{termina, falha}
use unifesp_sd.Base.Int.{pos}
use unifesp_sd.FilaAvulsa.{
  Sitem, sitem_chave, fim_caddr, insere, remove_item, imprime, Linha, impressa, removido, pedido,
  enche, esvazia, main,
}

module _ {C : Type 0} where
  -- The nodes are counted and in order.
  record IsCadeia (f : Sfila (Sitem C)) : Type 0 where
    conta : f.tamanho ≡ length f.head
    ordem : IsSorted f.head

  -- The outcome of an insertion where there is room.
  record Cresceu (f : Sfila (Sitem C)) (x : Sitem C) (g : Sfila (Sitem C)) : Type 0 where
    cadeia : IsCadeia g
    mais_um : g.tamanho ≡ f.tamanho + 1
    lugares : g.n ≡ f.n
    perm : Perm g.head (x ∷ f.head)

  insere-Cresceu :
      (f : Sfila (Sitem C)) (x : Sitem C)
      → IsCadeia f
      → suc f.tamanho ≤ f.n
      → (g : Sfila (Sitem C)) × (insere f x ≡ some (g, true)) × Cresceu f x g
  unfolding insere conclui
  insere-Cresceu f x v room =
      let (ys, e, enc) = lista_nova f x f.head refl v.conta v.ordem in
      let fits : ltb f.tamanho f.n ≡ true = ground arith in
      (
        record f { tamanho = f.tamanho + 1; head = ys },
        rw (fits, e),
        record {
          cadeia = record {
            conta = omega (arith, length-Encaixe enc, v.conta);
            ordem = Encaixe-IsSorted enc v.ordem;
          };
          mais_um = refl;
          lugares = refl;
          perm = Encaixe-perm enc;
        },
      )

  -- The requests of the first loop.
  abbrev pub pedidos : C → ℕ → List ℕ → List (Sitem C)
  pedidos caddr j [] = []
  pedidos caddr j (r ∷ rs) = pedido caddr (suc j) r ∷ pedidos caddr (suc j) rs

  record Encheu (f g : Sfila (Sitem C)) (xs : List (Sitem C)) : Type 0 where
    cadeia : IsCadeia g
    perm : Perm g.head (xs ++ f.head)
    conta : g.tamanho ≡ f.tamanho + length xs

  enche-Encheu :
      (caddr : C) (j : ℕ) (rs : List ℕ) (f : Sfila (Sitem C))
      → IsCadeia f
      → f.tamanho + length rs ≤ f.n
      → (g : Sfila (Sitem C)) × (enche caddr j rs f ≡ some g) × Encheu f g (pedidos caddr j rs)
  unfolding enche
  enche-Encheu caddr j [] f v room =
      (f, refl, record { cadeia = v; perm = Perm.refl f.head; conta = omega arith })
  enche-Encheu caddr j (r ∷ rs) f v room =
      let (h, e, c) = insere-Cresceu f (pedido caddr (suc j) r) v (omega arith) in
      let (g, e', w) =
        enche-Encheu caddr (suc j) rs h c.cadeia (omega (arith, c.mais_um, c.lugares)) in
      (
        g,
        rw (e, enche) e',
        record {
          cadeia = w.cadeia;
          perm = Perm.trans w.perm (
              Perm.trans (Perm.append (Perm.refl (pedidos caddr (suc j) rs)) c.perm)
                (perm_middle (pedidos caddr (suc j) rs) f.head));
          conta = omega (arith, w.conta, c.mais_um);
        },
      )

  -- The lines of the second loop on the nodes `xs`.
  abbrev pub remocoes : List (Sitem C) → List Linha
  remocoes [] = []
  remocoes (x ∷ xs) = removido x.pid ∷ impressa (imprime xs) ∷ remocoes xs

  remove_item-cons :
      (bloco : ℕ) (f : Sfila (Sitem C)) (x : Sitem C) (xs : List (Sitem C))
      → fim_caddr ≤ bloco
      → f.head ≡ x ∷ xs
      → remove_item bloco f ≡ some (record f { tamanho = f.tamanho - 1; head = xs }, some x)
  unfolding remove_item
  remove_item-cons bloco f x xs room e =
      let a : leb 12 bloco ≡ true = ground arith in
      let b : leb 28 bloco ≡ true = ground arith in
      let c : leb 4 bloco ≡ true = ground arith in
      let d : leb 8 bloco ≡ true = ground arith in rw (e, a, b, c, d) refl

  -- The block that is too short.
  remove_item-curto :
      (bloco : ℕ) (f : Sfila (Sitem C)) (x : Sitem C) (xs : List (Sitem C))
      → bloco < fim_caddr
      → f.head ≡ x ∷ xs
      → remove_item bloco f ≡ none
  unfolding remove_item
  remove_item-curto bloco f x xs short e =
      let b : leb 28 bloco ≡ false = ground arith in
      elim (Bool-cases (leb 12 bloco)) [ inl y ↦ rw (e, y, b) refl | inr n ↦ rw (e, n) refl ]

  esvazia-remocoes :
      (bloco k : ℕ) (xs : List (Sitem C)) (f : Sfila (Sitem C))
      → fim_caddr ≤ bloco
      → f.head ≡ xs
      → length xs ≡ k
      → esvazia bloco k f ≡ termina (pos 0) (remocoes xs)
  unfolding esvazia
  esvazia-remocoes bloco zero [] f room e n = refl
  esvazia-remocoes bloco zero (x ∷ xs) f room e n = absurd (omega arith)
  esvazia-remocoes bloco (suc k) [] f room e n = absurd (omega arith)
  esvazia-remocoes bloco (suc k) (x ∷ xs) f room e n =
      let q = remove_item-cons bloco f x xs room e in
      let ih =
        esvazia-remocoes bloco k xs (record f { tamanho = f.tamanho - 1; head = xs }) room refl
          (omega arith) in
      rw (q, esvazia, ih) refl

  esvazia-curto :
      (bloco k : ℕ) (xs : List (Sitem C)) (f : Sfila (Sitem C))
      → bloco < fim_caddr
      → f.head ≡ xs
      → length xs ≡ suc k
      → esvazia bloco (suc k) f ≡ falha []
  unfolding esvazia
  esvazia-curto bloco k [] f short e n = absurd (omega arith)
  esvazia-curto bloco k (x ∷ xs) f short e n =
      rw (remove_item-curto bloco f x xs short e, esvazia) refl

  length-pedidos : (caddr : C) (j : ℕ) (rs : List ℕ) → length (pedidos caddr j rs) ≡ length rs
  length-pedidos caddr j [] = refl
  length-pedidos caddr j (r ∷ rs) = ap suc (length-pedidos caddr (suc j) rs)

  -- On ten random numbers `main` dereferences no NULL. It prints the ten requests in an order of
  -- non-decreasing `tempo`. If the block of `malloc(sizeof(item))` reaches to the end of `caddr`, at
  -- byte 28, it then takes them out one by one in that order, each time printing what is left; in a
  -- shorter block, such as the size of a pointer that it asks for, the first removal stores past the
  -- end.
  pub main_ordena :
      (bloco : ℕ) (caddr : C) (rs : List ℕ)
      → length rs ≡ 10
      → (xs : List (Sitem C)) × IsSorted xs
        × Perm xs (pedidos caddr 0 rs)
        × (main bloco caddr rs ≡ (
            if leb fim_caddr bloco
            then termina (pos 0) (impressa (imprime xs) ∷ remocoes xs)
            else falha (impressa (imprime xs) ∷ [])))
  unfolding main init
  main_ordena bloco caddr rs ten =
      let (g, e, w) =
        enche-Encheu caddr 0 rs (init 10) (record { conta = refl; ordem = tt }) (omega arith) in
      let n : length g.head ≡ 10 =
        omega (arith, w.conta, w.cadeia.conta, length-pedidos caddr 0 rs) in
      (
        g.head,
        w.cadeia.ordem,
        subst (Perm g.head) (append-nil (pedidos caddr 0 rs)) w.perm,
        elim (Bool-cases (leb 28 bloco)) [
          | inl y ↦ rw (e, main, y, esvazia-remocoes bloco 10 g.head g (ground arith) refl n)
          | inr z ↦ rw (e, main, z, esvazia-curto bloco 9 g.head g (ground arith) refl n)
        ],
      )
