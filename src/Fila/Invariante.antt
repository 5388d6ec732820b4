-- ===== src/Fila/Invariante.antt =====
-- The queue's invariant, and what `insere` and `removeItem` do to a queue that has it.
use unifesp_sd.Base.{
  ℕ, suc, ◌-◌, ◌≤◌, ◌≡◌, refl, sym, ap, ◌≢◌, subst, ◌⊎◌, inl, inr, Bool, true, false, Option, none,
  some, List, [], ◌∷◌, arith, length, Bool-cases, Option-cases, ltb,
}
use unifesp_sd.Fila.{
  Chave, Sfila, init, esta_na_fila, posiciona, conclui, liga, insere, remove_item,
}
use unifesp_sd.Fila.Ordem.{Antes, IsSorted, Encaixe, posiciona-Encaixe, Encaixe-IsSorted}
use unifesp_sd.Fila.Conteudo.{Distintos, Encaixe-Distintos, length-Encaixe}

module _ {ℓ} {A : Type ℓ} ⦃k : Chave A⦄ where
  -- `tamanho` counts the nodes, there are at most `N`, they are in order, and no PID stands twice.
  pub record IsFila (f : Sfila A) : Type 0 where
    pub conta : f.tamanho ≡ length f.head
    pub cabe : f.tamanho ≤ f.n
    pub ordem : IsSorted f.head
    pub distintos : Distintos f.head

  pub init-IsFila : (n : ℕ) → IsFila (init n)
  unfolding init
  init-IsFila n = record { conta = refl; cabe = omega arith; ordem = tt; distintos = tt }

  -- What `insere` gives: the entry in its place, or the queue as it was, if it was full or held the PID.
  pub data Inserido (f : Sfila A) (novo : A) : Option (Sfila A × Bool) → Type ℓ where
    entrou :
        (g : Sfila A)
        → suc f.tamanho ≤ f.n
        → esta_na_fila f novo ≡ false
        → Encaixe novo f.head g.head
        → g.n ≡ f.n
        → IsFila g
        → Inserido f novo (some (g, true))
    recusado :
        ((f.n ≤ f.tamanho) ⊎ (esta_na_fila f novo ≡ true)) → Inserido f novo (some (f, false))

  conclui-Inserido :
      (f : Sfila A) (novo : A) (ys : List A)
      → IsFila f
      → suc f.tamanho ≤ f.n
      → esta_na_fila f novo ≡ false
      → Encaixe novo f.head ys
      → Inserido f novo (conclui f (some ys))
  unfolding conclui esta_na_fila
  conclui-Inserido f novo ys v room new e = entrou _ room new e refl (record {
    conta = omega (arith, length-Encaixe e, v.conta);
    cabe = omega arith;
    ordem = Encaixe-IsSorted e v.ordem;
    distintos = Encaixe-Distintos e new v.distintos;
  })

  posiciona-ne-none : (novo x : A) (xs : List A) → posiciona novo (x ∷ xs) ≢ none
  unfolding posiciona
  posiciona-ne-none novo x xs e = cc

  -- With `tamanho` counting the nodes, no NULL is dereferenced.
  pub lista_nova :
      (f : Sfila A) (novo : A) (xs : List A)
      → f.head ≡ xs
      → f.tamanho ≡ length f.head
      → IsSorted f.head
      → (ys : List A) × (liga f novo ≡ conclui f (some ys)) × Encaixe novo xs ys
  unfolding liga
  lista_nova f novo [] e conta ordem =
      let zero_nodes : f.tamanho ≡ 0 = ground arith in
      (
        novo ∷ [],
        rw zero_nodes refl,
        record { pre = []; post = []; partes = refl; juntas = refl; antes = tt; depois = tt },
      )
  lista_nova f novo (x ∷ xs) e conta ordem = elim (Option-cases (posiciona novo (x ∷ xs))) [
    | inl p ↦ absurd (posiciona-ne-none novo x xs p)
    | inr (ys, p) ↦
        (ys, ground arith, posiciona-Encaixe novo (x ∷ xs) ys (subst IsSorted e ordem) p)
  ]

  liga-Inserido :
      (f : Sfila A) (novo : A)
      → IsFila f
      → suc f.tamanho ≤ f.n
      → esta_na_fila f novo ≡ false
      → Inserido f novo (liga f novo)
  liga-Inserido f novo v room new =
      let (ys, e, enc) = lista_nova f novo f.head refl v.conta v.ordem in
      rw e (conclui-Inserido f novo ys v room new enc)

  -- On a well-formed queue `insere` dereferences no NULL. It puts the new request in its place, and
  -- the queue stays well-formed; or it leaves the queue as it was, which was full or held the PID.
  pub insere-Inserido : (f : Sfila A) (novo : A) → IsFila f → Inserido f novo (insere f novo)
  unfolding insere
  insere-Inserido f novo v = elim (Bool-cases (ltb f.tamanho f.n)) [
    | inr full ↦ rw full (recusado (inl (ground arith)))
    | inl room ↦ rw room (elim (Bool-cases (esta_na_fila f novo)) [
      | inl old ↦ rw old (recusado (inr old))
      | inr new ↦ rw new (liga-Inserido f novo v (ground arith) new)
    ])
  ]

  -- What `removeItem` gives: nothing on the empty queue, else the first entry.
  pub data Removido (f : Sfila A) : Sfila A × Option A → Type ℓ where
    vazia : f.head ≡ [] → Removido f (f, none)
    saiu :
        (x : A) (g : Sfila A)
        → f.head ≡ x ∷ g.head
        → g.n ≡ f.n
        → Antes x g.head
        → IsFila g
        → Removido f (g, some x)

  remove_item-nil : (f : Sfila A) → f.head ≡ [] → remove_item f ≡ (f, none)
  unfolding remove_item
  remove_item-nil f e = ground arith

  pub remove_item-cons :
      (f : Sfila A) (x : A) (xs : List A)
      → f.head ≡ x ∷ xs
      → remove_item f ≡ (record f { tamanho = f.tamanho - 1; head = xs }, some x)
  unfolding remove_item
  remove_item-cons f x xs e = ground arith

  remove-Removido :
      (f : Sfila A) (xs : List A) → f.head ≡ xs → IsFila f → Removido f (remove_item f)
  remove-Removido f [] e v = subst (Removido f) (sym (remove_item-nil f e)) (vazia e)
  remove-Removido f (x ∷ xs) e v =
      let s : IsSorted (x ∷ xs) = subst IsSorted e v.ordem in
      let d : Distintos (x ∷ xs) = subst Distintos e v.distintos in
      subst (Removido f) (sym (remove_item-cons f x xs e)) (
        saiu x _ e refl s.0 (record {
          conta = omega (arith, v.conta, ap length e);
          cabe = omega arith;
          ordem = s.1;
          distintos = d.1;
        }))

  -- On a well-formed queue `removeItem` takes out the first entry, which no other precedes in
  -- `tempo`, and the queue stays well-formed; an empty queue stays as it is and gives no entry.
  pub remove_item-Removido : (f : Sfila A) → IsFila f → Removido f (remove_item f)
  remove_item-Removido f v = remove-Removido f f.head refl v
