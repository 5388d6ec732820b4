-- ===== src/Fila/Ordem.antt =====
-- The order that `insere` keeps: non-decreasing `tempo` from the head.
use unifesp_sd.Base.{
  ◌≡◌, refl, sym, ap, subst, inl, inr, some, List, [], ◌∷◌, ◌++◌, arith, All, Bool-cases,
}
use unifesp_sd.Base.Int.{◌≤ℤ◌, ltb_ℤ}
use unifesp_sd.Fila.{Chave, encadeia, posiciona}

module _ {ℓ} {A : Type ℓ} ⦃k : Chave A⦄ where
  abbrev pub Antes : A → List A → Type 0
  Antes a xs = All (λ y. k.tempo a ≤ℤ k.tempo y) xs

  abbrev pub IsSorted : List A → Type 0
  IsSorted [] = Unit
  IsSorted (x ∷ xs) = Antes x xs × IsSorted xs

  pub Antes-mono : (a b : A) (xs : List A) → k.tempo a ≤ℤ k.tempo b → Antes b xs → Antes a xs
  Antes-mono a b [] h s = tt
  Antes-mono a b (x ∷ xs) h s = (omega arith, Antes-mono a b xs h s.1)

  -- `ys` is `xs` with `novo` put in, behind entries that are no later and before entries that are
  -- no earlier; the others keep their places.
  pub record Encaixe (novo : A) (xs ys : List A) : Type ℓ where
    pub pre : List A
    pub post : List A
    pub partes : xs ≡ pre ++ post
    pub juntas : ys ≡ pre ++ novo ∷ post
    pub antes : All (λ y. k.tempo y ≤ℤ k.tempo novo) pre
    pub depois : Antes novo post

  Encaixe-cabeca :
      {novo x : A} {xs ys : List A}
      → k.tempo x ≤ℤ k.tempo novo
      → Encaixe novo xs ys
      → Encaixe novo (x ∷ xs) (x ∷ ys)
  Encaixe-cabeca {x} h e = record {
    pre = x ∷ e.pre;
    post = e.post;
    partes = ap (◌∷◌ x) e.partes;
    juntas = ap (◌∷◌ x) e.juntas;
    antes = (h, e.antes);
    depois = e.depois;
  }

  Encaixe-aqui :
      {novo x : A} {xs : List A}
      → k.tempo novo ≤ℤ k.tempo x
      → IsSorted (x ∷ xs)
      → Encaixe novo (x ∷ xs) (novo ∷ x ∷ xs)
  Encaixe-aqui {novo} {x} {xs} h s = record {
    pre = [];
    post = x ∷ xs;
    partes = refl;
    juntas = refl;
    antes = tt;
    depois = (h, Antes-mono novo x xs h s.0);
  }

  pub encadeia-Encaixe : (novo : A) (xs : List A) → IsSorted xs → Encaixe novo xs (encadeia novo xs)
  unfolding encadeia
  encadeia-Encaixe novo [] s = record {
    pre = [];
    post = [];
    partes = refl;
    juntas = refl;
    antes = tt;
    depois = tt;
  }
  encadeia-Encaixe novo (x ∷ xs) s = elim (Bool-cases (ltb_ℤ (k.tempo x) (k.tempo novo))) [
    | inl e ↦ rw e (Encaixe-cabeca (ground arith) (encadeia-Encaixe novo xs s.1))
    | inr e ↦ rw e (Encaixe-aqui (ground arith) s)
  ]

  pub posiciona-Encaixe :
      (novo : A) (xs ys : List A) → IsSorted xs → posiciona novo xs ≡ some ys → Encaixe novo xs ys
  unfolding posiciona
  posiciona-Encaixe novo [] ys s e = absurd (cc)
  posiciona-Encaixe novo (x ∷ xs) ys s e = elim (Bool-cases (ltb_ℤ (k.tempo novo) (k.tempo x))) [
    | inl c ↦ subst (Encaixe novo (x ∷ xs)) (ground arith) (Encaixe-aqui {xs = xs} (ground arith) s)
    | inr c ↦
        subst (Encaixe novo (x ∷ xs)) (ground arith)
          (Encaixe-cabeca {x = x} (ground arith) (encadeia-Encaixe novo xs s.1))
  ]

  IsSorted-juntas :
      (novo : A) (pre post : List A)
      → All (λ y. k.tempo y ≤ℤ k.tempo novo) pre
      → Antes novo post
      → IsSorted (pre ++ post)
      → IsSorted (pre ++ novo ∷ post)
  IsSorted-juntas novo [] post a d s = (d, s)
  IsSorted-juntas novo (x ∷ xs) post a d s = (entra xs s.0, IsSorted-juntas novo xs post a.1 d s.1)
    where
      entra : (ys : List A) → Antes x (ys ++ post) → Antes x (ys ++ novo ∷ post)
      entra [] h = (a.0, h)
      entra (y ∷ ys) h = (h.0, entra ys h.1)

  -- What is put in at its place keeps the order.
  pub Encaixe-IsSorted :
      {novo : A} {xs ys : List A} → Encaixe novo xs ys → IsSorted xs → IsSorted ys
  Encaixe-IsSorted {novo} e s =
      subst IsSorted (sym e.juntas)
        (IsSorted-juntas novo e.pre e.post e.antes e.depois (subst IsSorted e.partes s))

  pub Encaixe-All {κ} :
      {novo : A} {xs ys : List A} (P : A → Type κ)
      → Encaixe novo xs ys
      → P novo
      → All P xs
      → All P ys
  Encaixe-All {novo} P e p h = subst (All P) (sym e.juntas) (entra e.pre (subst (All P) e.partes h))
    where
      entra : (pre : List A) → All P (pre ++ e.post) → All P (pre ++ novo ∷ e.post)
      entra [] h = (p, h)
      entra (y ∷ ys) h = (h.0, entra ys h.1)
