-- ===== src/Fila/Imagem.antt =====
-- The queue functions read of a node its key alone: they do the same to the images of the nodes under
-- a map that keeps the keys.
use unifesp_sd.Base.{
  ◌≡◌, refl, Bool, Option, none, some, List, [], ◌∷◌, map, ltb, ◌==◌, Bool-cases, inl, inr,
}
use unifesp_sd.Base.Int.{ℤ, ltb_ℤ}
use unifesp_sd.Fila.{
  Chave, Sfila, procura, esta_na_fila, encadeia, posiciona, conclui, liga, insere, remove_item,
}

module _ {ℓ κ} {A : Type ℓ} {B : Type κ} ⦃k : Chave A⦄ ⦃j : Chave B⦄ (h : A → B)
    (mesmo_pid : (a : A) → j.pid (h a) ≡ k.pid a)
    (mesmo_tempo : (a : A) → j.tempo (h a) ≡ k.tempo a) where
  abbrev pub imagem : Sfila A → Sfila B
  imagem f = record { tamanho = f.tamanho; n = f.n; head = map h f.head }

  abbrev pub imagens : Option (Sfila A × Bool) → Option (Sfila B × Bool)
  imagens none = none
  imagens (some (f, b)) = some (imagem f, b)

  procura-map : (p : ℤ) (xs : List A) → procura p (map h xs) ≡ procura p xs
  unfolding procura
  procura-map p [] = refl
  procura-map p (x ∷ xs) = rw (mesmo_pid x, procura-map p xs)

  encadeia-map : (a : A) (xs : List A) → encadeia (h a) (map h xs) ≡ map h (encadeia a xs)
  unfolding encadeia
  encadeia-map a [] = refl
  encadeia-map a (x ∷ xs) = elim (Bool-cases (ltb_ℤ (k.tempo x) (k.tempo a))) [
    | inl e ↦ rw (mesmo_tempo x, mesmo_tempo a, e, encadeia-map a xs)
    | inr e ↦ rw (mesmo_tempo x, mesmo_tempo a, e)
  ]

  abbrev listas : Option (List A) → Option (List B)
  listas none = none
  listas (some xs) = some (map h xs)

  posiciona-map : (a : A) (xs : List A) → posiciona (h a) (map h xs) ≡ listas (posiciona a xs)
  unfolding posiciona
  posiciona-map a [] = refl
  posiciona-map a (x ∷ xs) = elim (Bool-cases (ltb_ℤ (k.tempo a) (k.tempo x))) [
    | inl e ↦ rw (mesmo_tempo x, mesmo_tempo a, e)
    | inr e ↦ rw (mesmo_tempo x, mesmo_tempo a, e, encadeia-map a xs)
  ]

  conclui-imagem :
      (f : Sfila A) (o : Option (List A)) → conclui (imagem f) (listas o) ≡ imagens (conclui f o)
  unfolding conclui
  conclui-imagem f none = refl
  conclui-imagem f (some xs) = refl

  liga-imagem : (f : Sfila A) (a : A) → liga (imagem f) (h a) ≡ imagens (liga f a)
  unfolding liga
  liga-imagem f a = elim (Bool-cases (f.tamanho == 0)) [
    | inl e ↦ rw e (conclui-imagem f (some (a ∷ [])))
    | inr e ↦ rw (e, posiciona-map a f.head) (conclui-imagem f (posiciona a f.head))
  ]

  pub insere-imagem : (f : Sfila A) (a : A) → insere (imagem f) (h a) ≡ imagens (insere f a)
  unfolding insere esta_na_fila
  insere-imagem f a = elim (Bool-cases (ltb f.tamanho f.n)) [
    | inl e ↦ elim (Bool-cases (procura (k.pid a) f.head)) [
      | inl g ↦ rw (e, mesmo_pid a, procura-map (k.pid a) f.head, g)
      | inr g ↦ rw (e, mesmo_pid a, procura-map (k.pid a) f.head, g) (liga-imagem f a)
    ]
    | inr e ↦ rw e
  ]

  remove_item-head :
      (f : Sfila A) (xs : List A)
      → f.head ≡ xs
      → (remove_item (imagem f)).0 ≡ imagem (remove_item f).0
  unfolding remove_item
  remove_item-head f [] e = rw e
  remove_item-head f (x ∷ xs) e = rw e

  pub remove_item-imagem : (f : Sfila A) → (remove_item (imagem f)).0 ≡ imagem (remove_item f).0
  remove_item-imagem f = remove_item-head f f.head refl
