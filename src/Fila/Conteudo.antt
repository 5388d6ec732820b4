-- ===== src/Fila/Conteudo.antt =====
-- What the queue holds: the effect of an insertion on its length, its entries and their PIDs.
use mathlib.Core.List.{perm_middle}
use unifesp_sd.Base.{
  ◌+◌, ◌≡◌, sym, subst, false, List, [], ◌∷◌, ◌++◌, Perm, arith, length, length-append,
}
use unifesp_sd.Base.Int.{ℤ}
use unifesp_sd.Fila.{Chave, procura}
use unifesp_sd.Fila.Ordem.{Encaixe}

module _ {ℓ} {A : Type ℓ} ⦃k : Chave A⦄ where
  -- No PID stands twice.
  abbrev pub Distintos : List A → Type 0
  Distintos [] = Unit
  Distintos (x ∷ xs) = (procura (k.pid x) xs ≡ false) × Distintos xs

  procura_meio :
      (p : ℤ) (novo : A) (pre post : List A)
      → procura p (pre ++ post) ≡ false
      → procura p (novo ∷ []) ≡ false
      → procura p (pre ++ novo ∷ post) ≡ false
  unfolding procura
  procura_meio p novo [] post h g = ground arith
  procura_meio p novo (x ∷ xs) post h g = ground (arith, procura_meio p novo xs post)

  Distintos-meio :
      (novo : A) (pre post : List A)
      → procura (k.pid novo) (pre ++ post) ≡ false
      → Distintos (pre ++ post)
      → Distintos (pre ++ novo ∷ post)
  unfolding procura
  Distintos-meio novo [] post h d = (h, d)
  Distintos-meio novo (x ∷ xs) post h d = (
    procura_meio (k.pid x) novo xs post d.0 (ground arith),
    Distintos-meio novo xs post (ground arith) d.1,
  )

  pub Encaixe-Distintos :
      {novo : A} {xs ys : List A}
      → Encaixe novo xs ys
      → procura (k.pid novo) xs ≡ false
      → Distintos xs
      → Distintos ys
  Encaixe-Distintos {novo} e h d = subst Distintos (sym e.juntas) (
      Distintos-meio novo e.pre e.post (subst (λ l. procura (k.pid novo) l ≡ false) e.partes h)
        (subst Distintos e.partes d))

  pub length-Encaixe : {novo : A} {xs ys : List A} → Encaixe novo xs ys → length ys ≡ length xs + 1
  length-Encaixe {novo} e =
      rw (e.partes, e.juntas)
        (omega (arith, length-append e.pre (novo ∷ e.post), length-append e.pre e.post))

  -- An insertion adds its entry and loses none.
  pub Encaixe-perm : {novo : A} {xs ys : List A} → Encaixe novo xs ys → Perm ys (novo ∷ xs)
  Encaixe-perm {novo} e = rw (e.partes, e.juntas) (perm_middle e.pre e.post)
