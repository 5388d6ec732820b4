-- ===== src/Fila/Frente.antt =====
-- Who stands first after an insertion into a queue that has a first entry.
use unifesp_sd.Base.{
  ◌≡◌, ◌≤◌, refl, true, false, inl, inr, Bool, Option, some, List, ◌∷◌, suc, arith, ap, length,
  Bool-cases, ltb, ◌==◌,
}
use unifesp_sd.Base.Int.{◌≤ℤ◌, ◌<ℤ◌, ltb_ℤ}
use unifesp_sd.Fila.{Chave, Sfila, encadeia, posiciona, conclui, liga, insere, esta_na_fila}
use unifesp_sd.Fila.Invariante.{IsFila}

module _ {ℓ} {A : Type ℓ} ⦃k : Chave A⦄ where
  -- `x` is first in the queue that the insertion leaves.
  pub data Frente (x : A) : Option (Sfila A × Bool) → Type ℓ where
    frente : {g : Sfila A} {b : Bool} (ys : List A) → g.head ≡ x ∷ ys → Frente x (some (g, b))

  module _ (f : Sfila A) (novo x : A) (xs : List A) (e : f.head ≡ x ∷ xs) (v : IsFila f) where
    liga-posiciona : liga f novo ≡ conclui f (posiciona novo (x ∷ xs))
    unfolding liga
    liga-posiciona =
        let some_wait : (f.tamanho == 0) ≡ false = ground (arith, v.conta, ap length e) in
        rw (some_wait, e) refl

    -- An entry that is no later than the new one keeps its place.
    pub Frente-insere : k.tempo x ≤ℤ k.tempo novo → Frente x (insere f novo)
    unfolding insere conclui posiciona
    Frente-insere h = elim (Bool-cases (ltb f.tamanho f.n)) [
      | inr full ↦ rw full (frente xs e)
      | inl room ↦ rw room (elim (Bool-cases (esta_na_fila f novo)) [
        | inl old ↦ rw old (frente xs e)
        | inr new ↦
            let later : ltb_ℤ (k.tempo novo) (k.tempo x) ≡ false = ground arith in
            rw (new, liga-posiciona, later) (frente (encadeia novo xs) refl)
      ])
    ]

    -- A new entry that is earlier takes it.
    pub Frente-insere_novo :
        suc f.tamanho ≤ f.n
        → esta_na_fila f novo ≡ false
        → k.tempo novo <ℤ k.tempo x
        → Frente novo (insere f novo)
    unfolding insere conclui posiciona
    Frente-insere_novo room new h =
        let fits : ltb f.tamanho f.n ≡ true = ground arith in
        let earlier : ltb_ℤ (k.tempo novo) (k.tempo x) ≡ true = ground arith in
        rw (fits, new, liga-posiciona, earlier) (frente (x ∷ xs) refl)
