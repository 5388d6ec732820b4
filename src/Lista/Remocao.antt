-- ===== src/Lista/Remocao.antt =====
-- `removeItem` on the heap does what the abstract `removeItem` does.
use unifesp_sd.Base.{◌≡◌, ◌≢◌, refl, true, false, Option, none, some, List, [], ◌∷◌, arith, ◌==◌}
use unifesp_sd.Fila
use unifesp_sd.Lista.{Lista, remove_item}
use unifesp_sd.Lista.Memoria.{
  Ponteiro, nulo, No, Memoria, grava, Aponta, Aponta-nulo, le-Aponta, muda-Aponta, free-Aponta,
  Aponta-grava, Aponta-grava_fora, Retorna, retorna, malloc-Aponta,
}
use unifesp_sd.Lista.Cadeia.{
  Celula, celula_chave, no_de, tem, Cadeia, Cadeia-grava, IsLista, vista, tem_de_vago, Cadeia-cons,
  Cadeia-nil,
}

-- The node that is returned: a copy of the entry taken out, whose own node is freed; or, from the
-- empty queue, uninitialised memory.
abbrev pub Copia : Ponteiro → No → Option Celula → Memoria → Type 0
Copia item lixo none g = g item ≡ some lixo
Copia item lixo (some c) g =
    Aponta g item (no_de c.pid c.tempo lixo.next) × (g c.onde ≡ none) × ((item == c.onde) ≡ false)

-- What a call of `removeItem` with the address `item` for the copy leaves.
pub record Removida (m : Memoria) (item : Ponteiro) (lixo : No) (l : Lista) (cs : List Celula)
    (r : Ponteiro × Lista) (g : Memoria) : Type 0 where
  pub ds : List Celula
  pub saiu : Option Celula
  pub passo : Fila.remove_item (vista l cs) ≡ (vista r.1 ds, saiu)
  pub lista : IsLista g r.1 ds
  pub devolvido : r.0 ≡ item
  pub copia : Copia item lixo saiu g
  pub fora : (a : Ponteiro) → tem a cs ≡ false → (a == item) ≡ false → g a ≡ m a

-- The memory after `malloc`, and after the two stores.
abbrev apos_malloc : Memoria → Ponteiro → No → Memoria
apos_malloc m item lixo = grava m item (some lixo)

abbrev apos_copia : Memoria → Ponteiro → No → Celula → Memoria
apos_copia m item lixo c =
    grava (grava (apos_malloc m item lixo) item (some (record lixo { pid = c.pid }))) item
      (some (no_de c.pid c.tempo lixo.next))

module _ (m : Memoria) (l : Lista) (item : Ponteiro) (lixo : No) (valido : item ≢ nulo) where
  vazia-Removida :
      IsLista (apos_malloc m item lixo) l []
      → Retorna (Removida m item lixo l []) (remove_item item lixo l m)
  unfolding remove_item Fila.remove_item
  vazia-Removida is =
      let empty : (l.head == nulo) ≡ true = let h = Cadeia-nil is.nos in ground arith in
      rw (malloc-Aponta item lixo m valido) (
        rw empty (
          retorna (item, l) (apos_malloc m item lixo)
            (record {
              ds = [];
              saiu = none;
              passo = refl;
              lista = is;
              devolvido = refl;
              copia = unfold grava in ground arith;
              fora = λ a i j. unfold grava in ground arith;
            })))

  cheia-Removida :
      (c : Celula) (cs : List Celula)
      → IsLista (apos_malloc m item lixo) l (c ∷ cs)
      → tem item (c ∷ cs) ≡ false
      → Retorna (Removida m item lixo l (c ∷ cs)) (remove_item item lixo l m)
  unfolding remove_item Fila.remove_item
  cheia-Removida c cs is away =
      let (q, here, e, out, s) = Cadeia-cons is.nos in
      let i1 : Aponta (apos_malloc m item lixo) item lixo = Aponta-grava m item lixo valido in
      let i2 = Aponta-grava (apos_malloc m item lixo) item (record lixo { pid = c.pid }) valido in
      let i3 =
        Aponta-grava (grava (apos_malloc m item lixo) item (some (record lixo { pid = c.pid })))
          item (no_de c.pid c.tempo lixo.next) valido in
      let apart : (item == l.head) ≡ false = ground (arith, here) in
      let e2 = Aponta-grava_fora e item (some (record lixo { pid = c.pid })) (ground arith) in
      let e3 = Aponta-grava_fora e2 item (some (no_de c.pid c.tempo lixo.next)) (ground arith) in
      let s3 : Cadeia (apos_copia m item lixo c) q cs =
        Cadeia-grava item _ (Cadeia-grava item _ s (ground arith)) (ground arith) in
      rw (malloc-Aponta item lixo m valido) (
        rw (Aponta-nulo e, le-Aponta e)
          (rw (muda-Aponta i1 (λ v. record v { pid = c.pid })) (
            rw (muda-Aponta i2 (λ v. record v { tempo = c.tempo })) (
              rw (free-Aponta e3) (
                retorna _ (grava (apos_copia m item lixo c) l.head none) (record {
                  ds = cs;
                  saiu = some c;
                  passo = refl;
                  lista = record {
                    nos = Cadeia-grava l.head none s3 out;
                    conta = let k = is.conta in omega arith;
                  };
                  devolvido = refl;
                  copia = (
                    Aponta-grava_fora i3 l.head none (ground arith),
                    unfold grava in ground (arith, here),
                    ground (arith, here),
                  );
                  fora = λ a i j. unfold grava in ground (arith, here);
                }))))))

  remove_item-Removida_de :
      (cs : List Celula)
      → IsLista (apos_malloc m item lixo) l cs
      → tem item cs ≡ false
      → Retorna (Removida m item lixo l cs) (remove_item item lixo l m)
  remove_item-Removida_de [] is away = vazia-Removida is
  remove_item-Removida_de (c ∷ cs) is away = cheia-Removida c cs is away

  -- On a queue in memory, with the address of no node for the copy, `removeItem` has no undefined
  -- behaviour, and it does to the queue what the abstract `removeItem` does. It frees the node taken
  -- out and returns a copy of it; from the empty queue it returns uninitialised memory.
  pub remove_item-Removida :
      {cs : List Celula}
      → IsLista m l cs
      → m item ≡ none
      → Retorna (Removida m item lixo l cs) (remove_item item lixo l m)
  remove_item-Removida {cs} is vago =
      let away = tem_de_vago item is.nos vago in
      remove_item-Removida_de cs
        (record { nos = Cadeia-grava item _ is.nos away; conta = is.conta }) away
