-- ===== src/Rpcgen/Bytes.antt =====
-- What the RPC library promises about the bytes of a call: the filters of the C types, and the
-- arguments and the reply that it hands to and takes from a dispatcher.
use mathlib.Core.List.{append-nil}
use unifesp_sd.Base.{ℕ, ◌≡◌, ap, sym, ◌∙◌, true, some, List, [], ◌++◌}
use unifesp_sd.Base.Int.{ℤ}
use unifesp_sd.Rpcgen.{Filtro, Svc}

module _ {X : Type 0} (escrita leitura : List ℕ → X) where
  -- What the filters rely on: the library's filter of a C type writes the bytes of a number that its
  -- format holds behind those that were written, and reads the same number back, whatever the object
  -- was.
  pub record Leis (prim : Filtro X ℤ) : Type 1 where
    pub Cabe : ℤ → Type 0
    pub bytes : ℤ → List ℕ
    pub escreve :
        (z : ℤ) (bs : List ℕ) → Cabe z → prim (escrita bs) z ≡ some (escrita (bs ++ bytes z), z)
    pub le :
        (z v : ℤ) (bs : List ℕ) → Cabe z → prim (leitura (bytes z ++ bs)) v ≡ some (leitura bs, z)

  -- A filter writes `bytes` for an object, and reads the object back from them.
  pub record Volta {A : Type 0} (filtro : Filtro X A) (a : A) : Type 0 where
    pub bytes : List ℕ
    pub escreve : (bs : List ℕ) → filtro (escrita bs) a ≡ some (escrita (bs ++ bytes), a)
    pub le : (o : A) (bs : List ℕ) → filtro (leitura (bytes ++ bs)) o ≡ some (leitura bs, a)

  -- A call whose arguments came as the bytes `bs`: they are given to the filter, a reply that its
  -- filter can write is sent, and the arguments are freed.
  pub record Chega (svc : Svc X) (bs : List ℕ) : Type 1 where
    pub le :
        {A : Type 0} (f : Filtro X A) (o a : A) (x : X)
        → f (leitura bs) o ≡ some (x, a)
        → svc.svc_getargs f o ≡ some a
    pub envia :
        {R : Type 0} (f : Filtro X R) (r : R) (x : X)
        → f (escrita []) r ≡ some (x, r)
        → svc.svc_sendreply f r ≡ some x
    pub libera : {A : Type 0} (f : Filtro X A) (a : A) → svc.svc_freeargs f a ≡ true

  pub prim-Volta : {prim : Filtro X ℤ} (L : Leis prim) (z : ℤ) → L.Cabe z → Volta prim z
  prim-Volta L z c = record {
    bytes = L.bytes z;
    escreve = λ bs. L.escreve z bs c;
    le = λ o bs. L.le z o bs c;
  }

  -- The bytes alone.
  pub le-tudo :
      {A : Type 0} {filtro : Filtro X A} {a : A} (v : Volta filtro a) (o : A)
      → filtro (leitura v.bytes) o ≡ some (leitura [], a)
  le-tudo {A} {filtro} v o = ap (λ bs. filtro (leitura bs) o) (sym (append-nil v.bytes)) ∙ v.le o []

  pub Leis-le_tudo :
      {prim : Filtro X ℤ} (L : Leis prim) (z v : ℤ)
      → L.Cabe z
      → prim (leitura (L.bytes z)) v ≡ some (leitura [], z)
  Leis-le_tudo {prim} L z v c =
      ap (λ bs. prim (leitura bs) v) (sym (append-nil (L.bytes z))) ∙ L.le z v [] c
