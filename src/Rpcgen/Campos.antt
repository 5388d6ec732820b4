-- ===== src/Rpcgen/Campos.antt =====
-- Filters that pass the numbers of a record to the library one after the other.
use mathlib.Core.List.{append_assoc}
use unifesp_sd.Base.{ℕ, ◌≡◌, some, List, ◌++◌, ◌>>=◌}
use unifesp_sd.Base.Int.{ℤ}
use unifesp_sd.Rpcgen.{Filtro}
use unifesp_sd.Rpcgen.Bytes.{Leis, Volta}

module _ {X A : Type 0} {escrita leitura : List ℕ → X} {prim : Filtro X ℤ}
    (L : Leis escrita leitura prim) where
  pub dois-Volta :
      (monta : ℤ → ℤ → A) (p q : A → ℤ) (a : A)
      → monta (p a) (q a) ≡ a
      → L.Cabe (p a)
      → L.Cabe (q a)
      → Volta escrita leitura
          (λ x o. do (x, u) ← prim x (p o); (x, v) ← prim x (q o); some (x, monta u v))
          a
  dois-Volta monta p q a e c d = record {
    bytes = L.bytes (p a) ++ L.bytes (q a);
    escreve = λ bs.
        rw (L.escreve (p a) bs c, L.escreve (q a) _ d)
          (rw (append_assoc bs (L.bytes (p a)) (L.bytes (q a)), e));
    le = λ o bs. rw (
      append_assoc (L.bytes (p a)) (L.bytes (q a)) bs,
      L.le (p a) (p o) _ c,
      L.le (q a) (q o) bs d,
      e,
    );
  }

  pub tres-Volta :
      (monta : ℤ → ℤ → ℤ → A) (p q r : A → ℤ) (a : A)
      → monta (p a) (q a) (r a) ≡ a
      → L.Cabe (p a)
      → L.Cabe (q a)
      → L.Cabe (r a)
      → Volta escrita leitura
          (λ x o. do
            (x, u) ← prim x (p o)
            (x, v) ← prim x (q o)
            (x, w) ← prim x (r o)
            some (x, monta u v w))
          a
  tres-Volta monta p q r a e c d f = record {
    bytes = L.bytes (p a) ++ L.bytes (q a) ++ L.bytes (r a);
    escreve = λ bs.
        rw (L.escreve (p a) bs c, L.escreve (q a) _ d, L.escreve (r a) _ f)
          (rw (
            append_assoc bs (L.bytes (p a)) (L.bytes (q a)),
            append_assoc bs (L.bytes (p a) ++ L.bytes (q a)) (L.bytes (r a)),
            e,
          ));
    le = λ o bs. rw (
      append_assoc (L.bytes (p a) ++ L.bytes (q a)) (L.bytes (r a)) bs,
      append_assoc (L.bytes (p a)) (L.bytes (q a)) (L.bytes (r a) ++ bs),
      L.le (p a) (p o) _ c,
      L.le (q a) (q o) _ d,
      L.le (r a) (r o) bs f,
      e,
    );
  }
