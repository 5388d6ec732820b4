-- ===== src/Quadrado/Bytes.antt =====
-- The two procedures of the square service of LAB07-SD/AExemplo-RPC/Another-Ex on the bytes of a call.
use mathlib.Core.List.{append_assoc}
use unifesp_sd.Base.{ℕ, ◌≡◌, refl, none, some, List, [], ◌∷◌, ◌++◌, ◌>>=◌}
use unifesp_sd.Base.Int.{ℤ, pos, ◌*ℤ◌, i64}
use unifesp_sd.Rpcgen.{Filtro, Xdr, Svc, volta, resposta, decode, atende, envia, libera}
use unifesp_sd.Rpcgen.Bytes.{Leis, Volta, Chega, Leis-le_tudo, le-tudo}
use unifesp_sd.Quadrado.{
  squareproc_1_svc, reqproc_1_svc, SquareOut, ReqIn, ReqOut, arg_zerado, req_zerado, xdr_req_in,
  xdr_req_out, xdr_square_in, xdr_square_out, square_prog_1,
}

module _ {X : Type 0} (escrita leitura : List ℕ → X) (xdr : Xdr X)
    (L : Leis escrita leitura xdr.xdr_long) where
  -- What the client's filter writes for a number, the server answers: the bytes of its reply are
  -- read by the client's filter as the square of the number, as a `long`.
  pub quadrado_respondido :
      (svc : Svc X) (s : SquareOut) (r : ReqOut) (z : ℤ)
      → L.Cabe z
      → L.Cabe (i64 (z *ℤ z))
      → Chega escrita leitura svc (L.bytes z)
      → (xdr_square_in xdr (escrita []) (record { arg = z })
          ≡ some (escrita (L.bytes z), record { arg = z }))
        × (cs : List ℕ) × (square_prog_1 xdr svc s r 1 ≡ volta (resposta (escrita cs) ∷ []))
        × ((o : SquareOut)
            → xdr_square_out xdr (leitura cs) o ≡ some (leitura [], record { res = i64 (z *ℤ z) }))
  unfolding xdr_square_in xdr_square_out square_prog_1 atende envia libera squareproc_1_svc
  quadrado_respondido svc s r z a b c =
      let q = i64 (z *ℤ z) in
      let lido : svc.svc_getargs (xdr_square_in xdr) arg_zerado ≡ some (record { arg = z }) =
        c.le (xdr_square_in xdr) arg_zerado _ (leitura [])
          (rw (Leis-le_tudo escrita leitura L z (pos 0) a) refl) in
      let enviado : svc.svc_sendreply (xdr_square_out xdr) (record { res = q })
          ≡ some (escrita (L.bytes q)) =
        c.envia (xdr_square_out xdr) (record { res = q }) _ (rw (L.escreve q [] b) refl) in
      (
        rw (L.escreve z [] a) refl,
        L.bytes q,
        rw (lido, atende) (rw (enviado, c.libera (xdr_square_in xdr) (record { arg = z }))),
        (λ o. rw (Leis-le_tudo escrita leitura L q o.res b) refl),
      )

-- A `char` and two `int`s there and back.
tres_campos :
    {X A : Type 0} {escrita leitura : List ℕ → X} {char int : Filtro X ℤ}
    (C : Leis escrita leitura char) (I : Leis escrita leitura int) (monta : ℤ → ℤ → ℤ → A)
    (p q r : A → ℤ) (a : A)
    → monta (p a) (q a) (r a) ≡ a
    → C.Cabe (p a)
    → I.Cabe (q a)
    → I.Cabe (r a)
    → Volta escrita leitura
        (λ x o. do
          (x, u) ← char x (p o)
          (x, v) ← int x (q o)
          (x, w) ← int x (r o)
          some (x, monta u v w))
        a
tres_campos C I monta p q r a e c d f = record {
  bytes = C.bytes (p a) ++ I.bytes (q a) ++ I.bytes (r a);
  escreve = λ bs.
      rw (C.escreve (p a) bs c, I.escreve (q a) _ d, I.escreve (r a) _ f)
        (rw (
          append_assoc bs (C.bytes (p a)) (I.bytes (q a)),
          append_assoc bs (C.bytes (p a) ++ I.bytes (q a)) (I.bytes (r a)),
          e,
        ));
  le = λ o bs. rw (
    append_assoc (C.bytes (p a) ++ I.bytes (q a)) (I.bytes (r a)) bs,
    append_assoc (C.bytes (p a)) (I.bytes (q a)) (I.bytes (r a) ++ bs),
    C.le (p a) (p o) _ c,
    I.le (q a) (q o) _ d,
    I.le (r a) (r o) bs f,
    e,
  );
}

-- What REQPROC answers: 'A', 11 and 22.
abbrev pub onze : ReqOut
onze = record { flag = pos 65; a_int = pos 11; other_int = pos 22 }

module _ {X : Type 0} (escrita leitura : List ℕ → X) (xdr : Xdr X)
    (L : Leis escrita leitura xdr.xdr_long) (C : Leis escrita leitura xdr.xdr_char)
    (I : Leis escrita leitura xdr.xdr_int) where
  pub xdr_req_in-Volta :
      (a : ReqIn)
      → C.Cabe a.flag
      → I.Cabe a.a_int
      → I.Cabe a.other_int
      → Volta escrita leitura (xdr_req_in xdr) a
  unfolding xdr_req_in
  xdr_req_in-Volta a c d f =
      tres_campos C I (λ u v w. record { flag = u; a_int = v; other_int = w }) (λ r. r.flag)
        (λ r. r.a_int) (λ r. r.other_int) a refl c d f

  xdr_req_out-Volta :
      (a : ReqOut)
      → C.Cabe a.flag
      → I.Cabe a.a_int
      → I.Cabe a.other_int
      → Volta escrita leitura (xdr_req_out xdr) a
  unfolding xdr_req_out
  xdr_req_out-Volta a c d f =
      tres_campos C I (λ u v w. record { flag = u; a_int = v; other_int = w }) (λ r. r.flag)
        (λ r. r.a_int) (λ r. r.other_int) a refl c d f

  req_respondido :
      (svc : Svc X) (s : SquareOut) (r : ReqOut) (a : ReqIn)
      (v : Volta escrita leitura (xdr_req_in xdr) a)
      → C.Cabe (pos 65)
      → I.Cabe (pos 11)
      → I.Cabe (pos 22)
      → Chega escrita leitura svc v.bytes
      → (cs : List ℕ) × (square_prog_1 xdr svc s r 2 ≡ volta (resposta (escrita cs) ∷ []))
        × ((o : ReqOut) → xdr_req_out xdr (leitura cs) o ≡ some (leitura [], onze))
  unfolding square_prog_1 atende envia libera reqproc_1_svc
  req_respondido svc s r a v c d f arrives =
      let w = xdr_req_out-Volta onze c d f in
      let lido : svc.svc_getargs (xdr_req_in xdr) req_zerado ≡ some a =
        arrives.le (xdr_req_in xdr) req_zerado a (leitura [])
          (le-tudo escrita leitura v req_zerado) in
      let enviado : svc.svc_sendreply (xdr_req_out xdr) onze ≡ some (escrita w.bytes) =
        arrives.envia (xdr_req_out xdr) onze _ (w.escreve []) in
      (
        w.bytes,
        rw (lido, atende) (rw (enviado, arrives.libera (xdr_req_in xdr) a)),
        (λ o. le-tudo escrita leitura w o),
      )

  -- The service on the bytes of a call, where the formats hold the numbers. A number that the client
  -- writes for SQUAREPROC is answered, and the client reads its square, as a `long`. A message that it
  -- writes for REQPROC is answered, and it reads 'A', 11 and 22. If the arguments of either procedure
  -- cannot be read, the answer is that error.
  pub servico_responde :
      (svc outro mudo : Svc X) (s : SquareOut) (r : ReqOut) (z : ℤ) (a : ReqIn)
      (v : Volta escrita leitura (xdr_req_in xdr) a)
      → L.Cabe z
      → L.Cabe (i64 (z *ℤ z))
      → C.Cabe (pos 65)
      → I.Cabe (pos 11)
      → I.Cabe (pos 22)
      → Chega escrita leitura svc (L.bytes z)
      → Chega escrita leitura outro v.bytes
      → mudo.svc_getargs (xdr_square_in xdr) arg_zerado ≡ none
      → mudo.svc_getargs (xdr_req_in xdr) req_zerado ≡ none
      → ((cs : List ℕ) × (square_prog_1 xdr svc s r 1 ≡ volta (resposta (escrita cs) ∷ []))
          × ((o : SquareOut)
              → xdr_square_out xdr (leitura cs) o
                ≡ some (leitura [], record { res = i64 (z *ℤ z) })))
        × ((cs : List ℕ) × (square_prog_1 xdr outro s r 2 ≡ volta (resposta (escrita cs) ∷ []))
            × ((o : ReqOut) → xdr_req_out xdr (leitura cs) o ≡ some (leitura [], onze)))
        × (square_prog_1 xdr mudo s r 1 ≡ volta (decode ∷ []))
        × (square_prog_1 xdr mudo s r 2 ≡ volta (decode ∷ []))
  unfolding square_prog_1 atende
  servico_responde svc outro mudo s r z a v fits square c d f arrives other_arrives e g =
      let (written, cs, answer, back) =
        quadrado_respondido escrita leitura xdr L svc s r z fits square arrives in
      (
        (cs, answer, back),
        req_respondido outro s r a v c d f other_arrives,
        rw (e, square_prog_1, atende) refl,
        rw (g, square_prog_1, atende) refl,
      )
