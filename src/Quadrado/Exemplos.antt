-- ===== src/Quadrado/Exemplos.antt =====
-- The square service of LAB07-SD/AExemplo-RPC/Another-Ex and its client on concrete calls, and the
-- theorems at them.
use unifesp_sd.Base.{ℕ, ◌≡◌, refl, ◌==◌, true, some, List, [], ◌∷◌, arith, if◌then◌else◌}
use unifesp_sd.Base.Int.{pos, ◌*ℤ◌, i64, trunca}
use unifesp_sd.Rpcgen.{Clnt, volta, resposta, decode, noproc, cumpre}
use unifesp_sd.Rpcgen.Fluxo.{Fluxo, xdr, svc, leis, svc-Chega, escrevendo, lendo}
use unifesp_sd.Quadrado.{
  SquareOut, ReqIn, ReqOut, xdr_square_in, xdr_square_out, xdr_req_in, xdr_req_out, square_prog_1,
}
use unifesp_sd.Quadrado.Conforme.{square_x, square_prog_1-cumpre}
use unifesp_sd.Rpcgen.Bytes.{Volta}
use unifesp_sd.Quadrado.Bytes.{quadrado_respondido, servico_responde, xdr_req_in-Volta, onze}
use unifesp_sd.Quadrado.Cliente.{squareproc_1, reqproc_1, main}
use unifesp_sd.Quadrado.Inverso.{Inversa, sucesso_recusado}

abbrev lixo : SquareOut
lixo = record { res = pos 77 }

abbrev lixo_in : ReqIn
lixo_in = record { flag = pos 1; a_int = pos 2; other_int = pos 3 }

abbrev lixo_req : ReqOut
lixo_req = record { flag = pos 4; a_int = pos 5; other_int = pos 6 }

-- The two procedures, an unknown one, arguments that end too soon, and a square that one byte does
-- not hold.
square_prog_1_doze :
    square_prog_1 xdr (svc (12 ∷ [])) lixo lixo_req 1
    ≡ volta (resposta (escrevendo (144 ∷ [])) ∷ [])
unfolding square_prog_1 ◌*ℤ◌ trunca
square_prog_1_doze = refl

square_prog_1_req :
    square_prog_1 xdr (svc (1 ∷ 2 ∷ 3 ∷ [])) lixo lixo_req 2
    ≡ volta (resposta (escrevendo (65 ∷ 11 ∷ 22 ∷ [])) ∷ [])
unfolding square_prog_1
square_prog_1_req = refl

square_prog_1_curta : square_prog_1 xdr (svc (1 ∷ [])) lixo lixo_req 2 ≡ volta (decode ∷ [])
unfolding square_prog_1
square_prog_1_curta = refl

square_prog_1_tres : square_prog_1 xdr (svc []) lixo lixo_req 3 ≡ volta (noproc ∷ [])
unfolding square_prog_1
square_prog_1_tres = refl

quadrado_respondido_teste :
    (xdr_square_in xdr (escrevendo []) (record { arg = pos 12 })
      ≡ some (escrevendo (12 ∷ []), record { arg = pos 12 }))
    × (cs : List ℕ) × (square_prog_1 xdr (svc (12 ∷ [])) lixo lixo_req 1
        ≡ volta (resposta (escrevendo cs) ∷ []))
    × ((o : SquareOut)
        → xdr_square_out xdr (lendo cs) o
          ≡ some (lendo [], record { res = i64 (pos 12 *ℤ pos 12) }))
unfolding ◌*ℤ◌ trunca
quadrado_respondido_teste =
    quadrado_respondido escrevendo lendo xdr leis (svc (12 ∷ [])) lixo lixo_req (pos 12)
      (omega arith) (omega arith) (svc-Chega (12 ∷ []))

square_prog_1-cumpre_teste :
    square_prog_1 xdr (svc (12 ∷ [])) lixo lixo_req 1
    ≡ cumpre (svc (12 ∷ [])) (square_x xdr lixo lixo_req) 1
square_prog_1-cumpre_teste = square_prog_1-cumpre xdr (svc (12 ∷ [])) lixo lixo_req 1

lixo_in-Volta : Volta escrevendo lendo (xdr_req_in xdr) lixo_in
lixo_in-Volta =
    xdr_req_in-Volta escrevendo lendo xdr leis leis leis lixo_in (omega arith) (omega arith)
      (omega arith)

servico_responde_example :
    ((cs : List ℕ) × (square_prog_1 xdr (svc (12 ∷ [])) lixo lixo_req 1
        ≡ volta (resposta (escrevendo cs) ∷ []))
      × ((o : SquareOut)
          → xdr_square_out xdr (lendo cs) o
            ≡ some (lendo [], record { res = i64 (pos 12 *ℤ pos 12) })))
    × ((cs : List ℕ) × (square_prog_1 xdr (svc lixo_in-Volta.bytes) lixo lixo_req 2
          ≡ volta (resposta (escrevendo cs) ∷ []))
        × ((o : ReqOut) → xdr_req_out xdr (lendo cs) o ≡ some (lendo [], onze)))
    × (square_prog_1 xdr (svc []) lixo lixo_req 1 ≡ volta (decode ∷ []))
    × (square_prog_1 xdr (svc []) lixo lixo_req 2 ≡ volta (decode ∷ []))
unfolding ◌*ℤ◌ trunca xdr_square_in xdr_req_in
servico_responde_example =
    servico_responde escrevendo lendo xdr leis leis leis (svc (12 ∷ [])) (svc lixo_in-Volta.bytes)
      (svc []) lixo lixo_req (pos 12) lixo_in lixo_in-Volta (omega arith) (omega arith)
      (omega arith) (omega arith) (omega arith) (svc-Chega (12 ∷ []))
      (svc-Chega lixo_in-Volta.bytes) refl refl

-- A library in which the call for the square fails and the other succeeds.
abbrev clnt : Clnt Fluxo
clnt = record { clnt_call = λ n f a g r. (if n == 1 then 5 else 0, r) }

-- With the object that is asked for.
sucesso_recusado_example :
    Inversa 0 8
      (squareproc_1 xdr clnt (record { arg = pos 12 }) lixo)
      (reqproc_1 xdr clnt lixo_in lixo_req)
      (main xdr clnt 8 3 true (pos 12) lixo lixo_in lixo_req)
sucesso_recusado_example = sucesso_recusado xdr clnt 0 8 (pos 12) lixo lixo_in lixo_req refl
