-- ===== src/Quadrado/Inverso.antt =====
-- What the client of LAB07-SD/AExemplo-RPC/Another-Ex makes of the status of its calls.
use unifesp_sd.Base.{
  ℕ, List, ◌≡◌, ◌≢◌, ◌≤◌, ◌<◌, leb, none, ◌==◌, true, Option, some, Bool-cases, inl, inr, [], ◌∷◌,
  arith,
}
use unifesp_sd.Base.Int.{ℤ}
use unifesp_sd.Rpcgen.{Xdr, Clnt}
use unifesp_sd.Quadrado.{SquareOut, ReqIn, ReqOut}
use unifesp_sd.Quadrado.Cliente.{
  sizeof_req_out, Linha, erro, resultado, resposta_req, squareproc_1, reqproc_1, pergunta,
  pergunta_req, main,
}

-- How `main` ends after its calls, with the size of the second object, the status of each call and
-- the object for its result.
pub data Inversa (rpc_success bloco : ℕ) (chamada : ℕ × SquareOut) (outra : ℕ × ReqOut)
    : Option (List Linha × ℕ) → Type 0 where
  recusada : chamada.0 ≡ rpc_success → Inversa rpc_success bloco chamada outra (some (erro ∷ [], 1))
  indefinida :
      chamada.0 ≢ rpc_success
      → bloco < sizeof_req_out
      → Inversa rpc_success bloco chamada outra none
  recusada_req :
      chamada.0 ≢ rpc_success
      → sizeof_req_out ≤ bloco
      → outra.0 ≡ rpc_success
      → Inversa rpc_success bloco chamada outra (some (resultado chamada.1.res ∷ erro ∷ [], 1))
  aceita :
      chamada.0 ≢ rpc_success
      → sizeof_req_out ≤ bloco
      → outra.0 ≢ rpc_success
      → Inversa rpc_success bloco chamada outra
          (some (resultado chamada.1.res ∷ resposta_req outra.1 ∷ [], 0))

-- With the right arguments and a handle, and as `RPC_SUCCESS` is 0, the client takes success for
-- failure: it ends with the code 1 and the message of an error if the first call succeeds. If that
-- fails, it goes on to the second, where an object of less than twelve bytes, such as one of the size
-- of a pointer, makes its behaviour undefined; in a larger one it prints the result only if the
-- second call has failed too, and ends with 0 only then.
pub sucesso_recusado :
    {X : Type 0} (xdr : Xdr X) (clnt : Clnt X) (rpc_success bloco : ℕ) (valor : ℤ) (out : SquareOut)
    (req_in : ReqIn) (req_out : ReqOut)
    → rpc_success ≡ 0
    → Inversa rpc_success bloco
        (squareproc_1 xdr clnt (record { arg = valor }) out)
        (reqproc_1 xdr clnt req_in req_out)
        (main xdr clnt bloco 3 true valor out req_in req_out)
unfolding main pergunta pergunta_req
sucesso_recusado xdr clnt rpc_success bloco valor out req_in req_out e =
    let chamada = squareproc_1 xdr clnt (record { arg = valor }) out in
    let outra = reqproc_1 xdr clnt req_in req_out in
    elim (Bool-cases (chamada.0 == 0)) [
      | inl h ↦ rw h (recusada (ground arith))
      | inr h ↦
          let errada : chamada.0 ≢ rpc_success = ground arith in
          elim (Bool-cases (leb 12 bloco)) [
            | inl room ↦
                let cabe : 12 ≤ bloco = ground arith in
                elim (Bool-cases (outra.0 == 0)) [
                  | inl g ↦ rw (h, room, g) (recusada_req errada cabe (ground arith))
                  | inr g ↦ rw (h, room, g) (aceita errada cabe (ground arith))
                ]
            | inr short ↦ rw (h, short) (indefinida errada (ground arith))
          ]
    ]
