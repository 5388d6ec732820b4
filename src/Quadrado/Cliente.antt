-- ===== src/Quadrado/Cliente.antt =====
-- The stubs of square_clnt.c and the `main` of cliente.c in LAB07-SD/AExemplo-RPC/Another-Ex.
use unifesp_sd.Base.{ℕ, Bool, Option, none, some, List, [], ◌∷◌, ◌==◌, leb, ◌>>=◌, if◌then◌else◌}
use unifesp_sd.Base.Int.{ℤ}
use unifesp_sd.Rpcgen.{Xdr, Clnt}
use unifesp_sd.Quadrado.{
  SquareIn, SquareOut, ReqIn, ReqOut, xdr_square_in, xdr_square_out, xdr_req_in, xdr_req_out,
}

-- The lines that `main` prints; `erro` is that of `perror`.
pub data Linha : Type 0 where
  uso erro : Linha
  resultado : ℤ → Linha
  resposta_req : ReqOut → Linha

-- `sizeof(struct req_out)`: `flag` at 0, `a_int` at 4, `other_int` at 8.
abbrev pub sizeof_req_out : ℕ
sizeof_req_out = 12

module _ {X : Type 0} (xdr : Xdr X) (clnt : Clnt X) where
  unfoldable pub squareproc_1 : SquareIn → SquareOut → ℕ × SquareOut
  squareproc_1 argp clnt_res =
      clnt.clnt_call 1 (xdr_square_in xdr) argp (xdr_square_out xdr) clnt_res

  unfoldable pub reqproc_1 : ReqIn → ReqOut → ℕ × ReqOut
  reqproc_1 argp clnt_res = clnt.clnt_call 2 (xdr_req_in xdr) argp (xdr_req_out xdr) clnt_res

  -- From the second call on, with an object for its result of `bloco` bytes. A call that succeeds has
  -- stored `other_int` in it, and after one that fails `printf` reads it: in an object that is too
  -- short either is undefined.
  unfoldable pub pergunta_req : ℕ → ReqIn → ReqOut → Option (List Linha × ℕ)
  unfolding reqproc_1
  pergunta_req bloco req_in req_out =
      let (estado, req_out') = reqproc_1 req_in req_out in
      if leb sizeof_req_out bloco
      then some (if estado == 0 then (erro ∷ [], 1) else (resposta_req req_out' ∷ [], 0))
      else none

  -- From the first call on.
  unfoldable pub pergunta : ℕ → SquareIn → SquareOut → ReqIn → ReqOut → Option (List Linha × ℕ)
  unfolding squareproc_1 pergunta_req
  pergunta bloco in_ out req_in req_out =
      let (estado, out') = squareproc_1 in_ out in
      let outra = pergunta_req bloco req_in req_out in
      if estado == 0
      then some (erro ∷ [], 1)
      else (do (linhas, codigo) ← outra; some (resultado out'.res ∷ linhas, codigo))

  -- `main` with its number of arguments, the outcome of `clnt_create`, what `atoi` reads from the
  -- second argument, and what `req_in` and the two objects for the results hold, none of which is
  -- initialised. `bloco` is the size of the object that `malloc(sizeof(req_out))` gives, where
  -- `req_out` is the pointer. The handle is not tested, and a NULL one is dereferenced by the call:
  -- `none`.
  unfoldable pub main : ℕ → ℕ → Bool → ℤ → SquareOut → ReqIn → ReqOut → Option (List Linha × ℕ)
  unfolding pergunta
  main bloco argc criado valor out req_in req_out =
      if argc == 3
      then (if criado then pergunta bloco (record { arg = valor }) out req_in req_out else none)
      else some (uso ∷ [], 1)
