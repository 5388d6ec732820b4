-- ===== src/Quadrado/Conforme.antt =====
-- LAB07-SD/AExemplo-RPC/Another-Ex/square.x, the interface of the square service, and the dispatcher
-- that rpcgen makes of it.
use unifesp_sd.Base.{ℕ, suc, zero, ◌≡◌, refl, List, [], ◌∷◌}
use unifesp_sd.Rpcgen.{Xdr, Svc, Procedimento, cumpre}
use unifesp_sd.Quadrado.{
  SquareOut, ReqOut, squareproc_1_svc, reqproc_1_svc, arg_zerado, req_zerado, xdr_square_in,
  xdr_square_out, xdr_req_in, xdr_req_out, square_prog_1,
}

module _ {X : Type 0} (xdr : Xdr X) where
  abbrev pub square_x : SquareOut → ReqOut → List (Procedimento X)
  square_x square_res req_res =
      record {
        numero = 1;
        Argumento = _;
        Resultado = _;
        xdr_argument = xdr_square_in xdr;
        xdr_result = xdr_square_out xdr;
        local = squareproc_1_svc;
        zerado = arg_zerado;
        lixo = square_res;
      }
      ∷ record {
        numero = 2;
        Argumento = _;
        Resultado = _;
        xdr_argument = xdr_req_in xdr;
        xdr_result = xdr_req_out xdr;
        local = reqproc_1_svc;
        zerado = req_zerado;
        lixo = req_res;
      }
      ∷ []

  -- The dispatcher of the square service answers every call as square.x says: by the procedure of
  -- that number, with the filters of its types, whatever the RPC library does.
  pub square_prog_1-cumpre :
      (svc : Svc X) (s : SquareOut) (r : ReqOut) (n : ℕ)
      → square_prog_1 xdr svc s r n ≡ cumpre svc (square_x s r) n
  unfolding square_prog_1 cumpre
  square_prog_1-cumpre svc s r zero = refl
  square_prog_1-cumpre svc s r (suc zero) = refl
  square_prog_1-cumpre svc s r (suc (suc zero)) = refl
  square_prog_1-cumpre svc s r (suc (suc (suc n))) = refl
