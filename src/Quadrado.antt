-- ===== src/Quadrado.antt =====
-- The square service of LAB07-SD/AExemplo-RPC/Another-Ex: the messages of square.h, the filters of
-- square_xdr.c, the procedures of servidor.c and `square_prog_1` of square_svc.c.
pub mod Cliente
pub mod Conforme
pub mod Bytes
pub mod Inverso
pub mod Exemplos
use unifesp_sd.Base.{ℕ, Option, some, List, [], ◌∷◌, ◌==◌, if◌then◌else◌, ◌>>=◌}
use unifesp_sd.Base.Int.{ℤ, pos, ◌*ℤ◌, i64}
use unifesp_sd.Rpcgen.{Filtro, Xdr, Svc, Fim, volta, noproc, vazio, atende}

-- A `long` each.
pub record SquareIn : Type 0 where
  pub arg : ℤ

pub record SquareOut : Type 0 where
  pub res : ℤ

-- A `char` and two `int`s each.
pub record ReqIn : Type 0 where
  pub flag : ℤ
  pub a_int : ℤ
  pub other_int : ℤ

pub record ReqOut : Type 0 where
  pub flag : ℤ
  pub a_int : ℤ
  pub other_int : ℤ

-- The thread that it starts only prints.
unfoldable pub squareproc_1_svc : SquareIn → SquareOut → ℤ × SquareOut
squareproc_1_svc in_ out = (pos 1, record out { res = i64 (in_.arg *ℤ in_.arg) })

-- `'A'` is 65.
unfoldable pub reqproc_1_svc : ReqIn → ReqOut → ℤ × ReqOut
reqproc_1_svc reqin out = (pos 1, record { flag = pos 65; a_int = pos 11; other_int = pos 22 })

abbrev pub arg_zerado : SquareIn
arg_zerado = record { arg = pos 0 }

abbrev pub req_zerado : ReqIn
req_zerado = record { flag = pos 0; a_int = pos 0; other_int = pos 0 }

module _ {X : Type 0} (xdr : Xdr X) where
  unfoldable pub xdr_square_in : Filtro X SquareIn
  xdr_square_in xdrs objp = do
    (xdrs, arg) ← xdr.xdr_long xdrs objp.arg
    some (xdrs, record { arg = arg })

  unfoldable pub xdr_square_out : Filtro X SquareOut
  xdr_square_out xdrs objp = do
    (xdrs, res) ← xdr.xdr_long xdrs objp.res
    some (xdrs, record { res = res })

  unfoldable pub xdr_req_out : Filtro X ReqOut
  xdr_req_out xdrs objp = do
    (xdrs, flag) ← xdr.xdr_char xdrs objp.flag
    (xdrs, a_int) ← xdr.xdr_int xdrs objp.a_int
    (xdrs, other_int) ← xdr.xdr_int xdrs objp.other_int
    some (xdrs, record { flag = flag; a_int = a_int; other_int = other_int })

  unfoldable pub xdr_req_in : Filtro X ReqIn
  xdr_req_in xdrs objp = do
    (xdrs, flag) ← xdr.xdr_char xdrs objp.flag
    (xdrs, a_int) ← xdr.xdr_int xdrs objp.a_int
    (xdrs, other_int) ← xdr.xdr_int xdrs objp.other_int
    some (xdrs, record { flag = flag; a_int = a_int; other_int = other_int })

  -- The number of the call, and what the uninitialised `result` holds as either of its members.
  unfoldable pub square_prog_1 : Svc X → SquareOut → ReqOut → ℕ → Fim X
  unfolding atende xdr_square_in xdr_square_out xdr_req_in xdr_req_out squareproc_1_svc
      reqproc_1_svc
  square_prog_1 svc square_res req_res rq_proc =
      if rq_proc == 0
      then volta (vazio ∷ [])
      else (if rq_proc == 1
          then atende svc xdr_square_in xdr_square_out squareproc_1_svc arg_zerado square_res
          else (if rq_proc == 2
              then atende svc xdr_req_in xdr_req_out reqproc_1_svc req_zerado req_res
              else volta (noproc ∷ [])))
