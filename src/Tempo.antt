-- ===== src/Tempo.antt =====
-- The time service of LAB07-SD/AExemplo-RPC: tempo.h, tempo_xdr.c, tempo_proced.c, `tempoprog_1` of
-- tempo_svc.c, tempo_clnt.c and the `main` of cliente.c.
pub mod Conforme
pub mod Exemplos
use unifesp_sd.Base.{ℕ, Bool, Option, some, List, [], ◌∷◌, ◌==◌, if◌then◌else◌, ◌>>=◌}
use unifesp_sd.Base.Int.{ℤ, pos}
use unifesp_sd.Rpcgen.{Filtro, Xdr, Svc, Clnt, Fim, volta, noproc, vazio, atende}

-- Two fields of type `long`.
pub record Timeval : Type 0 where
  pub tv_sec : ℤ
  pub tv_usec : ℤ

-- Nothing is read or written.
unfoldable pub tempo_1_svc : ℤ → Unit {0} → Timeval → ℤ × Timeval
tempo_1_svc retval argp result = (retval, result)

module _ {X : Type 0} (xdr : Xdr X) where
  unfoldable pub xdr_timeval : Filtro X Timeval
  xdr_timeval xdrs objp = do
    (xdrs, tv_sec) ← xdr.xdr_long xdrs objp.tv_sec
    (xdrs, tv_usec) ← xdr.xdr_long xdrs objp.tv_usec
    some (xdrs, record { tv_sec = tv_sec; tv_usec = tv_usec })

module _ {X : Type 0} (xdr : Xdr X) (xdr_void : Filtro X (Unit {0})) where
  -- The number of the call, and what the uninitialised `retval` and `result` hold.
  unfoldable pub tempoprog_1 : Svc X → ℤ → Timeval → ℕ → Fim X
  unfolding atende xdr_timeval tempo_1_svc
  tempoprog_1 svc retval result rq_proc =
      if rq_proc == 0
      then volta (vazio ∷ [])
      else (if rq_proc == 1
          then atende svc xdr_void (xdr_timeval xdr) (tempo_1_svc retval) tt result
          else volta (noproc ∷ []))

-- The lines that the client prints.
pub data Linha : Type 0 where
  uso clnt_perror : Linha
  tempo : ℤ → ℤ → Linha

module _ {X : Type 0} (xdr : Xdr X) (xdr_void : Filtro X (Unit {0})) (clnt : Clnt X) where
  unfoldable pub tempo_1 : Timeval → ℕ × Timeval
  tempo_1 clnt_res = clnt.clnt_call 1 xdr_void tt (xdr_timeval xdr) clnt_res

  -- `main` of cliente.c: the number of arguments, the outcome of `clnt_create`, what `malloc` gives
  -- for the result, which it does give: the test of `result` after the call never holds. The code
  -- that it returns is 0 everywhere.
  unfoldable pub main : ℕ → Bool → Timeval → List Linha × ℕ
  unfolding tempo_1
  main argc criado lixo =
      if argc == 2
      then (if criado
          then (let result = (tempo_1 lixo).1 in (tempo result.tv_sec result.tv_usec ∷ [], 0))
          else (clnt_perror ∷ [], 0))
      else (uso ∷ [], 0)
