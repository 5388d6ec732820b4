-- ===== src/Rpcgen.antt =====
-- What rpcgen writes into the services of LAB07-SD/AExemplo-RPC: the part of a dispatcher after its
-- `switch` (the same in tempo_svc.c and Another-Ex/square_svc.c), and the interface that a `.x` file
-- states. The RPC library is a parameter.
pub mod Fluxo
pub mod Bytes
pub mod Campos
pub mod Ponteiro
pub mod Rede
pub mod RedeBytes
use unifesp_sd.Base.{ℕ, Bool, Option, none, some, List, [], ◌∷◌, ◌==◌, if◌then◌else◌}
use unifesp_sd.Base.Int.{ℤ, pos, ltb_ℤ}

-- A filter writes an object to a stream or reads it from one; `none` is FALSE.
abbrev pub Filtro : Type 0 → Type 0 → Type 0
Filtro X A = X → A → Option (X × A)

-- The library's filters for the C types.
pub record Xdr (X : Type 0) : Type 0 where
  pub xdr_long : Filtro X ℤ
  pub xdr_int : Filtro X ℤ
  pub xdr_char : Filtro X ℤ

-- The library's calls while it answers one call: the decoded arguments, the stream of the reply that
-- was sent, and whether the arguments were freed.
pub record Svc (X : Type 0) : Type 1 where
  pub svc_getargs : {A : Type 0} → Filtro X A → A → Option A
  pub svc_sendreply : {R : Type 0} → Filtro X R → R → Option X
  pub svc_freeargs : {A : Type 0} → Filtro X A → A → Bool

-- The client's library call: from a procedure's number, the filters and the objects of its argument
-- and its result to the status of the call and the object for the result after it.
pub record Clnt (X : Type 0) : Type 1 where
  pub clnt_call : {A R : Type 0} → ℕ → Filtro X A → A → Filtro X R → R → ℕ × R

-- What the caller gets. `vazio` is the reply without a result.
pub data Efeito (X : Type 0) : Type 0 where
  vazio noproc decode systemerr : Efeito X
  resposta : X → Efeito X

-- A dispatcher returns, or ends the process with code 1.
pub data Fim (X : Type 0) : Type 0 where
  volta : List (Efeito X) → Fim X
  encerra : List (Efeito X) → Fim X

module _ {X : Type 0} where
  -- `if (retval > 0 && !svc_sendreply(...)) svcerr_systemerr(...);`
  unfoldable pub envia : {R : Type 0} → Svc X → Filtro X R → ℤ × R → List (Efeito X)
  envia svc xdr_result (retval, result) =
      if ltb_ℤ (pos 0) retval
      then elim (svc.svc_sendreply xdr_result result) [
        | none ↦ systemerr ∷ []
        | some x ↦ resposta x ∷ []
      ]
      else []

  unfoldable pub libera : {A : Type 0} → Svc X → Filtro X A → A → List (Efeito X) → Fim X
  libera svc xdr_argument argument es =
      if svc.svc_freeargs xdr_argument argument then volta es else encerra es

  -- From `memset` on, with the zeroed argument and the uninitialised result.
  unfoldable pub atende :
      {A R : Type 0} → Svc X → Filtro X A → Filtro X R → (A → R → ℤ × R) → A → R → Fim X
  unfolding envia libera
  atende svc xdr_argument xdr_result local zerado lixo =
      elim (svc.svc_getargs xdr_argument zerado) [
        | none ↦ volta (decode ∷ [])
        | some argument ↦
            libera svc xdr_argument argument (envia svc xdr_result (local argument lixo))
      ]

-- A procedure of an interface, with what carries it out.
pub record Procedimento (X : Type 0) : Type 1 where
  pub numero : ℕ
  pub Argumento : Type 0
  pub Resultado : Type 0
  pub xdr_argument : Filtro X Argumento
  pub xdr_result : Filtro X Resultado
  pub local : Argumento → Resultado → ℤ × Resultado
  pub zerado : Argumento
  pub lixo : Resultado

-- A call by number, as an interface states it: the procedure of that number is carried out, and 0 is
-- the procedure that every program has.
abbrev pub consulta : {X : Type 0} → Svc X → List (Procedimento X) → ℕ → Fim X
consulta svc [] n = volta (noproc ∷ [])
consulta svc (p ∷ ps) n =
    if n == p.numero
    then atende svc p.xdr_argument p.xdr_result p.local p.zerado p.lixo
    else consulta svc ps n

unfoldable pub cumpre : {X : Type 0} → Svc X → List (Procedimento X) → ℕ → Fim X
cumpre svc ps n = if n == 0 then volta (vazio ∷ []) else consulta svc ps n
