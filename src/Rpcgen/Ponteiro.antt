-- ===== src/Rpcgen/Ponteiro.antt =====
-- What rpcgen writes where a procedure returns a pointer to its result (LAB07-SD): the part of a
-- dispatcher after its `switch`, for a server with a state, and a client's stub.
use unifesp_sd.Base.{ℕ, Option, none, some, List, [], ◌∷◌, ◌==◌, if◌then◌else◌}
use unifesp_sd.Rpcgen.{Filtro, Svc, Efeito, decode, systemerr, resposta}

-- A procedure leaves a new state and its result, `none` for NULL; or it is still running, or it has
-- undefined behaviour.
pub data Execucao (W R : Type 0) : Type 0 where
  retorna : W → Option R → Execucao W R
  presa : W → Execucao W R
  falha : Execucao W R

-- The dispatcher returns, ends the process with code 1, is still inside a procedure, or has undefined
-- behaviour.
pub data Desfecho (W X : Type 0) : Type 0 where
  volta : W → List (Efeito X) → Desfecho W X
  encerra : W → List (Efeito X) → Desfecho W X
  dentro : W → Desfecho W X
  indefinido : Desfecho W X

-- `if (result != NULL && !svc_sendreply(...)) svcerr_systemerr(...);`
unfoldable pub envia : {X R : Type 0} → Svc X → Filtro X R → Option R → List (Efeito X)
envia svc xdr_result none = []
envia svc xdr_result (some result) = elim (svc.svc_sendreply xdr_result result) [
  | none ↦ systemerr ∷ []
  | some x ↦ resposta x ∷ []
]

module _ {W X : Type 0} where
  unfoldable pub libera : {A : Type 0} → Svc X → Filtro X A → A → W → List (Efeito X) → Desfecho W X
  libera svc xdr_argument argument w es =
      if svc.svc_freeargs xdr_argument argument then volta w es else encerra w es

  -- After the call of the procedure.
  unfoldable pub conclui :
      {A R : Type 0} → Svc X → Filtro X A → Filtro X R → A → Execucao W R → Desfecho W X
  unfolding envia libera
  conclui svc xdr_argument xdr_result argument (retorna w result) =
      libera svc xdr_argument argument w (envia svc xdr_result result)
  conclui svc xdr_argument xdr_result argument (presa w) = dentro w
  conclui svc xdr_argument xdr_result argument falha = indefinido

  -- From `memset` on, with the zeroed argument, in the state `w`.
  unfoldable pub atende :
      {A R : Type 0}
      → Svc X
      → Filtro X A
      → Filtro X R
      → (A → W → Execucao W R)
      → A
      → W
      → Desfecho W X
  unfolding conclui
  atende svc xdr_argument xdr_result local zerado w = elim (svc.svc_getargs xdr_argument zerado) [
    | none ↦ volta w (decode ∷ [])
    | some argument ↦ conclui svc xdr_argument xdr_result argument (local argument w)
  ]

-- The client's library, where the call changes the state of the world: `clnt_call`, from the number
-- of the procedure, the filters and the objects of the argument and the result to the status of the
-- call and the object for the result after it; and the status `RPC_SUCCESS`.
pub record Clnt (W X : Type 0) : Type 1 where
  pub rpc_success : ℕ
  pub clnt_call : {A R : Type 0} → W → ℕ → Filtro X A → A → Filtro X R → R → W × ℕ × R

-- A stub: the zeroed result is handed to the call, and `none` is NULL.
unfoldable pub chama :
    {W X A R : Type 0} → Clnt W X → W → ℕ → Filtro X A → Filtro X R → R → A → W × Option R
chama clnt w proc xdr_argument xdr_result zerado argp =
    let (w', estado, res) = clnt.clnt_call w proc xdr_argument argp xdr_result zerado in
    (w', if estado == clnt.rpc_success then some res else none)
