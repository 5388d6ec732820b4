-- ===== src/Rpc/Despacho.antt =====
-- LAB07-SD/backup/server_cent_svc.c: `server_cent_1`, which answers one call. What the RPC library
-- answers (the decoded arguments, was the reply sent, were the arguments freed) comes with the call.
pub mod Seguro
pub mod Registro
use unifesp_sd.Base.{ℕ, Bool, Option, none, some, List, [], ◌∷◌, ◌==◌, if◌then◌else◌}
use unifesp_sd.Base.Int.{ℤ}
use unifesp_sd.Rpc.Mensagem.{RequestIn, Release, ReplyOut}
use unifesp_sd.Rpc.Servidor.{Servidor, Chamada, retorna, presa, falha, req_1_svc, rel_1_svc}

pub record Pedido : Type 0 where
  pub rq_proc : ℕ
  pub req_1_arg : Option RequestIn
  pub rel_1_arg : Option Release
  pub envio_ok : Bool
  pub free_ok : Bool

-- What the caller gets.
pub data Efeito : Type 0 where
  vazio noproc decode systemerr : Efeito
  resposta_req : ReplyOut → Efeito
  resposta_rel : ℤ → Efeito

-- The dispatcher returns, ends the process with code 1, is still inside `req_1_svc`, or has
-- undefined behaviour.
pub data Fim : Type 0 where
  volta : Servidor → List Efeito → Fim
  encerra : Servidor → List Efeito → Fim
  dentro : Servidor → Fim
  indefinido : Fim

-- From `svc_sendreply` on.
unfoldable pub responde : Pedido → Servidor → Efeito → Fim
responde c s e =
    let efeitos = if c.envio_ok then e ∷ [] else systemerr ∷ [] in
    if c.free_ok then volta s efeitos else encerra s efeitos

unfoldable pub responde_req : Pedido → Chamada ReplyOut → Fim
unfolding responde
responde_req c (retorna s rep) = responde c s (resposta_req rep)
responde_req c (presa s) = dentro s
responde_req c falha = indefinido

-- From `svc_getargs` on, with turns for the loop of `req_1_svc`.
unfoldable pub chama_req : ℕ → Servidor → Pedido → Fim
unfolding responde_req
chama_req k s c = elim c.req_1_arg [
  | none ↦ volta s (decode ∷ [])
  | some req ↦ responde_req c (req_1_svc k s req)
]

unfoldable pub chama_rel : Servidor → Pedido → Fim
unfolding responde
chama_rel s c = elim c.rel_1_arg [
  | none ↦ volta s (decode ∷ [])
  | some rel ↦ let (s', r) = rel_1_svc s rel in responde c s' (resposta_rel r)
]

unfoldable pub server_cent_1 : ℕ → Servidor → Pedido → Fim
unfolding chama_req chama_rel
server_cent_1 k s c =
    if c.rq_proc == 0
    then volta s (vazio ∷ [])
    else (if c.rq_proc == 1
        then chama_req k s c
        else (if c.rq_proc == 2 then chama_rel s c else volta s (noproc ∷ [])))
