-- ===== src/Rpc/Cliente.antt =====
-- LAB07-SD/backup/cliente-2.c: the loop of `main`. A round asks for the token, uses it and gives it
-- back; the environment answers the two calls, with NULL (`none`, false) for a call that failed.
pub mod Chamadas
use unifesp_sd.Base.{Bool, ◌++◌, Option, none, some, List, [], ◌∷◌, ◌==◌, ℕ, if◌then◌else◌}
use unifesp_sd.Base.Int.{ℤ, pos, negsuc, ◌+ℤ◌, ltb_ℤ, i32, i64}
use unifesp_sd.Rpc.Mensagem.{RequestIn, Release, ReplyOut}

pub record Cliente : Type 0 where
  pub pid : ℤ
  pub tempo : ℤ

-- The request at the top of the loop.
unfoldable pub pede : Cliente → Cliente × RequestIn
pede c =
    let tempo = i64 (c.tempo +ℤ pos 1) in
    (record c { tempo = tempo }, record { pid_c = c.pid; tempo_c = tempo })

-- `int recurso = rep_out->recurso; recurso = recurso < 0 ? 2 : (recurso * 2);`
unfoldable pub novo_recurso : ℤ → ℤ
novo_recurso r =
    let recurso = i32 r in if ltb_ℤ recurso (pos 0) then pos 2 else i32 (recurso +ℤ recurso)

-- From the reply to the release.
unfoldable pub usa : Cliente → ReplyOut → Cliente × Release
unfolding novo_recurso
usa c rep =
    let recebido =
      if ltb_ℤ rep.tempo_s c.tempo then i64 (c.tempo +ℤ pos 1) else i64 (rep.tempo_s +ℤ pos 1) in
    let tempo = i64 (recebido +ℤ pos 1) in
    (
      record c { tempo = tempo },
      record { pid_c = c.pid; tempo_c = tempo; recurso_n = novo_recurso rep.recurso },
    )

-- The calls that a client makes.
pub data Envio : Type 0 where
  envia_req : RequestIn → Envio
  envia_rel : Release → Envio

-- How `main` ends, with the code that it returns, or that the answers ran out.
pub data Saida : Type 0 where
  retorna_com : ℤ → Saida
  continua : Cliente → Saida

abbrev pub antes : List Envio → List Envio × Saida → List Envio × Saida
antes es r = (es ++ r.0, r.1)

-- The loop on the answers of `req_1` and `rel_1`, two for each round. A round without an answer to
-- its request takes no second one.
unfoldable pub executa : Cliente → List (Option ReplyOut × Bool) → List Envio × Saida
unfolding pede usa
executa c [] = ([], continua c)
executa c ((none, _) ∷ rs) = (envia_req (pede c).1 ∷ [], retorna_com (negsuc 0))
executa c ((some rep, ok) ∷ rs) =
    let (c', req) = pede c in
    let (c'', rel) = usa c' rep in
    let resto = executa c'' rs in
    let enviados = envia_req req ∷ envia_rel rel ∷ [] in
    if ok then antes enviados resto else (enviados, retorna_com (negsuc 0))

-- `main` with its number of arguments, the outcome of `clnt_create`, and the value of `getpid`.
unfoldable pub main : ℕ → Bool → ℤ → List (Option ReplyOut × Bool) → List Envio × Saida
unfolding executa
main argc criado pid rs =
    if argc == 2
    then (if criado
        then executa (record { pid = pid; tempo = pos 0 }) rs
        else ([], retorna_com (pos 0)))
    else ([], retorna_com (pos 0))
