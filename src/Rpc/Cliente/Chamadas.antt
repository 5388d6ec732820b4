-- ===== src/Rpc/Cliente/Chamadas.antt =====
-- The calls of a client, round by round.
use unifesp_sd.Base.{◌≡◌, refl, Bool, true, false, Option, none, some, List, [], ◌∷◌}
use unifesp_sd.Base.Int.{ℤ}
use unifesp_sd.Rpc.Mensagem.{RequestIn, Release, ReplyOut}
use unifesp_sd.Rpc.Cliente.{Cliente, pede, novo_recurso, usa, Envio, envia_req, envia_rel, executa}

-- The replies that a client gets: up to the first call that fails.
abbrev pub recebidas : List (Option ReplyOut × Bool) → List ReplyOut
recebidas [] = []
recebidas ((none, _) ∷ rs) = []
recebidas ((some rep, true) ∷ rs) = rep ∷ recebidas rs
recebidas ((some rep, false) ∷ rs) = rep ∷ []

-- The calls of a client with PID `pid` that gets those replies.
pub data Rodadas (pid : ℤ) : List ReplyOut → List Envio → Type 0 where
  parada : Rodadas pid [] []
  sem_resposta : (req : RequestIn) → req.pid_c ≡ pid → Rodadas pid [] (envia_req req ∷ [])
  rodada :
      {reps : List ReplyOut} {es : List Envio} (rep : ReplyOut) (req : RequestIn) (rel : Release)
      → req.pid_c ≡ pid
      → rel.pid_c ≡ pid
      → rel.recurso_n ≡ novo_recurso rep.recurso
      → Rodadas pid reps es
      → Rodadas pid (rep ∷ reps) (envia_req req ∷ envia_rel rel ∷ es)

-- Whatever the server answers, the client calls `req_1` and `rel_1` in turn, with its own PID. It
-- returns the token after each reply, with the value doubled (2 for a negative one), and it makes no
-- call after one that failed.
pub executa-Rodadas :
    (c : Cliente) (rs : List (Option ReplyOut × Bool))
    → Rodadas c.pid (recebidas rs) (executa c rs).0
unfolding executa pede usa
executa-Rodadas c [] = parada
executa-Rodadas c ((none, _) ∷ rs) = sem_resposta _ refl
executa-Rodadas c ((some rep, true) ∷ rs) =
    rodada rep _ _ refl refl refl (executa-Rodadas (usa (pede c).0 rep).0 rs)
executa-Rodadas c ((some rep, false) ∷ rs) = rodada rep _ _ refl refl refl parada
