-- ===== src/Rpc/Despacho/Seguro.antt =====
-- What a call of the token server answers.
use unifesp_sd.Base.{ℕ, suc, ◌≡◌, refl, arith, length, ◌==◌, Bool-cases, Option-cases, inl, inr}
use unifesp_sd.Rpc.Mensagem.{RequestIn, ReplyOut}
use unifesp_sd.Rpc.Servidor.{Servidor, Chamada, rel_1_svc}
use unifesp_sd.Rpc.Servidor.Invariante.{
  IsServidor, Atendida, atendida, esperando, req_1_svc-Atendida,
}
use unifesp_sd.Rpc.Servidor.Devolucao.{retira-Retirada}
use unifesp_sd.Rpc.Despacho.{
  Pedido, Efeito, Fim, volta, encerra, dentro, indefinido, responde, responde_req, chama_req,
  chama_rel, server_cent_1,
}

-- No undefined behaviour, a well-formed queue, and exactly one answer once the call is left.
abbrev pub Segura : Fim → Type 0
Segura (volta s es) = IsServidor s.fila × (length es ≡ 1)
Segura (encerra s es) = IsServidor s.fila × (length es ≡ 1)
Segura (dentro s) = IsServidor s.fila
Segura indefinido = ⊥

responde-Segura :
    (c : Pedido) (s : Servidor) (e : Efeito) → IsServidor s.fila → Segura (responde c s e)
unfolding responde
responde-Segura c s e v = elim (Bool-cases c.free_ok) [
  | inl f ↦ rw (f, responde) (v, ground arith)
  | inr f ↦ rw (f, responde) (v, ground arith)
]

responde_req-Segura :
    (c : Pedido) (s : Servidor) (req : RequestIn) (r : Chamada ReplyOut)
    → Atendida s req r
    → Segura (responde_req c r)
unfolding responde_req
responde_req-Segura c s req _ (atendida x xs e mine d w) = responde-Segura c _ _ d
responde_req-Segura c s req _ (esperando x xs e other d w) = d

chama_req-Segura :
    (k : ℕ) (s : Servidor) (c : Pedido) → IsServidor s.fila → Segura (chama_req (suc k) s c)
unfolding chama_req
chama_req-Segura k s c v = elim (Option-cases c.req_1_arg) [
  | inl e ↦ rw (e, chama_req) (v, refl)
  | inr (req, e) ↦ rw (e, chama_req) (responde_req-Segura c s req _ (req_1_svc-Atendida k s req v))
]

chama_rel-Segura : (s : Servidor) (c : Pedido) → IsServidor s.fila → Segura (chama_rel s c)
unfolding chama_rel rel_1_svc
chama_rel-Segura s c v = elim (Option-cases c.rel_1_arg) [
  | inl e ↦ rw (e, chama_rel) (v, refl)
  | inr (rel, e) ↦ rw (e, chama_rel) (responde-Segura c _ _ (retira-Retirada s.fila v).valida)
]

-- A call of any procedure number, with any arguments, to a server with a well-formed queue has no
-- undefined behaviour and leaves a well-formed queue; the caller gets exactly one answer, unless the
-- call is still in the loop of `req_1_svc`.
pub server_cent_1-Segura :
    (k : ℕ) (s : Servidor) (c : Pedido) → IsServidor s.fila → Segura (server_cent_1 (suc k) s c)
unfolding server_cent_1
server_cent_1-Segura k s c v = elim (Bool-cases (c.rq_proc == 0)) [
  | inl e ↦ rw e (v, refl)
  | inr e ↦ rw e (elim (Bool-cases (c.rq_proc == 1)) [
    | inl f ↦ rw f (chama_req-Segura k s c v)
    | inr f ↦ rw f (elim (Bool-cases (c.rq_proc == 2)) [
      | inl g ↦ rw g (chama_rel-Segura s c v)
      | inr g ↦ rw g (v, refl)
    ])
  ])
]
