-- ===== src/Netkit/Sistema/Valor/LadoCliente.antt =====
-- What a client does with the value of the token.
use unifesp_sd.Base.{◌≤◌, ◌≡◌, refl, subst, ◌∙◌, true, false, arith, All, leb}
use unifesp_sd.Base.Int.{ℤ, pos, ◌+ℤ◌, ◌==ℤ◌, ==ℤ_iff, i32}
use unifesp_sd.Netkit.Mensagem.{
  Request, request_token, release_token, reply_allow, ack, Datagrama, recebe-cod, Passo, segue,
}
use unifesp_sd.Netkit.Mensagem
use unifesp_sd.Netkit.Cliente.{Cliente, pedindo, esperando, trata_reply, espera}
use unifesp_sd.Netkit.Cliente
use unifesp_sd.Netkit.Sistema.{ao_receber}
use unifesp_sd.Netkit.Sistema.LadoCliente.{IsCliente}
use unifesp_sd.Netkit.Sistema.Tipos.{Deixa}

-- What a client does with the token.
abbrev pub Leva : ℤ → Passo Cliente Datagrama → Type 0
Leva v = Deixa (λ _ ms. All (λ m. m.corpo.rec ≡ v) ms)

trata_reply-Leva :
    (c : Cliente) → IsCliente c → Leva (i32 (c.resp.rec +ℤ pos 1)) (trata_reply c true)
unfolding trata_reply
trata_reply-Leva c h =
    let alive : (c.pid ==ℤ pos 0) ≡ false =
      let v = h.vivo in ground (arith, ==ℤ_iff c.pid (pos 0)) in
    rw alive (refl, tt)

despacha-Leva :
    (c : Cliente)
    → IsCliente c
    → c.resp.cod ≡ reply_allow
    → Leva (i32 (c.resp.rec +ℤ pos 1)) (Cliente.despacha c true)
unfolding Cliente.despacha
despacha-Leva c h e =
    let yes : (c.resp.cod ==ℤ reply_allow) ≡ true = (==ℤ_iff c.resp.cod reply_allow).1 e in
    let other : (c.resp.cod ==ℤ ack) ≡ false = ground (arith, ==ℤ_iff c.resp.cod ack) in
    rw (other, yes) (trata_reply-Leva c h)

pub recebe-rec :
    (d : Datagrama) (r : Request) → 5 ≤ d.tamanho → (Mensagem.recebe d r).rec ≡ d.corpo.rec
unfolding Mensagem.recebe
recebe-rec d r h = let long : leb 4 d.tamanho ≡ true = ground arith in rw long refl

pub recebe-Leva :
    (c : Cliente) (d : Datagrama)
    → IsCliente c
    → c.fase ≡ esperando
    → 5 ≤ d.tamanho
    → d.corpo.cod ≡ reply_allow
    → Leva (i32 (d.corpo.rec +ℤ pos 1)) (Cliente.itera c (ao_receber d))
unfolding Cliente.itera espera
recebe-Leva c d h p t q =
    let c' = record c { resp = Mensagem.recebe d c.resp } in
    let run : Cliente.itera c (ao_receber d) ≡ Cliente.despacha c' true = ground arith in
    rw run (
      subst (λ z. Leva (i32 (z +ℤ pos 1)) (Cliente.despacha c' true)) (recebe-rec d c.resp t)
        (despacha-Leva c' (record { pid = h.pid; vivo = h.vivo }) (recebe-cod d c.resp t ∙ q)))
