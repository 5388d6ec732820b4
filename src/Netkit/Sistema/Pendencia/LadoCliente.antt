-- ===== src/Netkit/Sistema/Pendencia/LadoCliente.antt =====
-- What a round of a client does to what it waits for.
use unifesp_sd.Base.{
  ℕ, ◌+◌, ◌≤◌, ◌≡◌, refl, ap, subst, ◌∙◌, sym, inl, inr, true, false, List, arith, All, Bool-cases,
  if◌then◌else◌,
}
use unifesp_sd.Base.Int.{ℤ, pos, ◌==ℤ◌, ==ℤ_iff}
use unifesp_sd.Netkit.Mensagem.{
  reply_allow, ack, Datagrama, recebe, recebe-cod, recebe-inteira, Passo, segue,
}
use unifesp_sd.Netkit.Cliente.{
  Cliente, Fase, pedindo, esperando, pede, trata_ack, trata_reply, espera,
}
use unifesp_sd.Netkit.Cliente
use unifesp_sd.Netkit.Sistema.{soma, peso_resposta, ao_pedir, ao_receber}
use unifesp_sd.Netkit.Sistema.LadoCliente.{IsCliente}
use unifesp_sd.Netkit.Sistema.Pendencia.{peso_pedido, peso_fase}

-- The round goes on with the same PID, which the messages sent carry; with `r` replies received, it
-- waits for one more for each request.
pub data Comporta (p : ℤ) (antes : Fase) (r : ℕ) : Passo Cliente Datagrama → Type 0 where
  comporta :
      {c' : Cliente} {ms : List Datagrama}
      → c'.pid ≡ p
      → All (λ d. d.corpo.pid ≡ p) ms
      → peso_fase c'.fase + r ≡ peso_fase antes + soma peso_pedido ms
      → Comporta p antes r (segue c' ms)

-- A datagram that may come to a client with PID `p`: an ACK carries that PID.
abbrev pub IsRecibo : ℤ → Datagrama → Type 0
IsRecibo p d = (5 ≤ d.tamanho) × (d.corpo.cod ≡ ack → (16 ≤ d.tamanho) × (d.corpo.pid ≡ p))

pub pede-Comporta :
    (c : Cliente) → c.fase ≡ pedindo → Comporta c.pid c.fase 0 (Cliente.itera c ao_pedir)
unfolding Cliente.itera pede
pede-Comporta c p = rw p (comporta refl (refl, tt) refl)

trata_reply-Comporta :
    (c : Cliente) → IsCliente c → c.fase ≡ esperando → Comporta c.pid c.fase 1 (trata_reply c true)
unfolding trata_reply
trata_reply-Comporta c h p =
    let alive : (c.pid ==ℤ pos 0) ≡ false =
      let v = h.vivo in ground (arith, ==ℤ_iff c.pid (pos 0)) in
    rw (alive, p) (comporta refl (refl, tt) refl)

trata_ack-Comporta : (c : Cliente) → c.resp.pid ≡ c.pid → Comporta c.pid c.fase 0 (trata_ack c)
unfolding trata_ack
trata_ack-Comporta c e =
    let mine : (c.resp.pid ==ℤ c.pid) ≡ true = (==ℤ_iff c.resp.pid c.pid).1 e in
    rw mine (comporta refl tt refl)

despacha-Comporta :
    (c : Cliente)
    → IsCliente c
    → c.fase ≡ esperando
    → (c.resp.cod ≡ ack → c.resp.pid ≡ c.pid)
    → Comporta c.pid c.fase (if c.resp.cod ==ℤ reply_allow then 1 else 0) (Cliente.despacha c true)
unfolding Cliente.despacha
despacha-Comporta c h p own = elim (Bool-cases (c.resp.cod ==ℤ ack)) [
  | inl a ↦
      let other : (c.resp.cod ==ℤ reply_allow) ≡ false = ground (arith, ==ℤ_iff c.resp.cod ack) in
      rw (a, other) (trata_ack-Comporta c (own ((==ℤ_iff c.resp.cod ack).0 a)))
  | inr n ↦ rw n (elim (Bool-cases (c.resp.cod ==ℤ reply_allow)) [
    | inl r ↦ rw r (trata_reply-Comporta c h p)
    | inr o ↦ rw o (comporta refl tt refl)
  ])
]

pub recebe-Comporta :
    (c : Cliente) (d : Datagrama)
    → IsCliente c
    → c.fase ≡ esperando
    → IsRecibo c.pid d
    → Comporta c.pid c.fase (peso_resposta d) (Cliente.itera c (ao_receber d))
unfolding Cliente.itera espera
recebe-Comporta c d h p (t, own) =
    let c' = record c { resp = recebe d c.resp } in
    let run : Cliente.itera c (ao_receber d) ≡ Cliente.despacha c' true = ground arith in
    let cod = recebe-cod d c.resp t in
    rw run (
      subst
        (λ z. Comporta c.pid c.fase (if z ==ℤ reply_allow then 1 else 0) (Cliente.despacha c' true))
        cod
        (despacha-Comporta c' (record { pid = h.pid; vivo = h.vivo }) p
          λ e.
            let (whole, mine) = own (sym cod ∙ e) in
            ap (λ r. r.pid) (recebe-inteira d c.resp whole) ∙ mine))
