-- ===== src/Netkit/Sistema/LadoCliente.antt =====
-- What one round of a client does to the datagrams and to the tokens.
use unifesp_sd.Base.{
  ℕ, ◌≤◌, ◌≡◌, ◌≢◌, refl, subst, inl, inr, true, false, List, arith, All, Bool-cases, if◌then◌else◌,
}
use unifesp_sd.Base.Int.{ℤ, pos, negsuc, ◌+ℤ◌, ◌==ℤ◌, ==ℤ_iff, IsInt, resto, ltb_ℤ, i8}
use unifesp_sd.Netkit.Mensagem.{
  reply_allow, ack, int_max, Datagrama, recebe, recebe-cod, Passo, segue,
}
use unifesp_sd.Netkit.Servidor.Invariante.{IsPid, IsInteira}
use unifesp_sd.Netkit.Cliente.{
  Cliente, pedindo, esperando, inteira, pede, trata_ack, trata_reply, espera,
}
use unifesp_sd.Netkit.Cliente
use unifesp_sd.Netkit.Sistema.{soma, peso_devolucao, peso_resposta, ao_pedir, ao_receber}

-- A PID that the server's `char` can hold, and that the client can divide by.
pub record IsCliente (c : Cliente) : Type 0 where
  pub pid : IsPid c.pid
  pub vivo : c.pid ≢ pos 0

-- The round goes on with PID `p`, and sends whole messages, `n` of them releases.
pub data Rodada (p : ℤ) (n : ℕ) : Passo Cliente Datagrama → Type 0 where
  rodada :
      {c' : Cliente} {ms : List Datagrama}
      → c'.pid ≡ p
      → All (λ d. IsInteira d) ms
      → soma peso_devolucao ms ≡ n
      → Rodada p n (segue c' ms)

pub resto-IsInt : (z : ℤ) → IsInt (resto z int_max)
unfolding resto
resto-IsInt (pos n) = ground arith
resto-IsInt (negsuc n) = ground arith

inteira-IsInteira :
    (rec cod z p : ℤ)
    → IsPid p
    → IsInteira (inteira (record { rec = rec; cod = cod; tempo = resto z int_max; pid = p }))
inteira-IsInteira rec cod z p h = record { tamanho = omega arith; tempo = resto-IsInt z; pid = h }

pub pede-Rodada :
    (c : Cliente) → IsCliente c → c.fase ≡ pedindo → Rodada c.pid 0 (Cliente.itera c ao_pedir)
unfolding Cliente.itera pede
pede-Rodada c h p = rw p (rodada refl (inteira-IsInteira _ _ _ c.pid h.pid, tt) refl)

trata_reply-Rodada : (c : Cliente) → IsCliente c → Rodada c.pid 1 (trata_reply c true)
unfolding trata_reply
trata_reply-Rodada c h =
    let alive : (c.pid ==ℤ pos 0) ≡ false =
      let v = h.vivo in ground (arith, ==ℤ_iff c.pid (pos 0)) in
    rw alive (rodada refl (inteira-IsInteira _ _ _ c.pid h.pid, tt) refl)

trata_ack-Rodada : (c : Cliente) → Rodada c.pid 0 (trata_ack c)
unfolding trata_ack
trata_ack-Rodada c = elim (Bool-cases (c.resp.pid ==ℤ c.pid)) [
  | inl mine ↦ rw mine (rodada refl tt refl)
  | inr other ↦ rw other (elim (Bool-cases (ltb_ℤ (pos 3) (i8 (c.aguardar +ℤ pos 1)))) [
    | inl tired ↦ rw tired (rodada refl tt refl)
    | inr calm ↦ rw calm (rodada refl tt refl)
  ])
]

despacha-Rodada :
    (c : Cliente)
    → IsCliente c
    → Rodada c.pid (if c.resp.cod ==ℤ reply_allow then 1 else 0) (Cliente.despacha c true)
unfolding Cliente.despacha
despacha-Rodada c h = elim (Bool-cases (c.resp.cod ==ℤ ack)) [
  | inl a ↦
      let other : (c.resp.cod ==ℤ reply_allow) ≡ false = ground (arith, ==ℤ_iff c.resp.cod ack) in
      rw (a, other) (trata_ack-Rodada c)
  | inr n ↦ rw n (elim (Bool-cases (c.resp.cod ==ℤ reply_allow)) [
    | inl r ↦ rw r (trata_reply-Rodada c h)
    | inr o ↦ rw o (rodada refl tt refl)
  ])
]

pub recebe-Rodada :
    (c : Cliente) (d : Datagrama)
    → IsCliente c
    → c.fase ≡ esperando
    → 5 ≤ d.tamanho
    → Rodada c.pid (peso_resposta d) (Cliente.itera c (ao_receber d))
unfolding Cliente.itera espera
recebe-Rodada c d h p t =
    let c' = record c { resp = recebe d c.resp } in
    let run : Cliente.itera c (ao_receber d) ≡ Cliente.despacha c' true = ground arith in
    rw run (
      subst (λ z. Rodada c.pid (if z ==ℤ reply_allow then 1 else 0) (Cliente.despacha c' true))
        (recebe-cod d c.resp t) (despacha-Rodada c' (record { pid = h.pid; vivo = h.vivo })))
