-- ===== src/Netkit/Sistema/Somas/LadoCliente.antt =====
-- What a round of a client does to its clock.
use unifesp_sd.Base.{ℕ, ◌+◌, ◌-◌, ◌^◌, ◌≤◌, ◌≡◌, inl, inr, true, List, arith, All, Bool-cases}
use unifesp_sd.Base.Int.{ℤ, pos, negsuc, ◌+ℤ◌, ◌==ℤ◌, ltb_ℤ, i8, i32, trunca, resto, IsCurto}
use unifesp_sd.Netkit.Mensagem.{Datagrama, reply_allow, ack, int_max, Passo}
use unifesp_sd.Netkit.Mensagem
use unifesp_sd.Netkit.Cliente.{Cliente, pedindo, esperando, pede, trata_ack, trata_reply, espera}
use unifesp_sd.Netkit.Cliente
use unifesp_sd.Netkit.Sistema.{ao_pedir, ao_receber}
use unifesp_sd.Netkit.Sistema.Tipos.{Deixa}
use unifesp_sd.Netkit.Sistema.Somas.{Ate}

-- The clock is `b` at most after the round, and those of the messages have a successor.
abbrev pub Anota : ℕ → Cliente → List Datagrama → Type 0
Anota b c ms = Ate b c.tempo × All (λ m. IsCurto m.corpo.tempo) ms

pub resto-IsCurto : (z : ℤ) → IsCurto (resto z int_max)
unfolding resto
resto-IsCurto (pos n) = ground arith
resto-IsCurto (negsuc n) = ground arith

Ate-mais : (b : ℕ) (z : ℤ) → Ate b z → b + 1 ≤ 2 ^ 31 - 1 → Ate (b + 1) (i32 (z +ℤ pos 1))
unfolding trunca ◌+ℤ◌
Ate-mais b (pos n) h fits = ground arith
Ate-mais b (negsuc n) h fits = let k = h.abaixo in absurd (omega arith)

Ate-resto : (b : ℕ) (z : ℤ) → Ate b z → Ate b (resto z int_max)
unfolding resto
Ate-resto b (pos n) h = ground arith
Ate-resto b (negsuc n) h = let k = h.abaixo in absurd (omega arith)

pub Ate-le : (b : ℕ) (z : ℤ) → Ate b z → Ate (b + 2) z
Ate-le b z h = record { acima = omega (arith, h.acima); abaixo = h.abaixo }

pub Ate-IsCurto : (b : ℕ) (z : ℤ) → Ate b z → b + 1 ≤ 2 ^ 31 - 1 → IsCurto z
Ate-IsCurto b z h fits = record { acima = omega (arith, h.acima); abaixo = omega (arith, h.abaixo) }

pub pede-Anota :
    (b : ℕ) (c : Cliente)
    → Ate b c.tempo
    → b + 2 ≤ 2 ^ 31 - 1
    → c.fase ≡ pedindo
    → Deixa (Anota (b + 2)) (Cliente.itera c ao_pedir)
unfolding Cliente.itera pede
pede-Anota b c h fits p =
    let t = Ate-mais b c.tempo h (omega arith) in
    rw p (
      record { acima = omega (arith, t.acima); abaixo = t.abaixo },
      (resto-IsCurto (i32 (c.tempo +ℤ pos 1)), tt),
    )

trata_ack-Anota : (b : ℕ) (c : Cliente) → Ate b c.tempo → Deixa (Anota b) (trata_ack c)
unfolding trata_ack
trata_ack-Anota b c h = elim (Bool-cases (c.resp.pid ==ℤ c.pid)) [
  | inl mine ↦ rw mine (h, tt)
  | inr other ↦ rw other (elim (Bool-cases (ltb_ℤ (pos 3) (i8 (c.aguardar +ℤ pos 1)))) [
    | inl tired ↦ rw tired (h, tt)
    | inr calm ↦ rw calm (h, tt)
  ])
]

trata_reply-Anota :
    (b : ℕ) (c : Cliente)
    → Ate b c.tempo
    → b + 2 ≤ 2 ^ 31 - 1
    → Deixa (Anota (b + 2)) (trata_reply c true)
unfolding trata_reply
trata_reply-Anota b c h fits =
    let received = resto (i32 (c.tempo +ℤ pos 1)) int_max in
    let t = Ate-resto (b + 1) _ (Ate-mais b c.tempo h (omega arith)) in
    let u = Ate-mais (b + 1) received t (omega arith) in
    elim (Bool-cases (c.pid ==ℤ pos 0)) [
      | inl zero_pid ↦ rw zero_pid tt
      | inr alive ↦ rw alive (
        record { acima = omega (arith, u.acima); abaixo = u.abaixo },
        (resto-IsCurto (i32 (received +ℤ pos 1)), tt),
      )
    ]

despacha-Anota :
    (b : ℕ) (c : Cliente)
    → Ate b c.tempo
    → b + 2 ≤ 2 ^ 31 - 1
    → Deixa (Anota (b + 2)) (Cliente.despacha c true)
unfolding Cliente.despacha
despacha-Anota b c h fits = elim (Bool-cases (c.resp.cod ==ℤ ack)) [
  | inl a ↦ rw a (trata_ack-Anota (b + 2) c (Ate-le b c.tempo h))
  | inr n ↦ rw n (elim (Bool-cases (c.resp.cod ==ℤ reply_allow)) [
    | inl r ↦ rw r (trata_reply-Anota b c h fits)
    | inr o ↦ rw o (Ate-le b c.tempo h, tt)
  ])
]

pub recebe-Anota :
    (b : ℕ) (c : Cliente) (d : Datagrama)
    → Ate b c.tempo
    → b + 2 ≤ 2 ^ 31 - 1
    → c.fase ≡ esperando
    → Deixa (Anota (b + 2)) (Cliente.itera c (ao_receber d))
unfolding Cliente.itera espera
recebe-Anota b c d h fits p =
    let c' = record c { resp = Mensagem.recebe d c.resp } in
    let run : Cliente.itera c (ao_receber d) ≡ Cliente.despacha c' true = ground arith in
    rw run (despacha-Anota b c' h fits)
