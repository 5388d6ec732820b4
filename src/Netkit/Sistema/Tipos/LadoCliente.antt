-- ===== src/Netkit/Sistema/Tipos/LadoCliente.antt =====
-- A round of a client keeps to the types.
use unifesp_sd.Base.{
  ◌≡◌, inl, inr, Bool, true, false, List, arith, All, Bool-cases, leb, if◌then◌else◌,
}
use unifesp_sd.Base.Int.{ℤ, pos, ◌+ℤ◌, ◌==ℤ◌, ltb_ℤ, i8, i32, resto, IsInt, i32-IsInt}
use unifesp_sd.Netkit.Mensagem.{Request, Datagrama, recebe, reply_allow, ack, int_max, Passo}
use unifesp_sd.Netkit.Cliente.{Cliente, pedindo, esperando, pede, trata_ack, trata_reply, espera}
use unifesp_sd.Netkit.Cliente
use unifesp_sd.Netkit.Sistema.{ao_pedir, ao_receber}
use unifesp_sd.Netkit.Sistema.LadoCliente.{resto-IsInt}
use unifesp_sd.Netkit.Sistema.Tipos.{IsChar, i8-IsChar, zero-IsChar, IsRequest, TiposCliente, Deixa}

if-IsInt : (b : Bool) (x y : ℤ) → IsInt x → IsInt y → IsInt (if b then x else y)
if-IsInt true x y h k = h
if-IsInt false x y h k = k

if-IsChar : (b : Bool) (x y : ℤ) → IsChar x → IsChar y → IsChar (if b then x else y)
if-IsChar true x y h k = h
if-IsChar false x y h k = k

-- A message received over another.
pub recebe-IsRequest :
    (d : Datagrama) (r : Request) → IsRequest d.corpo → IsRequest r → IsRequest (recebe d r)
unfolding recebe
recebe-IsRequest d r h k = record {
  rec = if-IsInt (leb 4 d.tamanho) _ _ h.rec k.rec;
  cod = if-IsChar (leb 5 d.tamanho) _ _ h.cod k.cod;
  tempo = if-IsInt (leb 12 d.tamanho) _ _ h.tempo k.tempo;
  pid = if-IsInt (leb 16 d.tamanho) _ _ h.pid k.pid;
}

-- The variables and the messages sent.
abbrev pub TiposRodada : Cliente → List Datagrama → Type 0
TiposRodada c ms = TiposCliente c × All (λ d. IsRequest d.corpo) ms

abbrev pub RodadaTipada : Passo Cliente Datagrama → Type 0
RodadaTipada = Deixa TiposRodada

pub pede-RodadaTipada :
    (c : Cliente) → TiposCliente c → c.fase ≡ pedindo → RodadaTipada (Cliente.itera c ao_pedir)
unfolding Cliente.itera pede
pede-RodadaTipada c h p =
    let req : IsRequest _ = record {
      rec = record { acima = omega arith; abaixo = omega arith };
      cod = record { acima = omega arith; abaixo = omega arith };
      tempo = resto-IsInt (i32 (c.tempo +ℤ pos 1));
      pid = h.pid;
    } in
    rw p (
      record {
        pid = h.pid;
        tempo = i32-IsInt (c.tempo +ℤ pos 1);
        aguardar = h.aguardar;
        req = req;
        resp = h.resp;
      },
      (req, tt),
    )

trata_ack-RodadaTipada : (c : Cliente) → TiposCliente c → RodadaTipada (trata_ack c)
unfolding trata_ack
trata_ack-RodadaTipada c h =
    let more = i8-IsChar (c.aguardar +ℤ pos 1) in
    let kept : TiposCliente (record c { aguardar = i8 (c.aguardar +ℤ pos 1) }) = record {
      pid = h.pid;
      tempo = h.tempo;
      aguardar = more;
      req = h.req;
      resp = h.resp;
    } in
    elim (Bool-cases (c.resp.pid ==ℤ c.pid)) [
      | inl mine ↦ rw mine (h, tt)
      | inr other ↦ rw other (elim (Bool-cases (ltb_ℤ (pos 3) (i8 (c.aguardar +ℤ pos 1)))) [
        | inl tired ↦ rw tired (
          record { pid = h.pid; tempo = h.tempo; aguardar = more; req = h.req; resp = h.resp },
          tt,
        )
        | inr calm ↦ rw calm (kept, tt)
      ])
    ]

trata_reply-RodadaTipada : (c : Cliente) → TiposCliente c → RodadaTipada (trata_reply c true)
unfolding trata_reply
trata_reply-RodadaTipada c h =
    let req : IsRequest _ = record {
      rec = i32-IsInt (c.resp.rec +ℤ pos 1);
      cod = record { acima = omega arith; abaixo = omega arith };
      tempo = resto-IsInt (i32 (resto (i32 (c.tempo +ℤ pos 1)) int_max +ℤ pos 1));
      pid = h.pid;
    } in
    elim (Bool-cases (c.pid ==ℤ pos 0)) [
      | inl zero_pid ↦ rw zero_pid tt
      | inr alive ↦ rw alive (
        record {
          pid = h.pid;
          tempo = i32-IsInt (resto (i32 (c.tempo +ℤ pos 1)) int_max +ℤ pos 1);
          aguardar = zero-IsChar;
          req = req;
          resp = record {
            rec = i32-IsInt (c.resp.rec +ℤ pos 1);
            cod = h.resp.cod;
            tempo = h.resp.tempo;
            pid = h.resp.pid;
          };
        },
        (req, tt),
      )
    ]

despacha-RodadaTipada : (c : Cliente) → TiposCliente c → RodadaTipada (Cliente.despacha c true)
unfolding Cliente.despacha
despacha-RodadaTipada c h = elim (Bool-cases (c.resp.cod ==ℤ ack)) [
  | inl a ↦ rw a (trata_ack-RodadaTipada c h)
  | inr n ↦ rw n (elim (Bool-cases (c.resp.cod ==ℤ reply_allow)) [
    | inl r ↦ rw r (trata_reply-RodadaTipada c h)
    | inr o ↦ rw o (h, tt)
  ])
]

pub recebe-RodadaTipada :
    (c : Cliente) (d : Datagrama)
    → TiposCliente c
    → IsRequest d.corpo
    → c.fase ≡ esperando
    → RodadaTipada (Cliente.itera c (ao_receber d))
unfolding Cliente.itera espera
recebe-RodadaTipada c d h k p =
    let c' = record c { resp = recebe d c.resp } in
    let run : Cliente.itera c (ao_receber d) ≡ Cliente.despacha c' true = ground arith in
    rw run (
      despacha-RodadaTipada c' (record {
        pid = h.pid;
        tempo = h.tempo;
        aguardar = h.aguardar;
        req = h.req;
        resp = recebe-IsRequest d c.resp k h.resp;
      }))
