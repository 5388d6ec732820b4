-- ===== src/Netkit/Sistema/Pendencia/LadoServidor.antt =====
-- What a round of the server does to what the clients wait for.
use unifesp_sd.Base.{
  ℕ, ◌+◌, ◌≤◌, ◌≡◌, ◌⊎◌, refl, ap, subst, ◌∙◌, sym, inl, inr, true, Option, List, [], ◌∷◌, map,
  arith, length, All, Bool-cases, ◌==◌, if◌then◌else◌,
}
use unifesp_sd.Base.Int.{ℤ, ◌==ℤ◌}
use unifesp_sd.Fila.{procura}
use unifesp_sd.Fila.Ordem.{Encaixe, Encaixe-All}
use unifesp_sd.Netkit.Mensagem.{
  request_token, release_token, reply_allow, Request, Datagrama, Passo, segue, enviadas,
  recebe-inteira,
}
use unifesp_sd.Netkit.Servidor.{Servidor, Sitem, sitem_chave, Envio}
use unifesp_sd.Netkit.Servidor
use unifesp_sd.Netkit.Servidor.Invariante.{IsInteira, IsServidor}
use unifesp_sd.Netkit.Coordenador.{
  Coordenador, Evento, pedido, devolucao, outro, Concessao, Passa, concede, aguarda, recusa,
  repassa, guarda, ignora,
}
use unifesp_sd.Netkit.Coordenador.Refina.{
  Refina, refina, entrega, itera-Refina, evento, concedidas, lista,
}
use unifesp_sd.Netkit.Sistema.{soma, soma-sem, de_servidor}
use unifesp_sd.Netkit.Sistema.Enviadas.{itera-Enviadas}
use unifesp_sd.Netkit.Sistema.Pendencia.{peso_pedido, pedido_de, lugar_de, resposta_a}
use unifesp_sd.Netkit.Sistema.Pendencia.LadoCliente.{IsRecibo}

-- What an event and a grant are to client `i`.
abbrev pedido_em : ℕ → Evento ℕ → ℕ
pedido_em i (pedido x) = lugar_de i x
pedido_em i (devolucao v) = 0
pedido_em i outro = 0

abbrev pub concessao_a : ℕ → Concessao ℕ → ℕ
concessao_a i c = if i == c.para then 1 else 0

-- The queue is full, or holds the PID `p`.
abbrev pub Recusa : ℤ → List (Sitem ℕ) → Type 0
Recusa p espera = (10 ≤ length espera) ⊎ (procura p espera ≡ true)

-- What a step does to the queue and the grants: nothing that a client waits for is lost or made up; or
-- a request is refused.
data Balanco (xs ys : List (Sitem ℕ)) (ev : Evento ℕ) (gs : List (Concessao ℕ)) : Type 0 where
  justo :
      ((i : ℕ)
        → soma (lugar_de i) xs + pedido_em i ev ≡ soma (lugar_de i) ys + soma (concessao_a i) gs)
      → Balanco xs ys ev gs
  recusado :
      (x : Sitem ℕ) → ev ≡ pedido x → Recusa x.pid xs → ys ≡ xs → gs ≡ [] → Balanco xs ys ev gs

lugar_de-Encaixe :
    (i : ℕ) (x : Sitem ℕ) (xs ys : List (Sitem ℕ))
    → Encaixe x xs ys
    → soma (lugar_de i) ys ≡ soma (lugar_de i) xs + lugar_de i x
lugar_de-Encaixe i x xs ys e =
    let split = soma-sem (lugar_de i) e.pre x e.post in
    let old = ap (soma (lugar_de i)) e.partes in
    let new = ap (soma (lugar_de i)) e.juntas in omega arith

Passa-Balanco :
    {a b : Coordenador ℕ} {ev : Evento ℕ} {g : Option (Concessao ℕ)}
    → Passa a b ev g
    → Balanco a.espera b.espera ev (lista g)
Passa-Balanco (concede x l e) =
    justo λ i. let same = ap (λ c. soma (lugar_de i) c.espera) e in omega arith
Passa-Balanco {a} {b} (aguarda x l k p z e) =
    justo λ i. let more = lugar_de-Encaixe i x a.espera b.espera z in omega arith
Passa-Balanco (recusa x l k e) = recusado x refl k (ap (λ c. c.espera) e) refl
Passa-Balanco (repassa v y l e) = justo λ i. let less = ap (soma (lugar_de i)) l in omega arith
Passa-Balanco (guarda v l e) = justo λ i.
    let before = ap (soma (lugar_de i)) l in
    let after = ap (λ c. soma (lugar_de i) c.espera) e in omega arith
Passa-Balanco (ignora e) =
    justo λ i. let same = ap (λ c. soma (lugar_de i) c.espera) e in omega arith

-- The entries of the queue after a step.
Passa-All :
    {a b : Coordenador ℕ} {ev : Evento ℕ} {g : Option (Concessao ℕ)} (P : Sitem ℕ → Type 0)
    → Passa a b ev g
    → All P a.espera
    → ((x : Sitem ℕ) → ev ≡ pedido x → P x)
    → All P b.espera
Passa-All P (concede x l e) h f = subst (λ c. All P c.espera) (sym e) h
Passa-All P (aguarda x l k p z e) h f = Encaixe-All P z (f x refl) h
Passa-All P (recusa x l k e) h f = subst (λ c. All P c.espera) (sym e) h
Passa-All P (repassa v y l e) h f = (subst (All P) l h).1
Passa-All P (guarda v l e) h f = subst (λ c. All P c.espera) (sym e) tt
Passa-All P (ignora e) h f = subst (λ c. All P c.espera) (sym e) h

pub soma-resposta_a :
    (i : ℕ) (ms : List (Envio ℕ))
    → soma (resposta_a i) (map de_servidor ms) ≡ soma (concessao_a i) (concedidas ms)
soma-resposta_a i [] = refl
soma-resposta_a i (m ∷ ms) = ground (arith, soma-resposta_a i ms)

evento-pedido :
    (r : Request) (j n : ℕ) (x : Sitem ℕ)
    → evento r j n ≡ pedido x
    → ((r.cod ==ℤ request_token) ≡ true) × (x.pid ≡ r.pid) × (x.caddr ≡ j)
evento-pedido r j n x = elim (Bool-cases (r.cod ==ℤ request_token)) [
  | inl a ↦ λ e. (a, cc, cc)
  | inr b ↦ elim (Bool-cases (r.cod ==ℤ release_token)) [
    | inl c ↦ λ e. absurd (cc)
    | inr c ↦ λ e. absurd (cc)
  ]
]

pedido_em-evento :
    (i : ℕ) (d : Datagrama) (j n : ℕ) → pedido_em i (evento d.corpo j n) ≡ pedido_de i (d, j, n)
pedido_em-evento i d j n = elim (Bool-cases (d.corpo.cod ==ℤ request_token)) [
  | inl a ↦ rw a refl
  | inr b ↦ elim (Bool-cases (d.corpo.cod ==ℤ release_token)) [
    | inl c ↦ rw (b, c) (ground arith)
    | inr c ↦ rw (b, c) (ground arith)
  ]
]

-- The queue holds the PIDs of the clients that its entries name.
abbrev pub Identifica : (ℕ → ℤ) → List (Sitem ℕ) → Type 0
Identifica pid xs = All (λ x. x.pid ≡ pid x.caddr) xs

abbrev pub Recibos : (ℕ → ℤ) → List (ℕ × Datagrama) → Type 0
Recibos pid rs = All (λ r. IsRecibo (pid r.0) r.1) rs

-- A request of client `j` that is refused.
pub record Recusado (xs : List (Sitem ℕ)) (d : Datagrama) (j : ℕ) (ys : List (Sitem ℕ))
    (rs : List (ℕ × Datagrama)) : Type 0 where
  pub pede : peso_pedido d ≡ 1
  pub motivo : Recusa d.corpo.pid xs
  pub fila : ys ≡ xs
  pub calado : (i : ℕ) → soma (resposta_a i) rs ≡ 0

-- A round on a message from client `j`: it goes on, and each client waits for as much as before,
-- unless the message is a request that is refused.
pub data Atendimento (pid : ℕ → ℤ) (xs : List (Sitem ℕ)) (d : Datagrama) (j n : ℕ)
    : Passo (Servidor ℕ) (Envio ℕ) → Type 0 where
  atendimento :
      {t : Servidor ℕ} {ms : List (Envio ℕ)}
      → Identifica pid t.fila.head
      → Recibos pid (map de_servidor ms)
      → ((i : ℕ)
          → soma (lugar_de i) xs + pedido_de i (d, j, n)
            ≡ soma (lugar_de i) t.fila.head + soma (resposta_a i) (map de_servidor ms))
        ⊎ Recusado xs d j t.fila.head (map de_servidor ms)
      → Atendimento pid xs d j n (segue t ms)

map-Recibos :
    (pid : ℕ → ℤ) (ms : List (Envio ℕ))
    → All (λ e. IsRecibo (pid e.para) e.datagrama) ms
    → Recibos pid (map de_servidor ms)
map-Recibos pid [] h = tt
map-Recibos pid (m ∷ ms) h = (h.0, map-Recibos pid ms h.1)

Balanco-quita :
    (xs ys : List (Sitem ℕ)) (d : Datagrama) (j n : ℕ) (ms : List (Envio ℕ))
    (gs : List (Concessao ℕ))
    → concedidas ms ≡ gs
    → Balanco xs ys (evento d.corpo j n) gs
    → ((i : ℕ)
        → soma (lugar_de i) xs + pedido_de i (d, j, n)
          ≡ soma (lugar_de i) ys + soma (resposta_a i) (map de_servidor ms))
      ⊎ Recusado xs d j ys (map de_servidor ms)
Balanco-quita xs ys d j n ms gs q (justo f) = inl λ i.
    let sent = soma-resposta_a i ms ∙ ap (soma (concessao_a i)) q in
    let asked = pedido_em-evento i d j n in let b = f i in omega arith
Balanco-quita xs ys d j n ms gs q (recusado x e k same nothing) =
    let (a, p, c) = evento-pedido d.corpo j n x e in
    inr (record {
      pede = rw a refl;
      motivo = subst (λ p. Recusa p xs) p k;
      fila = same;
      calado = λ i. soma-resposta_a i ms ∙ ap (soma (concessao_a i)) (q ∙ nothing);
    })

Refina-Atendimento :
    (pid : ℕ → ℤ) (s : Servidor ℕ) (d : Datagrama) (j n : ℕ) (r : Passo (Servidor ℕ) (Envio ℕ))
    → Refina s (evento d.corpo j n) r
    → Identifica pid s.fila.head
    → d.corpo.pid ≡ pid j
    → All (λ e. IsRecibo (pid e.para) e.datagrama) (enviadas r)
    → Atendimento pid s.fila.head d j n r
Refina-Atendimento pid s d j n _ (refina {s' = t} {ms} g p q) ids own sent =
    atendimento
      (Passa-All (λ x. x.pid ≡ pid x.caddr) p ids
        λ x e.
          let (a, same, from) = evento-pedido d.corpo j n x e in same ∙ own ∙ ap pid (sym from))
      (map-Recibos pid ms sent)
      (Balanco-quita s.fila.head t.fila.head d j n ms (lista g) q (Passa-Balanco p))

resposta-IsRecibo :
    (p : ℤ) (corpo : Request)
    → corpo.cod ≡ reply_allow
    → IsRecibo p (record { tamanho = 8; corpo = corpo })
resposta-IsRecibo p corpo e = (omega arith, λ h. let bad = sym e ∙ h in absurd (ground arith))

pub itera-Atendimento :
    (pid : ℕ → ℤ) (s : Servidor ℕ) (d : Datagrama) (j n : ℕ)
    → IsServidor s
    → IsInteira d
    → Identifica pid s.fila.head
    → d.corpo.pid ≡ pid j
    → Atendimento pid s.fila.head d j n (Servidor.itera s (entrega d j n))
itera-Atendimento pid s d j n v h ids own =
    Refina-Atendimento pid s d j n _ (itera-Refina s d j n v h) ids own (
      itera-Enviadas (λ e. IsRecibo (pid e.para) e.datagrama)
        (λ para addrlen corpo e. resposta-IsRecibo (pid para) corpo e) s d j n
        λ rec tempo. (
          omega arith,
          λ e. (omega arith, ap (λ r. r.pid) (recebe-inteira d s.req h.tamanho) ∙ own),
        ))
