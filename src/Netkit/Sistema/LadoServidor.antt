-- ===== src/Netkit/Sistema/LadoServidor.antt =====
-- What one round of the server does to the datagrams and to the tokens.
use unifesp_sd.Base.{
  ℕ, ◌+◌, ◌≤◌, ◌≡◌, refl, ap, inl, inr, false, Option, none, some, List, [], ◌∷◌, map, arith,
  length, All, Bool-cases,
}
use unifesp_sd.Base.Int.{◌==ℤ◌, ==ℤ_iff}
use unifesp_sd.Netkit.Mensagem.{
  request_token, release_token, Datagrama, Passo, segue, enviadas, continua,
}
use unifesp_sd.Netkit.Servidor.{
  Servidor, Sitem, Envio, responde, enfileira, trata_request, atende, trata_release, processa,
  recebida, envio_ack,
}
use unifesp_sd.Netkit.Servidor
use unifesp_sd.Netkit.Servidor.Invariante.{livre, IsInteira, IsServidor, Mantida, itera-Mantida}
use unifesp_sd.Netkit.Coordenador.{
  Coordenador, Evento, pedido, devolucao, outro, Concessao, Passa, concede, aguarda, recusa,
  repassa, guarda, ignora,
}
use unifesp_sd.Netkit.Coordenador.Refina.{
  Refina, refina, entrega, itera-Refina, evento, concedidas, lista,
}
use unifesp_sd.Netkit.Sistema.Enviadas.{itera-Enviadas}
use unifesp_sd.Netkit.Sistema.{soma, peso_livre, peso_devolucao, peso_resposta, de_servidor}

-- The tokens before and after a step of the coordinator, if a release comes only while the token is out.
abbrev pub peso_evento : {C : Type 0} → Evento C → ℕ
peso_evento (pedido x) = 0
peso_evento (devolucao v) = 1
peso_evento outro = 0

abbrev pub peso_lista : {C : Type 0} → Option (Concessao C) → ℕ
peso_lista none = 0
peso_lista (some c) = 1

Passa-balanco :
    {C : Type 0} {a b : Coordenador C} {ev : Evento C} {g : Option (Concessao C)}
    → Passa a b ev g
    → peso_livre a.livre + peso_evento ev ≤ 1
    → peso_livre a.livre + peso_evento ev ≡ peso_livre b.livre + peso_lista g
Passa-balanco (concede x l e) h = ground (arith, ap (λ c. c.livre) e)
Passa-balanco (aguarda x l k p z e) h = ground (arith, ap (λ c. c.livre) e)
Passa-balanco (recusa x l k e) h = ground (arith, ap (λ c. c.livre) e)
Passa-balanco (repassa v y l e) h = ground (arith, ap (λ c. c.livre) e)
Passa-balanco (guarda v l e) h = ground (arith, ap (λ c. c.livre) e)
Passa-balanco (ignora e) h = ground (arith, ap (λ c. c.livre) e)

-- A message is a release, or no token comes with it.
pub peso_evento-evento :
    (d : Datagrama) (i n : ℕ) → peso_evento (evento d.corpo i n) ≡ peso_devolucao d
peso_evento-evento d i n = elim (Bool-cases (d.corpo.cod ==ℤ request_token)) [
  | inl a ↦
      let other : (d.corpo.cod ==ℤ release_token) ≡ false =
        ground (arith, ==ℤ_iff d.corpo.cod request_token) in
      rw (a, other)
  | inr b ↦ rw b (elim (Bool-cases (d.corpo.cod ==ℤ release_token)) [ inl e ↦ rw e | inr e ↦ rw e ])
]

soma-length :
    (ms : List (Envio ℕ))
    → soma (λ r. peso_resposta r.1) (map de_servidor ms) ≡ length (concedidas ms)
soma-length [] = refl
soma-length (m ∷ ms) = ground (arith, soma-length ms)

length-lista : (g : Option (Concessao ℕ)) → length (lista g) ≡ peso_lista g
length-lista none = refl
length-lista (some c) = refl

-- Every datagram of a round of the server says what it is.
abbrev pub Rotuladas : List (Envio ℕ) → Type 0
Rotuladas ms = All (λ e. 5 ≤ e.datagrama.tamanho) ms

itera-Rotuladas :
    (s : Servidor ℕ) (d : Datagrama) (i n : ℕ)
    → Rotuladas (enviadas (Servidor.itera s (entrega d i n)))
itera-Rotuladas s d i n =
    itera-Enviadas (λ e. 5 ≤ e.datagrama.tamanho) (λ para addrlen corpo h. omega arith) s d i n
      (λ rec tempo. omega arith)

-- A round of the server on a message: it goes on, keeps the invariant and the tokens, and its
-- datagrams say what they are.
pub data Turno (s : Servidor ℕ) (d : Datagrama) : Passo (Servidor ℕ) (Envio ℕ) → Type 0 where
  turno :
      {t : Servidor ℕ} {ms : List (Envio ℕ)}
      → IsServidor t
      → Rotuladas ms
      → (peso_livre (livre s) + peso_devolucao d ≤ 1
          → peso_livre (livre s) + peso_devolucao d
            ≡ peso_livre (livre t) + soma (λ r. peso_resposta r.1) (map de_servidor ms))
      → Turno s d (segue t ms)

Mantida-segue : {t : Servidor ℕ} {ms : List (Envio ℕ)} → Mantida (segue t ms) → IsServidor t
Mantida-segue (continua v) = v

Refina-Turno :
    (s : Servidor ℕ) (d : Datagrama) (i n : ℕ) (r : Passo (Servidor ℕ) (Envio ℕ))
    → Refina s (evento d.corpo i n) r
    → Mantida r
    → Rotuladas (enviadas r)
    → Turno s d r
Refina-Turno s d i n _ (refina {ms} g p q) m o = turno (Mantida-segue m) o λ h.
    let e = peso_evento-evento d i n in
    let b = Passa-balanco p (omega (arith, e, h)) in
    omega (arith, e, b, soma-length ms, ap length q, length-lista g)

pub itera-Turno :
    (s : Servidor ℕ) (d : Datagrama) (i n : ℕ)
    → IsServidor s
    → IsInteira d
    → Turno s d (Servidor.itera s (entrega d i n))
itera-Turno s d i n v h =
    Refina-Turno s d i n _ (itera-Refina s d i n v h) (itera-Mantida s (entrega d i n) v h)
      (itera-Rotuladas s d i n)
