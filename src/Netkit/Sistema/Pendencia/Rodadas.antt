-- ===== src/Netkit/Sistema/Pendencia/Rodadas.antt =====
-- What a round does that moves the token: a release served to the first of the queue, a reply given
-- back by its client.
use unifesp_sd.Base.{
  ℕ, ◌≤◌, ◌≡◌, refl, ap, subst, ◌∙◌, inl, inr, true, false, Option, List, [], ◌∷◌, ◌++◌, map, arith,
  All, All-sem, Bool-cases, ◌==◌,
}
use unifesp_sd.Base.Int.{ℤ, ◌==ℤ◌, ==ℤ_iff}
use unifesp_sd.Netkit.Mensagem.{
  Request, Datagrama, reply_allow, release_token, request_token, Passo, segue,
}
use unifesp_sd.Netkit.Servidor.{Servidor, Sitem, Envio}
use unifesp_sd.Netkit.Servidor
use unifesp_sd.Netkit.Servidor.Invariante.{IsInteira}
use unifesp_sd.Netkit.Cliente.{Cliente, Fase, pedindo, esperando}
use unifesp_sd.Netkit.Cliente
use unifesp_sd.Netkit.Coordenador.{
  Coordenador, Evento, devolucao, Concessao, concessao, Passa, concede, aguarda, recusa, repassa,
  guarda, ignora,
}
use unifesp_sd.Netkit.Coordenador.Refina.{Refina, refina, entrega, itera-Refina, evento, lista}
use unifesp_sd.Netkit.Coordenador.Corrida.{Recado}
use unifesp_sd.Netkit.Sistema.{
  Sistema, de_cliente, de_servidor, ao_receber, Anda, recebe, serve, soma, soma-append,
  peso_devolucao, peso_resposta,
}
use unifesp_sd.Netkit.Sistema.LadoCliente.{Rodada, rodada}
use unifesp_sd.Netkit.Sistema.Passos.{IsSistema, soma-de_cliente}
use unifesp_sd.Netkit.Sistema.Pendencia.{resposta_a}
use unifesp_sd.Netkit.Sistema.Pendencia.LadoServidor.{concessao_a, soma-resposta_a}

-- An entry that has weight stands somewhere in the list.
pub record Tem {A : Type 0} (w : A → ℕ) (l : List A) : Type 0 where
  pub antes : List A
  pub este : A
  pub depois : List A
  pub partes : l ≡ antes ++ este ∷ depois
  pub pesa : 1 ≤ w este

Tem-cons : {A : Type 0} {w : A → ℕ} (x : A) {l : List A} → Tem w l → Tem w (x ∷ l)
Tem-cons x t = record {
  antes = x ∷ t.antes;
  este = t.este;
  depois = t.depois;
  partes = ap (◌∷◌ x) t.partes;
  pesa = t.pesa;
}

pub soma-Tem : {A : Type 0} (w : A → ℕ) (l : List A) → 1 ≤ soma w l → Tem w l
soma-Tem w [] h = absurd (omega arith)
soma-Tem w (x ∷ l) h = elim (Bool-cases (w x == 0)) [
  | inl z ↦ Tem-cons x (soma-Tem w l (ground arith))
  | inr p ↦ record { antes = []; este = x; depois = l; partes = refl; pesa = ground arith }
]

pub peso_resposta-cod : (d : Datagrama) → 1 ≤ peso_resposta d → d.corpo.cod ≡ reply_allow
peso_resposta-cod d h = ground (arith, ==ℤ_iff d.corpo.cod reply_allow)

peso_devolucao-cod : (d : Datagrama) → 1 ≤ peso_devolucao d → d.corpo.cod ≡ release_token
peso_devolucao-cod d h = ground (arith, ==ℤ_iff d.corpo.cod release_token)

-- What is sent in a round that serves the first of the queue: a reply to it.
repassa-concede :
    {a b : Coordenador ℕ} {ev : Evento ℕ} {g : Option (Concessao ℕ)} (v : ℤ) (y : Sitem ℕ)
    (ys : List (Sitem ℕ))
    → Passa a b ev g
    → ev ≡ devolucao v
    → a.espera ≡ y ∷ ys
    → (b.espera ≡ ys) × (lista g ≡ concessao y v ∷ [])
repassa-concede v y ys (concede x l e) q h = absurd (cc)
repassa-concede v y ys (aguarda x l k p z e) q h = absurd (cc)
repassa-concede v y ys (recusa x l k e) q h = absurd (cc)
repassa-concede v y ys (repassa u z l e) q h = (cc, cc)
repassa-concede v y ys (guarda u l e) q h = absurd (cc)
repassa-concede v y ys (ignora e) q h = absurd (cc)

-- A round of the server on a release, with `y` first in the queue and `ys` behind.
data Repassou (y : Sitem ℕ) (ys : List (Sitem ℕ)) : Passo (Servidor ℕ) (Envio ℕ) → Type 0 where
  repassou :
      {t : Servidor ℕ} {ms : List (Envio ℕ)}
      → t.fila.head ≡ ys
      → 1 ≤ soma (resposta_a y.caddr) (map de_servidor ms)
      → Repassou y ys (segue t ms)

evento-devolucao : (r : Request) (j n : ℕ) → r.cod ≡ release_token → evento r j n ≡ devolucao r.rec
evento-devolucao r j n e =
    let other : (r.cod ==ℤ request_token) ≡ false = ground (arith, ==ℤ_iff r.cod request_token) in
    let same : (r.cod ==ℤ release_token) ≡ true = (==ℤ_iff r.cod release_token).1 e in
    rw (other, same) refl

Refina-Repassou :
    (s : Servidor ℕ) (ev : Evento ℕ) (v : ℤ) (y : Sitem ℕ) (ys : List (Sitem ℕ))
    (r : Passo (Servidor ℕ) (Envio ℕ))
    → Refina s ev r
    → ev ≡ devolucao v
    → s.fila.head ≡ y ∷ ys
    → Repassou y ys r
Refina-Repassou s ev v y ys _ (refina {ms} g p q) e h =
    let (rest, granted) = repassa-concede v y ys p e h in
    let sent = soma-resposta_a y.caddr ms ∙ ap (soma (concessao_a y.caddr)) (q ∙ granted) in
    let mine : (y.caddr == y.caddr) ≡ true = ground arith in
    repassou rest (rw (sent, mine) (omega arith))

Repassou-Anda :
    (s : Sistema) (d : Datagrama) (j n : ℕ) (xs ys : List (Recado ℕ)) (y : Sitem ℕ)
    (zs : List (Sitem ℕ)) (r : Passo (Servidor ℕ) (Envio ℕ))
    → s.ao_servidor ≡ xs ++ (d, j, n) ∷ ys
    → Servidor.itera s.servidor (entrega d j n) ≡ r
    → Repassou y zs r
    → (t : Sistema) × Anda s 0 t
      × (t.servidor.fila.head ≡ zs)
      × (1 ≤ soma (resposta_a y.caddr) t.aos_clientes)
Repassou-Anda s d j n xs ys y zs _ e run (repassou {ms} rest one) =
    let add = soma-append (resposta_a y.caddr) s.aos_clientes (map de_servidor ms) in
    (_, serve d j n xs ys e run, rest, omega arith)

-- A release on the way serves the first of the queue.
pub passa_adiante :
    (s : Sistema) (y : Sitem ℕ) (ys : List (Sitem ℕ))
    → IsSistema s
    → 1 ≤ soma (λ r. peso_devolucao r.0) s.ao_servidor
    → s.servidor.fila.head ≡ y ∷ ys
    → (t : Sistema) × Anda s 0 t
      × (t.servidor.fila.head ≡ ys)
      × (1 ≤ soma (resposta_a y.caddr) t.aos_clientes)
passa_adiante s y ys w one h =
    let tem = soma-Tem (λ r. peso_devolucao r.0) s.ao_servidor one in
    let (d, j, n) = tem.este in
    let whole =
      (All-sem (λ r. IsInteira r.0) tem.antes tem.este tem.depois
        (subst (All (λ r. IsInteira r.0)) tem.partes w.pedidos)).0 in
    Repassou-Anda s d j n tem.antes tem.depois y ys _ tem.partes refl (
      Refina-Repassou s.servidor (evento d.corpo j n) d.corpo.rec y ys _
        (itera-Refina s.servidor d j n w.servidor whole)
        (evento-devolucao d.corpo j n (peso_devolucao-cod d tem.pesa)) h)

pub Rodada-Anda :
    (s : Sistema) (i : ℕ) (d : Datagrama) (xs ys : List (ℕ × Datagrama))
    (r : Passo Cliente Datagrama)
    → s.aos_clientes ≡ xs ++ (i, d) ∷ ys
    → (s.clientes i).fase ≡ esperando
    → Cliente.itera (s.clientes i) (ao_receber d) ≡ r
    → Rodada (s.clientes i).pid 1 r
    → (t : Sistema) × Anda s 0 t
      × (t.servidor.fila.head ≡ s.servidor.fila.head)
      × (1 ≤ soma (λ r. peso_devolucao r.0) t.ao_servidor)
Rodada-Anda s i d xs ys _ e p run (rodada {ms} x y z) =
    let add = soma-append (λ r. peso_devolucao r.0) s.ao_servidor (map (de_cliente i) ms) in
    let sent = soma-de_cliente i ms in (_, recebe i d xs ys e p run, refl, omega arith)
