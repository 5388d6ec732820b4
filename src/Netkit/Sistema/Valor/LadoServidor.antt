-- ===== src/Netkit/Sistema/Valor/LadoServidor.antt =====
-- What a round of the server does to the value of the token.
use unifesp_sd.Base.{
  ℕ, ◌≤◌, ◌≡◌, refl, subst, sym, inl, inr, true, Option, List, [], ◌∷◌, map, arith, All, Bool-cases,
}
use unifesp_sd.Base.Int.{ℤ, ◌==ℤ◌, ==ℤ_iff}
use unifesp_sd.Netkit.Mensagem.{
  Request, request_token, release_token, reply_allow, Datagrama, Passo,
}
use unifesp_sd.Netkit.Servidor.{Servidor, Envio}
use unifesp_sd.Netkit.Servidor
use unifesp_sd.Netkit.Servidor.Invariante.{IsInteira, livre}
use unifesp_sd.Netkit.Coordenador.{
  Coordenador, Evento, devolucao, Concessao, Passa, concede, aguarda, recusa, repassa, guarda,
  ignora,
}
use unifesp_sd.Netkit.Coordenador.Refina.{
  Refina, refina, itera-Refina, evento, entrega, concedidas, lista,
}
use unifesp_sd.Netkit.Sistema.{Sistema, de_servidor, peso_devolucao}
use unifesp_sd.Netkit.Sistema.Passos.{IsSistema}
use unifesp_sd.Netkit.Sistema.Tipos.{Deixa}
use unifesp_sd.Netkit.Sistema.Valor.{RespondemValor}

-- The replies of a round are its grants.
concedidas-RespondemValor :
    (v : ℤ) (ms : List (Envio ℕ))
    → All (λ (g : Concessao ℕ). g.valor ≡ v) (concedidas ms)
    → RespondemValor v (map de_servidor ms)
concedidas-RespondemValor v [] = λ h. tt
concedidas-RespondemValor v (m ∷ ms) = elim (Bool-cases (m.datagrama.corpo.cod ==ℤ reply_allow)) [
  | inl y ↦ rw y λ k. ((λ one. k.0), concedidas-RespondemValor v ms k.1)
  | inr n ↦ rw n λ k. ((λ one. absurd (omega arith)), concedidas-RespondemValor v ms k)
]

-- A round of the server that leaves the token with the value `v`, where it is.
abbrev pub Guarda : ℤ → Passo (Servidor ℕ) (Envio ℕ) → Type 0
Guarda v =
    Deixa λ t ms. (livre t ≡ true → t.token.valor ≡ v) × RespondemValor v (map de_servidor ms)

evento-devolve :
    (v w : ℤ) (r : Request) (j n : ℕ)
    → (r.cod ≡ release_token → r.rec ≡ v)
    → evento r j n ≡ devolucao w
    → w ≡ v
evento-devolve v w r j n h = elim (Bool-cases (r.cod ==ℤ request_token)) [
  | inl a ↦ λ e. absurd (cc)
  | inr b ↦ elim (Bool-cases (r.cod ==ℤ release_token)) [
    | inl c ↦ λ e. let same = h ((==ℤ_iff r.cod release_token).0 c) in cc
    | inr c ↦ λ e. absurd (cc)
  ]
]

Passa-valor :
    {a b : Coordenador ℕ} {ev : Evento ℕ} {g : Option (Concessao ℕ)} (v : ℤ)
    → Passa a b ev g
    → (a.livre ≡ true → a.valor ≡ v)
    → ((w : ℤ) → ev ≡ devolucao w → w ≡ v)
    → (b.livre ≡ true → b.valor ≡ v) × All (λ (c : Concessao ℕ). c.valor ≡ v) (lista g)
Passa-valor v (concede x l e) h k = ((λ f. absurd (cc)), (h l, tt))
Passa-valor v (aguarda x l q p z e) h k = ((λ f. absurd (cc)), tt)
Passa-valor {a} {b} v (recusa x l q e) h k = ((λ f. absurd (cc)), tt)
Passa-valor v (repassa w y l e) h k = ((λ f. absurd (cc)), (k w refl, tt))
Passa-valor v (guarda w l e) h k = ((λ f. let same = k w refl in cc), tt)
Passa-valor v (ignora e) h k = (subst (λ c. c.livre ≡ true → c.valor ≡ v) (sym e) h, tt)

Refina-Guarda :
    (v : ℤ) (s : Servidor ℕ) (ev : Evento ℕ) (r : Passo (Servidor ℕ) (Envio ℕ))
    → Refina s ev r
    → (livre s ≡ true → s.token.valor ≡ v)
    → ((w : ℤ) → ev ≡ devolucao w → w ≡ v)
    → Guarda v r
Refina-Guarda v s ev _ (refina {ms} g p q) h k =
    let (a, b) = Passa-valor v p h k in
    (a, concedidas-RespondemValor v ms (subst (All (λ (c : Concessao ℕ). c.valor ≡ v)) (sym q) b))

pub serve-Guarda :
    (v : ℤ) (s : Sistema) (d : Datagrama) (j n : ℕ)
    → IsSistema s
    → IsInteira d
    → (livre s.servidor ≡ true → s.servidor.token.valor ≡ v)
    → (1 ≤ peso_devolucao d → d.corpo.rec ≡ v)
    → Guarda v (Servidor.itera s.servidor (entrega d j n))
serve-Guarda v s d j n w whole h own =
    Refina-Guarda v s.servidor (evento d.corpo j n) _
      (itera-Refina s.servidor d j n w.servidor whole) h
      λ u e.
        evento-devolve v u d.corpo j n
          (λ q.
            let yes : (d.corpo.cod ==ℤ release_token) ≡ true =
              (==ℤ_iff d.corpo.cod release_token).1 q in
            own (rw yes (omega arith)))
          e
