-- ===== src/Netkit/Sistema/Pendencia/Vez.antt =====
-- How a client of the system that waits comes to its turn.
use unifesp_sd.Base.{
  ℕ, ◌+◌, ◌≤◌, ◌<◌, ◌≡◌, ◌≢◌, refl, ap, subst, ◌∙◌, sym, inl, inr, List, [], ◌∷◌, ◌++◌, map, arith,
  length, All, All-sem, Bool-cases, ◌==◌,
}
use unifesp_sd.Base.Int.{ℤ, pos}
use unifesp_sd.Netkit.Mensagem.{Request, Datagrama, Passo}
use unifesp_sd.Netkit.Servidor.{Servidor, Sitem, Envio}
use unifesp_sd.Netkit.Servidor
use unifesp_sd.Netkit.Servidor.Invariante.{IsPid, IsInteira, livre}
use unifesp_sd.Netkit.Cliente.{Cliente, Fase, pedindo, esperando}
use unifesp_sd.Netkit.Cliente
use unifesp_sd.Netkit.Coordenador.Refina.{entrega}
use unifesp_sd.Netkit.Coordenador.Corrida.{Recado}
use unifesp_sd.Netkit.Sistema.{
  Sistema, de_servidor, ao_receber, Anda, serve, Alcanca, aqui, mais, soma, soma-append, peso_livre,
  peso_devolucao, peso_resposta,
}
use unifesp_sd.Netkit.Sistema.LadoCliente.{Rodada, recebe-Rodada}
use unifesp_sd.Netkit.Sistema.Ficha.{partida, partida-Conserva, uma_ficha}
use unifesp_sd.Netkit.Sistema.Pendencia.{pedido_de, lugar_de, resposta_a, espera_de}
use unifesp_sd.Netkit.Sistema.Pendencia.LadoServidor.{Atendimento, atendimento, itera-Atendimento}
use unifesp_sd.Netkit.Sistema.Pendencia.Espera.{
  Folgada, Folgada-Alcanca, resposta_esperada, ninguem_esquecido, nao_recusa, Alcanca-Registro,
}
use unifesp_sd.Netkit.Sistema.Pendencia.Avanco.{Recusou}
use unifesp_sd.Netkit.Sistema.Pendencia.Rodadas.{
  soma-Tem, peso_resposta-cod, passa_adiante, Rodada-Anda,
}

Alcanca-trans :
    {s t u : Sistema} {n m : ℕ} (q : ℕ) → Alcanca s n t → Alcanca t m u → q ≡ n + m → Alcanca s q u
Alcanca-trans {s} {t} {n} q r aqui e = subst (λ k. Alcanca s k t) (omega arith) r
Alcanca-trans {n} q r (mais {n = a} {k} g st h) e =
    mais (Alcanca-trans (n + a) r g refl) st (omega arith)

-- A run that loses nothing to where the token is on the way to client `i`.
abbrev pub Chega : Sistema → ℕ → Type 0
Chega s i = (t : Sistema) × Alcanca s 0 t × (1 ≤ soma (resposta_a i) t.aos_clientes)

Chega-depois : (s t : Sistema) (i : ℕ) → Alcanca s 0 t → Chega t i → Chega s i
Chega-depois s t i r (u, g, one) = (u, Alcanca-trans 0 r g refl, one)

um : {s t : Sistema} → Anda s 0 t → Alcanca s 0 t
um st = mais aqui st refl

module _ (a b c : Request) (pid : ℕ → ℤ) (req resp : ℕ → Request) (cabe : (i : ℕ) → IsPid (pid i))
    (vivo : (i : ℕ) → pid i ≢ pos 0) where
  -- The client to which the token is on the way gives it back.
  devolve_ficha :
      (s : Sistema)
      → Alcanca (partida a b c pid req resp) 0 s
      → 1 ≤ soma (λ r. peso_resposta r.1) s.aos_clientes
      → (t : Sistema) × Anda s 0 t
        × (t.servidor.fila.head ≡ s.servidor.fila.head)
        × (1 ≤ soma (λ r. peso_devolucao r.0) t.ao_servidor)
  devolve_ficha s r one =
      let w = (partida-Conserva a b c pid req resp cabe vivo r).valido in
      let tem = soma-Tem (λ r. peso_resposta r.1) s.aos_clientes one in
      let (i, d) = tem.este in
      let long =
        (All-sem (λ r. 5 ≤ r.1.tamanho) tem.antes tem.este tem.depois
          (subst (All (λ r. 5 ≤ r.1.tamanho)) tem.partes w.respostas)).0 in
      let p =
        resposta_esperada a b c pid req resp cabe vivo i d tem.antes tem.depois r tem.partes
          (peso_resposta-cod d tem.pesa) in
      let n : peso_resposta d ≡ 1 = let h = tem.pesa in ground arith in
      Rodada-Anda s i d tem.antes tem.depois _ tem.partes p refl (
        subst (λ n. Rodada (s.clientes i).pid n (Cliente.itera (s.clientes i) (ao_receber d))) n
          (recebe-Rodada (s.clientes i) d (w.clientes i) p long))

  -- With somebody in the queue, the token comes back to the server.
  ficha_volta :
      (s : Sistema) (y : Sitem ℕ) (ys : List (Sitem ℕ))
      → Alcanca (partida a b c pid req resp) 0 s
      → s.servidor.fila.head ≡ y ∷ ys
      → (t : Sistema) × Alcanca s 0 t
        × (t.servidor.fila.head ≡ y ∷ ys)
        × (1 ≤ soma (λ r. peso_devolucao r.0) t.ao_servidor)
  ficha_volta s y ys r h =
      let w = (partida-Conserva a b c pid req resp cabe vivo r).valido in
      let ficha = (uma_ficha a b c pid req resp cabe vivo r).1 in
      let out : peso_livre (livre s.servidor) ≡ 0 = elim w.servidor.espera [
        | inl busy ↦ rw busy refl
        | inr empty ↦ absurd (omega (arith, ap length h, ap length empty))
      ] in
      elim (Bool-cases (soma (λ r. peso_devolucao r.0) s.ao_servidor == 0)) [
        | inl none_back ↦
            let (t, st, same, one) = devolve_ficha s r (ground arith) in (t, um st, same ∙ h, one)
        | inr back ↦ (s, aqui, h, ground arith)
      ]

  -- The queue is served from its head on.
  fila_anda :
      (pre : List (Sitem ℕ)) (x : Sitem ℕ) (post : List (Sitem ℕ)) (s : Sistema)
      → Alcanca (partida a b c pid req resp) 0 s
      → s.servidor.fila.head ≡ pre ++ x ∷ post
      → Chega s x.caddr
  fila_anda [] x post s r h =
      let (t, g, same, one) = ficha_volta s x post r h in
      let w = (partida-Conserva a b c pid req resp cabe vivo (Alcanca-trans 0 r g refl)).valido in
      let (u, st, rest, sent) = passa_adiante t x post w one same in (u, mais g st refl, sent)
  fila_anda (y ∷ pre) x post s r h =
      let (t, g, same, one) = ficha_volta s y (pre ++ x ∷ post) r h in
      let w = (partida-Conserva a b c pid req resp cabe vivo (Alcanca-trans 0 r g refl)).valido in
      let (u, st, rest, sent) = passa_adiante t y (pre ++ x ∷ post) w one same in
      let k : Alcanca s 0 u = mais g st refl in
      Chega-depois s u x.caddr k (fila_anda pre x post u (Alcanca-trans 0 r k refl) rest)

  -- A client that is in the queue, or to which the token is on the way.
  na_fila :
      (s : Sistema) (i : ℕ)
      → Alcanca (partida a b c pid req resp) 0 s
      → 1 ≤ soma (lugar_de i) s.servidor.fila.head + soma (resposta_a i) s.aos_clientes
      → Chega s i
  na_fila s i r one = elim (Bool-cases (soma (resposta_a i) s.aos_clientes == 0)) [
    | inl none_yet ↦
        let tem = soma-Tem (lugar_de i) s.servidor.fila.head (ground arith) in
        let same : tem.este.caddr ≡ i = let h = tem.pesa in ground arith in
        subst (Chega s) same (fila_anda tem.antes tem.este tem.depois s r tem.partes)
    | inr sent ↦ (s, aqui, ground arith)
  ]

  atendido-Chega :
      (s : Sistema) (i n : ℕ) (d : Datagrama) (xs ys : List (Recado ℕ))
      (o : Passo (Servidor ℕ) (Envio ℕ))
      → Alcanca (partida a b c pid req resp) 0 s
      → s.ao_servidor ≡ xs ++ (d, i, n) ∷ ys
      → Servidor.itera s.servidor (entrega d i n) ≡ o
      → Atendimento pid s.servidor.fila.head d i n o
      → 1 ≤ pedido_de i (d, i, n)
      → ¬ Recusou s
      → Chega s i
  atendido-Chega s i n d xs ys _ r e run (atendimento {t} {ms} ids w q) one calm =
      let st = serve d i n xs ys e run in
      let add = soma-append (resposta_a i) s.aos_clientes (map de_servidor ms) in
      elim q [
        | inl f ↦
            let h = f i in Chega-depois s _ i (um st) (na_fila _ i (mais r st refl) (omega arith))
        | inr o ↦ absurd (
            calm (record {
              d = d;
              j = i;
              n = n;
              xs = xs;
              ys = ys;
              caminho = e;
              pede = o.pede;
              motivo = o.motivo;
            }))
      ]

  -- Whoever waits can be served: from a state that a run without losses reaches, with a free place in
  -- the queue there and before each step of the run, and different PIDs, the system can go on without
  -- a loss to where the token is on the way to a client that waits.
  pub vez_vem :
      (s : Sistema) (i : ℕ)
      → ((j k : ℕ) → pid j ≡ pid k → j ≡ k)
      → Folgada (partida a b c pid req resp) s
      → length s.servidor.fila.head < 10
      → (s.clientes i).fase ≡ esperando
      → Chega s i
  vez_vem s i distintos r room p =
      let run = Folgada-Alcanca r in
      let w = (partida-Conserva a b c pid req resp cabe vivo run).valido in
      let g = Alcanca-Registro a b c pid req resp cabe vivo run in
      let one = ninguem_esquecido a b c pid req resp cabe vivo distintos i r in
      let waits : espera_de i s ≡ 1 = rw p refl in
      elim (Bool-cases (soma (pedido_de i) s.ao_servidor == 0)) [
        | inl asked ↦ na_fila s i run (ground arith)
        | inr asks ↦
            let tem = soma-Tem (pedido_de i) s.ao_servidor (ground arith) in
            let (d, j, n) = tem.este in
            let same : j ≡ i = let h = tem.pesa in ground arith in
            let whole =
              (All-sem (λ r. IsInteira r.0) tem.antes tem.este tem.depois
                (subst (All (λ r. IsInteira r.0)) tem.partes w.pedidos)).0 in
            let own =
              (All-sem (λ r. r.0.corpo.pid ≡ pid r.1) tem.antes tem.este tem.depois
                (subst (All (λ r. r.0.corpo.pid ≡ pid r.1)) tem.partes g.valido.pedidos)).0 in
            subst (Chega s) same (
              atendido-Chega s j n d tem.antes tem.depois _ run tem.partes refl
                (itera-Atendimento pid s.servidor d j n w.servidor whole g.valido.fila own)
                (subst (λ i. 1 ≤ pedido_de i (d, j, n)) (sym same) tem.pesa)
                (nao_recusa pid distintos s g.valido room g.conta))
      ]
