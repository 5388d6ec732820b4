-- ===== src/Netkit/Sistema/Valor/Passos.antt =====
-- What the steps of the system do to the value of the token.
use unifesp_sd.Base.{
  ℕ, ◌≤◌, ◌≡◌, refl, ap, subst, ◌∙◌, inl, inr, List, [], ◌∷◌, ◌++◌, map, arith, All, All-append,
  All-sem, Bool-cases,
}
use unifesp_sd.Base.Int.{ℤ, pos, ◌+ℤ◌, ◌==ℤ◌, ==ℤ_iff, i32}
use unifesp_sd.Netkit.Mensagem.{reply_allow, Datagrama, segue}
use unifesp_sd.Netkit.Servidor.Invariante.{IsInteira, livre}
use unifesp_sd.Netkit.Cliente.{Cliente, pedindo, esperando, trata_reply, espera}
use unifesp_sd.Netkit.Cliente
use unifesp_sd.Netkit.Coordenador.Corrida.{Recado}
use unifesp_sd.Netkit.Sistema.{
  Sistema, troca, de_cliente, de_servidor, ao_receber, Anda, pede, recebe, serve, perde_pedido,
  perde_resposta, soma, soma-sem, peso_livre, peso_devolucao, peso_resposta, fichas,
}
use unifesp_sd.Netkit.Sistema.LadoCliente.{pede-Rodada, recebe-Rodada}
use unifesp_sd.Netkit.Sistema.Passos.{IsSistema, Rodada-segue}
use unifesp_sd.Netkit.Sistema.Valor.{
  uso, depois_de, DevolvemValor, RespondemValor, TemValor, sem_peso,
}
use unifesp_sd.Netkit.Sistema.Valor.LadoCliente.{Leva, recebe-Leva}
use unifesp_sd.Netkit.Sistema.Valor.LadoServidor.{Guarda, serve-Guarda}

map-DevolvemValor :
    (v : ℤ) (j : ℕ) (ms : List Datagrama)
    → All (λ m. 1 ≤ peso_devolucao m → m.corpo.rec ≡ v) ms
    → DevolvemValor v (map (de_cliente j) ms)
map-DevolvemValor v j [] h = tt
map-DevolvemValor v j (m ∷ ms) h = (h.0, map-DevolvemValor v j ms h.1)

-- What carries the value, carries it in any release.
leva-devolucoes :
    (v : ℤ) (ms : List Datagrama)
    → All (λ m. m.corpo.rec ≡ v) ms
    → All (λ m. 1 ≤ peso_devolucao m → m.corpo.rec ≡ v) ms
leva-devolucoes v [] h = tt
leva-devolucoes v (m ∷ ms) h = ((λ one. h.0), leva-devolucoes v ms h.1)

-- A client's round without the token.
alheia-TemValor :
    (v : ℤ) (s : Sistema) (j : ℕ) (f : ℕ → Cliente) (ms : List Datagrama)
    (rs : List (ℕ × Datagrama))
    → TemValor v s
    → soma peso_devolucao ms ≡ 0
    → RespondemValor v rs
    → TemValor v (record s {
      clientes = f;
      ao_servidor = s.ao_servidor ++ map (de_cliente j) ms;
      aos_clientes = rs;
    })
alheia-TemValor v s j f ms rs h z w = record {
  servidor = h.servidor;
  devolucoes =
      All-append (λ r. 1 ≤ peso_devolucao r.0 → r.0.corpo.rec ≡ v) s.ao_servidor
        (map (de_cliente j) ms) h.devolucoes
        (map-DevolvemValor v j ms (sem_peso peso_devolucao (λ m. m.corpo.rec ≡ v) ms z));
  respostas = w;
}

-- A client's round with the only token, which was on the way to it.
propria-TemValor :
    (v : ℤ) (s : Sistema) (j : ℕ) (f : ℕ → Cliente) (ms : List Datagrama)
    (rs : List (ℕ × Datagrama))
    → peso_livre (livre s.servidor) ≡ 0
    → soma (λ r. peso_devolucao r.0) s.ao_servidor ≡ 0
    → soma {A = ℕ × Datagrama} (λ r. peso_resposta r.1) rs ≡ 0
    → All (λ m. m.corpo.rec ≡ v) ms
    → TemValor v (record s {
      clientes = f;
      ao_servidor = s.ao_servidor ++ map (de_cliente j) ms;
      aos_clientes = rs;
    })
propria-TemValor v s j f ms rs out none_back none_sent carried = record {
  servidor = λ free. absurd (ground arith);
  devolucoes =
      All-append (λ r. 1 ≤ peso_devolucao r.0 → r.0.corpo.rec ≡ v) s.ao_servidor
        (map (de_cliente j) ms)
        (sem_peso (λ r. peso_devolucao r.0) (λ r. r.0.corpo.rec ≡ v) s.ao_servidor none_back)
        (map-DevolvemValor v j ms (leva-devolucoes v ms carried));
  respostas = sem_peso (λ r. peso_resposta r.1) (λ r. r.1.corpo.rec ≡ v) rs none_sent;
}

sem_pedido :
    (v : ℤ) (rs xs : List (Recado ℕ)) (r : Recado ℕ) (ys : List (Recado ℕ))
    → DevolvemValor v rs
    → rs ≡ xs ++ r ∷ ys
    → (1 ≤ peso_devolucao r.0 → r.0.corpo.rec ≡ v) × DevolvemValor v (xs ++ ys)
sem_pedido v rs xs r ys h e =
    All-sem (λ r. 1 ≤ peso_devolucao r.0 → r.0.corpo.rec ≡ v) xs r ys (subst (DevolvemValor v) e h)

sem_resposta :
    (v : ℤ) (rs xs : List (ℕ × Datagrama)) (r : ℕ × Datagrama) (ys : List (ℕ × Datagrama))
    → RespondemValor v rs
    → rs ≡ xs ++ r ∷ ys
    → (1 ≤ peso_resposta r.1 → r.1.corpo.rec ≡ v) × RespondemValor v (xs ++ ys)
sem_resposta v rs xs r ys h e =
    All-sem (λ r. 1 ≤ peso_resposta r.1 → r.1.corpo.rec ≡ v) xs r ys (subst (RespondemValor v) e h)

recebe-TemValor :
    (v : ℤ) (s : Sistema) (j : ℕ) (d : Datagrama) (xs ys : List (ℕ × Datagrama)) (c : Cliente)
    (ms : List Datagrama)
    → IsSistema s
    → fichas s ≤ 1
    → TemValor v s
    → s.aos_clientes ≡ xs ++ (j, d) ∷ ys
    → (s.clientes j).fase ≡ esperando
    → Cliente.itera (s.clientes j) (ao_receber d) ≡ segue c ms
    → TemValor (depois_de v (peso_resposta d)) (record s {
      clientes = troca s.clientes j c;
      ao_servidor = s.ao_servidor ++ map (de_cliente j) ms;
      aos_clientes = xs ++ ys;
    })
recebe-TemValor v s j d xs ys c ms w few h e p run =
    let (own, rest) = sem_resposta v s.aos_clientes xs (j, d) ys h.respostas e in
    let long =
      (All-sem (λ r. 5 ≤ r.1.tamanho) xs (j, d) ys
        (subst (All (λ r. 5 ≤ r.1.tamanho)) e w.respostas)).0 in
    let sent = (Rodada-segue run (recebe-Rodada (s.clientes j) d (w.clientes j) p long)).2 in
    let count =
      ap (soma (λ r. peso_resposta r.1)) e ∙ soma-sem (λ r. peso_resposta r.1) xs (j, d) ys in
    elim (Bool-cases (d.corpo.cod ==ℤ reply_allow)) [
      | inl y ↦
          let one : peso_resposta d ≡ 1 = rw y refl in
          let same = own (omega arith) in
          rw y (
            propria-TemValor _ s j _ ms (xs ++ ys) (omega arith) (omega arith) (omega arith) (
              subst (λ z. All (λ m. m.corpo.rec ≡ i32 (z +ℤ pos 1)) ms) same
                (subst (Leva (i32 (d.corpo.rec +ℤ pos 1))) run (
                  recebe-Leva (s.clientes j) d (w.clientes j) p long
                    ((==ℤ_iff d.corpo.cod reply_allow).0 y)))))
      | inr n ↦
          let none_sent : peso_resposta d ≡ 0 = rw n refl in
          rw n (alheia-TemValor v s j _ ms (xs ++ ys) h (sent ∙ none_sent) rest)
    ]

pub Anda-TemValor :
    {s t : Sistema} {k : ℕ} (v : ℤ) (st : Anda s k t)
    → IsSistema s
    → fichas s ≤ 1
    → TemValor v s
    → TemValor (depois_de v (uso st)) t
Anda-TemValor {s} v (pede i {c} {ms} p run) w few h =
    let sent = (Rodada-segue run (pede-Rodada (s.clientes i) (w.clientes i) p)).2 in
    alheia-TemValor v s i _ ms s.aos_clientes h sent h.respostas
Anda-TemValor {s} v (recebe i d xs ys {c} {ms} e p run) w few h =
    recebe-TemValor v s i d xs ys c ms w few h e p run
Anda-TemValor {s} v (serve d i n xs ys {t} {ms} e run) w few h =
    let (own, rest) = sem_pedido v s.ao_servidor xs (d, i, n) ys h.devolucoes e in
    let whole =
      (All-sem (λ r. IsInteira r.0) xs (d, i, n) ys
        (subst (All (λ r. IsInteira r.0)) e w.pedidos)).0 in
    let (after, sent) = subst (Guarda v) run (serve-Guarda v s d i n w whole h.servidor own) in
    record {
      servidor = after;
      devolucoes = rest;
      respostas =
          All-append (λ r. 1 ≤ peso_resposta r.1 → r.1.corpo.rec ≡ v) s.aos_clientes
            (map de_servidor ms) h.respostas sent;
    }
Anda-TemValor {s} v (perde_pedido r xs ys e) w few h = record {
  servidor = h.servidor;
  devolucoes = (sem_pedido v s.ao_servidor xs r ys h.devolucoes e).1;
  respostas = h.respostas;
}
Anda-TemValor {s} v (perde_resposta r xs ys e) w few h = record {
  servidor = h.servidor;
  devolucoes = h.devolucoes;
  respostas = (sem_resposta v s.aos_clientes xs r ys h.respostas e).1;
}
