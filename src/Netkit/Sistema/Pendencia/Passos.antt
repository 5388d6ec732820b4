-- ===== src/Netkit/Sistema/Pendencia/Passos.antt =====
-- What the steps of the system do to what the clients wait for.
use unifesp_sd.Base.{
  ℕ, ◌+◌, ◌≡◌, refl, ap, subst, ◌∙◌, sym, inl, inr, true, false, List, [], ◌∷◌, ◌++◌, map, arith,
  All, All-append, All-sem, Bool-cases, ◌==◌, if◌then◌else◌,
}
use unifesp_sd.Base.Int.{ℤ}
use unifesp_sd.Netkit.Mensagem.{Datagrama, Passo, segue}
use unifesp_sd.Netkit.Servidor.{Servidor, Envio}
use unifesp_sd.Netkit.Servidor.Invariante.{IsInteira}
use unifesp_sd.Netkit.Cliente.{Cliente, Fase, pedindo, esperando}
use unifesp_sd.Netkit.Cliente
use unifesp_sd.Netkit.Coordenador.Corrida.{Recado}
use unifesp_sd.Netkit.Sistema.{
  Sistema, troca, de_cliente, de_servidor, ao_pedir, ao_receber, Anda, pede, recebe, serve,
  perde_pedido, perde_resposta, soma, soma-append, soma-sem, peso_resposta,
}
use unifesp_sd.Netkit.Sistema.Passos.{IsSistema}
use unifesp_sd.Netkit.Sistema.Pendencia.{
  peso_pedido, pedido_de, lugar_de, resposta_a, peso_fase, soma-pedido_de,
}
use unifesp_sd.Netkit.Sistema.Pendencia.LadoCliente.{
  Comporta, comporta, IsRecibo, pede-Comporta, recebe-Comporta,
}
use unifesp_sd.Netkit.Sistema.Pendencia.LadoServidor.{
  Recibos, Atendimento, atendimento, itera-Atendimento,
}
use unifesp_sd.Netkit.Sistema.Pendencia.Avanco.{Identificado, Avanca, Avanca-justa}

Comporta-segue :
    {p : ℤ} {f : Fase} {n : ℕ} {c : Cliente} {ms : List Datagrama} {r : Passo Cliente Datagrama}
    → r ≡ segue c ms
    → Comporta p f n r
    → (c.pid ≡ p)
      × All (λ d. d.corpo.pid ≡ p) ms
      × (peso_fase c.fase + n ≡ peso_fase f + soma peso_pedido ms)
Comporta-segue {p} {f} {n} {c} {ms} e h = go (subst (Comporta p f n) e h)
  where
    go :
        Comporta p f n (segue c ms)
        → (c.pid ≡ p)
          × All (λ d. d.corpo.pid ≡ p) ms
          × (peso_fase c.fase + n ≡ peso_fase f + soma peso_pedido ms)
    go (comporta x y z) = (x, y, z)

map-pedidos :
    (pid : ℕ → ℤ) (j : ℕ) (ms : List Datagrama)
    → All (λ d. d.corpo.pid ≡ pid j) ms
    → All (λ r. r.0.corpo.pid ≡ pid r.1) (map (de_cliente j) ms)
map-pedidos pid j [] h = tt
map-pedidos pid j (m ∷ ms) h = (h.0, map-pedidos pid j ms h.1)

troca-pid :
    (pid : ℕ → ℤ) (f : ℕ → Cliente) (j : ℕ) (c : Cliente)
    → ((i : ℕ) → (f i).pid ≡ pid i)
    → c.pid ≡ pid j
    → (i : ℕ) → (troca f j c i).pid ≡ pid i
troca-pid pid f j c h e i = elim (Bool-cases (j == i)) [
  | inl y ↦ let same : j ≡ i = ground arith in rw y (e ∙ ap pid same)
  | inr n ↦ rw n (h i)
]

-- The balance of client `i` where client `j` makes a round: `a` requests on the way, `r` replies.
troca-balanco :
    (f : ℕ → Cliente) (i j a r : ℕ) (c : Cliente)
    → peso_fase c.fase + r ≡ peso_fase (f j).fase + a
    → peso_fase (troca f j c i).fase + (if i == j then r else 0)
      ≡ peso_fase (f i).fase + (if i == j then a else 0)
troca-balanco f i j a r c e = elim (Bool-cases (j == i)) [
  | inl y ↦
      let same : j ≡ i = ground arith in
      let z : (i == j) ≡ true = ground arith in
      rw (y, z) (e ∙ ap (λ h. peso_fase (f h).fase + a) same)
  | inr n ↦ let z : (i == j) ≡ false = ground arith in rw (n, z) refl
]

-- A round of client `j` that takes `r` replies and sends `ms`.
enviado-Avanca :
    (pid : ℕ → ℤ) (s : Sistema) (j r : ℕ) {c : Cliente} {ms : List Datagrama}
    (rs : List (ℕ × Datagrama))
    → Identificado pid s
    → Comporta (s.clientes j).pid (s.clientes j).fase r (segue c ms)
    → Recibos pid rs
    → ((i : ℕ)
        → soma (resposta_a i) s.aos_clientes ≡ (if i == j then r else 0) + soma (resposta_a i) rs)
    → Avanca pid s 0 (record s {
      clientes = troca s.clientes j c;
      ao_servidor = s.ao_servidor ++ map (de_cliente j) ms;
      aos_clientes = rs;
    })
enviado-Avanca pid s j r {c} {ms} rs v h w e =
    let (same, own, balance) = Comporta-segue refl h in
    let id = v.clientes j in
    Avanca-justa pid s 0 _
      (record {
        clientes = troca-pid pid s.clientes j c v.clientes (same ∙ id);
        pedidos =
            All-append (λ r. r.0.corpo.pid ≡ pid r.1) s.ao_servidor _ v.pedidos
              (map-pedidos pid j ms (subst (λ p. All (λ d. d.corpo.pid ≡ p) ms) id own));
        fila = v.fila;
        recibos = w;
      })
      λ i.
        let add = soma-append (pedido_de i) s.ao_servidor (map (de_cliente j) ms) in
        let sent = soma-pedido_de i j ms in
        let phase = troca-balanco s.clientes i j (soma peso_pedido ms) r c balance in
        let got = e i in omega arith

pede-Avanca :
    (pid : ℕ → ℤ) (s : Sistema) (j : ℕ) {c : Cliente} {ms : List Datagrama}
    → Identificado pid s
    → (s.clientes j).fase ≡ pedindo
    → Cliente.itera (s.clientes j) ao_pedir ≡ segue c ms
    → Avanca pid s 0 (record s {
      clientes = troca s.clientes j c;
      ao_servidor = s.ao_servidor ++ map (de_cliente j) ms;
    })
pede-Avanca pid s j v p run =
    enviado-Avanca pid s j 0 s.aos_clientes v
      (subst (Comporta (s.clientes j).pid (s.clientes j).fase 0) run
        (pede-Comporta (s.clientes j) p))
      v.recibos (λ i. ground arith)

recebe-Avanca :
    (pid : ℕ → ℤ) (s : Sistema) (j : ℕ) (d : Datagrama) (xs ys : List (ℕ × Datagrama)) {c : Cliente}
    {ms : List Datagrama}
    → IsSistema s
    → Identificado pid s
    → s.aos_clientes ≡ xs ++ (j, d) ∷ ys
    → (s.clientes j).fase ≡ esperando
    → Cliente.itera (s.clientes j) (ao_receber d) ≡ segue c ms
    → Avanca pid s 0 (record s {
      clientes = troca s.clientes j c;
      ao_servidor = s.ao_servidor ++ map (de_cliente j) ms;
      aos_clientes = xs ++ ys;
    })
recebe-Avanca pid s j d xs ys w v e p run =
    let (own, rest) =
      All-sem (λ r. IsRecibo (pid r.0) r.1) xs (j, d) ys (subst (Recibos pid) e v.recibos) in
    enviado-Avanca pid s j (peso_resposta d) (xs ++ ys) v
      (subst (Comporta (s.clientes j).pid (s.clientes j).fase (peso_resposta d)) run (
        recebe-Comporta (s.clientes j) d (w.clientes j) p
          (subst (λ p. IsRecibo p d) (sym (v.clientes j)) own)))
      rest λ i. ap (soma (resposta_a i)) e ∙ soma-sem (resposta_a i) xs (j, d) ys

serve-Avanca :
    (pid : ℕ → ℤ) (s : Sistema) (d : Datagrama) (j n : ℕ) (xs ys : List (Recado ℕ)) {t : Servidor ℕ}
    {ms : List (Envio ℕ)}
    → Identificado pid s
    → s.ao_servidor ≡ xs ++ (d, j, n) ∷ ys
    → All (λ r. r.0.corpo.pid ≡ pid r.1) (xs ++ ys)
    → Atendimento pid s.servidor.fila.head d j n (segue t ms)
    → Avanca pid s 0 (record s {
      servidor = t;
      ao_servidor = xs ++ ys;
      aos_clientes = s.aos_clientes ++ map de_servidor ms;
    })
serve-Avanca pid s d j n xs ys {t} {ms} v e rest (atendimento ids w q) =
    let valido : Identificado pid (record s {
      servidor = t;
      ao_servidor = xs ++ ys;
      aos_clientes = s.aos_clientes ++ map de_servidor ms;
    }) =
      record {
        clientes = v.clientes;
        pedidos = rest;
        fila = ids;
        recibos = All-append (λ r. IsRecibo (pid r.0) r.1) s.aos_clientes _ v.recibos w;
      } in
    let less : (i : ℕ)
        → soma (pedido_de i) s.ao_servidor ≡ pedido_de i (d, j, n) + soma (pedido_de i) (xs ++ ys) =
      λ i. ap (soma (pedido_de i)) e ∙ soma-sem (pedido_de i) xs (d, j, n) ys in
    let add = λ (i : ℕ). soma-append (resposta_a i) s.aos_clientes (map de_servidor ms) in
    elim q [
      | inl f ↦ Avanca-justa pid s 0 _ valido λ i. omega (arith, less i, add i, f i)
      | inr o ↦ record {
        valido = valido;
        menos = λ i. omega (arith, less i, add i, ap (soma (lugar_de i)) o.fila, o.calado i);
        conta = inr (
            inr (record {
              d = d;
              j = j;
              n = n;
              xs = xs;
              ys = ys;
              caminho = e;
              pede = o.pede;
              motivo = o.motivo;
            }));
      }
    ]

pub Anda-Avanca :
    {s t : Sistema} {k : ℕ} (pid : ℕ → ℤ)
    → Anda s k t
    → IsSistema s
    → Identificado pid s
    → Avanca pid s k t
Anda-Avanca {s} pid (pede i p run) w v = pede-Avanca pid s i v p run
Anda-Avanca {s} pid (recebe i d xs ys e p run) w v = recebe-Avanca pid s i d xs ys w v e p run
Anda-Avanca {s} pid (serve d i n xs ys e run) w v =
    let whole =
      (All-sem (λ r. IsInteira r.0) xs (d, i, n) ys
        (subst (All (λ r. IsInteira r.0)) e w.pedidos)).0 in
    let (own, rest) =
      All-sem (λ r. r.0.corpo.pid ≡ pid r.1) xs (d, i, n) ys
        (subst (All (λ r. r.0.corpo.pid ≡ pid r.1)) e v.pedidos) in
    serve-Avanca pid s d i n xs ys v e rest (
      subst (Atendimento pid s.servidor.fila.head d i n) run
        (itera-Atendimento pid s.servidor d i n w.servidor whole v.fila own))
Anda-Avanca {s} pid (perde_pedido r xs ys e) w v =
    let (one, rest) =
      All-sem (λ r. r.0.corpo.pid ≡ pid r.1) xs r ys
        (subst (All (λ r. r.0.corpo.pid ≡ pid r.1)) e v.pedidos) in
    record {
      valido = record { clientes = v.clientes; pedidos = rest; fila = v.fila; recibos = v.recibos };
      menos = λ i. omega (arith, ap (soma (pedido_de i)) e, soma-sem (pedido_de i) xs r ys);
      conta = inr (inl (omega arith));
    }
Anda-Avanca {s} pid (perde_resposta r xs ys e) w v =
    let (one, rest) =
      All-sem (λ r. IsRecibo (pid r.0) r.1) xs r ys (subst (Recibos pid) e v.recibos) in
    record {
      valido = record { clientes = v.clientes; pedidos = v.pedidos; fila = v.fila; recibos = rest };
      menos = λ i. omega (arith, ap (soma (resposta_a i)) e, soma-sem (resposta_a i) xs r ys);
      conta = inr (inl (omega arith));
    }
