-- ===== src/Netkit/Sistema/Passos.antt =====
-- What the steps of the system do to its tokens.
use unifesp_sd.Base.{
  ℕ, ◌+◌, ◌≤◌, ◌≡◌, refl, ap, subst, ◌∙◌, List, [], ◌∷◌, ◌++◌, map, arith, All, All-append, All-sem,
  ◌==◌, Bool-cases, inl, inr,
}
use unifesp_sd.Base.Int.{ℤ}
use unifesp_sd.Netkit.Mensagem.{Datagrama, Passo, segue}
use unifesp_sd.Netkit.Servidor.{Servidor, Envio}
use unifesp_sd.Netkit.Servidor.Invariante.{IsInteira, IsServidor}
use unifesp_sd.Netkit.Cliente.{Cliente, pedindo, esperando}
use unifesp_sd.Netkit.Cliente
use unifesp_sd.Netkit.Coordenador.Corrida.{Recado}
use unifesp_sd.Netkit.Sistema.{
  Sistema, troca, de_cliente, de_servidor, ao_pedir, ao_receber, Anda, pede, recebe, serve,
  perde_pedido, perde_resposta, Alcanca, aqui, mais, soma, soma-append, soma-sem, peso_devolucao,
  peso_resposta, fichas,
}
use unifesp_sd.Netkit.Sistema.LadoCliente.{IsCliente, Rodada, rodada, pede-Rodada, recebe-Rodada}
use unifesp_sd.Netkit.Sistema.LadoServidor.{Rotuladas, Turno, turno, itera-Turno}

-- What holds between rounds: the server's invariant, clients that the server can tell apart from a
-- free token, whole messages to the server, and datagrams to the clients that say what they are.
pub record IsSistema (s : Sistema) : Type 0 where
  pub servidor : IsServidor s.servidor
  pub clientes : (i : ℕ) → IsCliente (s.clientes i)
  pub pedidos : All (λ r. IsInteira r.0) s.ao_servidor
  pub respostas : All (λ r. 5 ≤ r.1.tamanho) s.aos_clientes

troca-IsCliente :
    (f : ℕ → Cliente) (i : ℕ) (c : Cliente)
    → ((j : ℕ) → IsCliente (f j))
    → c.pid ≡ (f i).pid
    → (j : ℕ) → IsCliente (troca f i c j)
troca-IsCliente f i c h e j = elim (Bool-cases (i == j)) [
  | inl y ↦ rw y (record { pid = rw e (h i).pid; vivo = rw e (h i).vivo })
  | inr n ↦ rw n (h j)
]

map-IsInteira :
    (i : ℕ) (ms : List Datagrama)
    → All (λ d. IsInteira d) ms
    → All (λ r. IsInteira r.0) (map (de_cliente i) ms)
map-IsInteira i [] h = tt
map-IsInteira i (m ∷ ms) h = (h.0, map-IsInteira i ms h.1)

map-Rotuladas :
    (ms : List (Envio ℕ)) → Rotuladas ms → All (λ r. 5 ≤ r.1.tamanho) (map de_servidor ms)
map-Rotuladas [] h = tt
map-Rotuladas (m ∷ ms) h = (h.0, map-Rotuladas ms h.1)

pub soma-de_cliente :
    (i : ℕ) (ms : List Datagrama)
    → soma (λ r. peso_devolucao r.0) (map (de_cliente i) ms) ≡ soma peso_devolucao ms
soma-de_cliente i [] = refl
soma-de_cliente i (m ∷ ms) = omega (arith, soma-de_cliente i ms)

-- What a step with `k` losses does, from `s` to `t`.
pub record Conserva (s : Sistema) (k : ℕ) (t : Sistema) : Type 0 where
  pub valido : IsSistema t
  pub nao_cresce : fichas t ≤ fichas s
  pub perdidas : fichas s ≤ fichas t + k

pub Rodada-segue :
    {p : ℤ} {n : ℕ} {c : Cliente} {ms : List Datagrama} {r : Passo Cliente Datagrama}
    → r ≡ segue c ms
    → Rodada p n r
    → (c.pid ≡ p) × All (λ d. IsInteira d) ms × (soma peso_devolucao ms ≡ n)
Rodada-segue {p} {n} {c} {ms} e h = go (subst (Rodada p n) e h)
  where
    go :
        Rodada p n (segue c ms)
        → (c.pid ≡ p) × All (λ d. IsInteira d) ms × (soma peso_devolucao ms ≡ n)
    go (rodada x y z) = (x, y, z)

-- What client `i` sends on a round, put behind the datagrams to the server.
enviado-Conserva :
    (s : Sistema) (i : ℕ) (n : ℕ) {c : Cliente} {ms : List Datagrama} (rs : List (ℕ × Datagrama))
    → IsSistema s
    → Rodada (s.clientes i).pid n (segue c ms)
    → All (λ r. 5 ≤ r.1.tamanho) rs
    → soma (λ r. peso_resposta r.1) s.aos_clientes ≡ n + soma (λ r. peso_resposta r.1) rs
    → Conserva s 0 (record s {
      clientes = troca s.clientes i c;
      ao_servidor = s.ao_servidor ++ map (de_cliente i) ms;
      aos_clientes = rs;
    })
enviado-Conserva s i n {c} {ms} rs v h rot e =
    let (same, whole, releases) = Rodada-segue refl h in
    let add = soma-append (λ r. peso_devolucao r.0) s.ao_servidor (map (de_cliente i) ms) in
    let sent = soma-de_cliente i ms in
    record {
      valido = record {
        servidor = v.servidor;
        clientes = troca-IsCliente s.clientes i c v.clientes same;
        pedidos =
            All-append (λ r. IsInteira r.0) s.ao_servidor _ v.pedidos (map-IsInteira i ms whole);
        respostas = rot;
      };
      nao_cresce = omega arith;
      perdidas = omega arith;
    }

pede-Conserva :
    (s : Sistema) (i : ℕ) {c : Cliente} {ms : List Datagrama}
    → IsSistema s
    → (s.clientes i).fase ≡ pedindo
    → Cliente.itera (s.clientes i) ao_pedir ≡ segue c ms
    → Conserva s 0 (record s {
      clientes = troca s.clientes i c;
      ao_servidor = s.ao_servidor ++ map (de_cliente i) ms;
    })
pede-Conserva s i v p run =
    enviado-Conserva s i 0 s.aos_clientes v
      (subst (Rodada (s.clientes i).pid 0) run (pede-Rodada (s.clientes i) (v.clientes i) p))
      v.respostas (omega arith)

recebe-Conserva :
    (s : Sistema) (i : ℕ) (d : Datagrama) (xs ys : List (ℕ × Datagrama)) {c : Cliente}
    {ms : List Datagrama}
    → IsSistema s
    → s.aos_clientes ≡ xs ++ (i, d) ∷ ys
    → (s.clientes i).fase ≡ esperando
    → Cliente.itera (s.clientes i) (ao_receber d) ≡ segue c ms
    → Conserva s 0 (record s {
      clientes = troca s.clientes i c;
      ao_servidor = s.ao_servidor ++ map (de_cliente i) ms;
      aos_clientes = xs ++ ys;
    })
recebe-Conserva s i d xs ys v e p run =
    let there : All (λ r. 5 ≤ r.1.tamanho) (xs ++ (i, d) ∷ ys) =
      subst (All (λ r. 5 ≤ r.1.tamanho)) e v.respostas in
    let (long, rest) = All-sem (λ r. 5 ≤ r.1.tamanho) xs (i, d) ys there in
    enviado-Conserva s i (peso_resposta d) (xs ++ ys) v
      (subst (Rodada (s.clientes i).pid (peso_resposta d)) run
        (recebe-Rodada (s.clientes i) d (v.clientes i) p long))
      rest (ap (soma (λ r. peso_resposta r.1)) e ∙ soma-sem (λ r. peso_resposta r.1) xs (i, d) ys)

serve-Conserva :
    (s : Sistema) (d : Datagrama) (i n : ℕ) (xs ys : List (Recado ℕ)) {t : Servidor ℕ}
    {ms : List (Envio ℕ)}
    → IsSistema s
    → fichas s ≤ 1
    → s.ao_servidor ≡ xs ++ (d, i, n) ∷ ys
    → Turno s.servidor d (segue t ms)
    → Conserva s 0 (record s {
      servidor = t;
      ao_servidor = xs ++ ys;
      aos_clientes = s.aos_clientes ++ map de_servidor ms;
    })
serve-Conserva s d i n xs ys {ms} v few e (turno w rot balance) =
    let (whole, rest) =
      All-sem (λ r. IsInteira r.0) xs (d, i, n) ys (subst (All (λ r. IsInteira r.0)) e v.pedidos) in
    let less =
      ap (soma (λ r. peso_devolucao r.0)) e ∙ soma-sem (λ r. peso_devolucao r.0) xs (d, i, n) ys in
    let add = soma-append (λ r. peso_resposta r.1) s.aos_clientes (map de_servidor ms) in
    let b = balance (omega arith) in
    record {
      valido = record {
        servidor = w;
        clientes = v.clientes;
        pedidos = rest;
        respostas =
            All-append (λ r. 5 ≤ r.1.tamanho) s.aos_clientes _ v.respostas (map-Rotuladas ms rot);
      };
      nao_cresce = omega arith;
      perdidas = omega arith;
    }

pub Anda-Conserva :
    {s t : Sistema} {k : ℕ} → Anda s k t → IsSistema s → fichas s ≤ 1 → Conserva s k t
Anda-Conserva {s} (pede i p run) v few = pede-Conserva s i v p run
Anda-Conserva {s} (recebe i d xs ys e p run) v few = recebe-Conserva s i d xs ys v e p run
Anda-Conserva {s} (serve d i n xs ys e run) v few =
    let whole =
      (All-sem (λ r. IsInteira r.0) xs (d, i, n) ys
        (subst (All (λ r. IsInteira r.0)) e v.pedidos)).0 in
    serve-Conserva s d i n xs ys v few e
      (subst (Turno s.servidor d) run (itera-Turno s.servidor d i n v.servidor whole))
Anda-Conserva {s} (perde_pedido r xs ys e) v few =
    let (one, rest) =
      All-sem (λ r. IsInteira r.0) xs r ys (subst (All (λ r. IsInteira r.0)) e v.pedidos) in
    let less = ap (soma (λ r. peso_devolucao r.0)) e ∙ soma-sem (λ r. peso_devolucao r.0) xs r ys in
    record {
      valido = record {
        servidor = v.servidor;
        clientes = v.clientes;
        pedidos = rest;
        respostas = v.respostas;
      };
      nao_cresce = omega arith;
      perdidas = ground arith;
    }
Anda-Conserva {s} (perde_resposta r xs ys e) v few =
    let (one, rest) =
      All-sem (λ r. 5 ≤ r.1.tamanho) xs r ys (subst (All (λ r. 5 ≤ r.1.tamanho)) e v.respostas) in
    let less = ap (soma (λ r. peso_resposta r.1)) e ∙ soma-sem (λ r. peso_resposta r.1) xs r ys in
    record {
      valido = record {
        servidor = v.servidor;
        clientes = v.clientes;
        pedidos = v.pedidos;
        respostas = rest;
      };
      nao_cresce = omega arith;
      perdidas = ground arith;
    }

pub Alcanca-Conserva :
    {s t : Sistema} {n : ℕ} → IsSistema s → fichas s ≤ 1 → Alcanca s n t → Conserva s n t
Alcanca-Conserva v few aqui = record {
  valido = v;
  nao_cresce = omega arith;
  perdidas = omega arith;
}
Alcanca-Conserva {s} v few (mais {t} {u} r st e) =
    let a = Alcanca-Conserva v few r in
    let b = Anda-Conserva st a.valido (omega arith) in
    record { valido = b.valido; nao_cresce = omega arith; perdidas = omega arith }
