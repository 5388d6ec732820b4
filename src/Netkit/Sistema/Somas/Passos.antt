-- ===== src/Netkit/Sistema/Somas/Passos.antt =====
-- Every round of the system of LAB2-NETKIT is defined, its signed sums included.
use unifesp_sd.Base.{
  ℕ, ◌+◌, ◌-◌, ◌*◌, ◌^◌, ◌≤◌, ◌≡◌, ◌≢◌, refl, subst, ◌∙◌, sym, inl, inr, true, List, [], ◌∷◌, ◌++◌,
  map, arith, All, All-append, All-sem, Bool-cases, ◌==◌,
}
use unifesp_sd.Base.Int.{ℤ, pos, ◌+ℤ◌, ◌==ℤ◌, ==ℤ_iff, i32, IsCurto}
use unifesp_sd.Netkit.Mensagem.{Request, Datagrama, reply_allow}
use unifesp_sd.Netkit.Servidor
use unifesp_sd.Netkit.Servidor.Invariante.{IsPid, IsInteira}
use unifesp_sd.Netkit.Servidor.Somas.{SomasCabem, inteira-SomasCabem}
use unifesp_sd.Netkit.Cliente.{Cliente, pedindo, esperando}
use unifesp_sd.Netkit.Cliente
use unifesp_sd.Netkit.Coordenador.Refina.{entrega}
use unifesp_sd.Netkit.Coordenador.Corrida.{Recado}
use unifesp_sd.Netkit.Sistema.{
  Sistema, troca, de_cliente, ao_pedir, ao_receber, Anda, pede, recebe, serve, perde_pedido,
  perde_resposta, Alcanca, aqui, mais, peso_resposta,
}
use unifesp_sd.Netkit.Sistema.Ficha.{partida, partida-Conserva, Prossegue, rodada_segue}
use unifesp_sd.Netkit.Sistema.Tipos.{Deixa}
use unifesp_sd.Netkit.Sistema.Valor.{usos}
use unifesp_sd.Netkit.Sistema.Valor.LadoCliente.{recebe-rec}
use unifesp_sd.Netkit.Sistema.Valor.Usos.{uso-le, conta_usos}
use unifesp_sd.Netkit.Sistema.Somas.{passos, SomasDaResposta, Ate, Relogios}
use unifesp_sd.Netkit.Sistema.Somas.LadoCliente.{
  Anota, Ate-le, Ate-IsCurto, resto-IsCurto, pede-Anota, recebe-Anota,
}

-- Each round that can be made from here goes on, and the signed sums in it fit: of the server on a
-- message, of a client that asks, and of a client that waits.
pub record Definida (s : Sistema) : Type 0 where
  pub servidor :
      (d : Datagrama) (i k : ℕ) (xs ys : List (Recado ℕ))
      → s.ao_servidor ≡ xs ++ (d, i, k) ∷ ys
      → Prossegue (Servidor.itera s.servidor (entrega d i k)) × SomasCabem s.servidor d
  pub pedido :
      (i : ℕ)
      → (s.clientes i).fase ≡ pedindo
      → Prossegue (Cliente.itera (s.clientes i) ao_pedir) × IsCurto (s.clientes i).tempo
  pub resposta :
      (i : ℕ) (d : Datagrama) (xs ys : List (ℕ × Datagrama))
      → s.aos_clientes ≡ xs ++ (i, d) ∷ ys
      → (s.clientes i).fase ≡ esperando
      → Prossegue (Cliente.itera (s.clientes i) (ao_receber d))
        × (d.corpo.cod ≡ reply_allow → SomasDaResposta (s.clientes i) d)

abbrev Curtos : List (Recado ℕ) → Type 0
Curtos = All (λ r. IsCurto r.0.corpo.tempo)

map-Curtos :
    (j : ℕ) (ms : List Datagrama)
    → All (λ m. IsCurto m.corpo.tempo) ms
    → Curtos (map (de_cliente j) ms)
map-Curtos j [] h = tt
map-Curtos j (m ∷ ms) h = (h.0, map-Curtos j ms h.1)

troca-Ate :
    (b : ℕ) (f : ℕ → Cliente) (j : ℕ) (c : Cliente)
    → ((i : ℕ) → Ate b (f i).tempo)
    → Ate (b + 2) c.tempo
    → (i : ℕ) → Ate (b + 2) (troca f j c i).tempo
troca-Ate b f j c h k i = elim (Bool-cases (j == i)) [
  | inl y ↦ rw y k
  | inr n ↦ rw n (Ate-le b (f i).tempo (h i))
]

rodada-Relogios :
    (b : ℕ) (s : Sistema) (j : ℕ) (rs : List (ℕ × Datagrama)) (c : Cliente) (ms : List Datagrama)
    → Relogios b s
    → Anota (b + 2) c ms
    → Relogios (b + 2) (record s {
      clientes = troca s.clientes j c;
      ao_servidor = s.ao_servidor ++ map (de_cliente j) ms;
      aos_clientes = rs;
    })
rodada-Relogios b s j rs c ms h k = record {
  clientes = troca-Ate b s.clientes j c h.clientes k.0;
  pedidos =
      All-append (λ r. IsCurto r.0.corpo.tempo) s.ao_servidor (map (de_cliente j) ms) h.pedidos
        (map-Curtos j ms k.1);
}

sem_pedido :
    (rs xs : List (Recado ℕ)) (r : Recado ℕ) (ys : List (Recado ℕ))
    → Curtos rs
    → rs ≡ xs ++ r ∷ ys
    → IsCurto r.0.corpo.tempo × Curtos (xs ++ ys)
sem_pedido rs xs r ys h e = All-sem (λ r. IsCurto r.0.corpo.tempo) xs r ys (subst Curtos e h)

mais_tarde : (b : ℕ) (s : Sistema) → Relogios b s → (i : ℕ) → Ate (b + 2) (s.clientes i).tempo
mais_tarde b s h i = Ate-le b (s.clientes i).tempo (h.clientes i)

Anda-Relogios :
    {s t : Sistema} {k : ℕ} (b : ℕ)
    → Anda s k t
    → b + 2 ≤ 2 ^ 31 - 1
    → Relogios b s
    → Relogios (b + 2) t
Anda-Relogios {s} b (pede i p run) fits h =
    rodada-Relogios b s i s.aos_clientes _ _ h
      (subst (Deixa (Anota (b + 2))) run (pede-Anota b (s.clientes i) (h.clientes i) fits p))
Anda-Relogios {s} b (recebe i d xs ys e p run) fits h =
    rodada-Relogios b s i (xs ++ ys) _ _ h
      (subst (Deixa (Anota (b + 2))) run (recebe-Anota b (s.clientes i) d (h.clientes i) fits p))
Anda-Relogios {s} b (serve d i n xs ys e run) fits h = record {
  clientes = mais_tarde b s h;
  pedidos = (sem_pedido s.ao_servidor xs (d, i, n) ys h.pedidos e).1;
}
Anda-Relogios {s} b (perde_pedido r xs ys e) fits h = record {
  clientes = mais_tarde b s h;
  pedidos = (sem_pedido s.ao_servidor xs r ys h.pedidos e).1;
}
Anda-Relogios {s} b (perde_resposta r xs ys e) fits h = record {
  clientes = mais_tarde b s h;
  pedidos = h.pedidos;
}

usos-le : {s t : Sistema} {n : ℕ} (r : Alcanca s n t) → usos r ≤ passos r
usos-le aqui = omega arith
usos-le (mais r st e) = omega (arith, usos-le r, uso-le st)

module _ (a b c : Request) (pid : ℕ → ℤ) (req resp : ℕ → Request) (cabe : (i : ℕ) → IsPid (pid i))
    (vivo : (i : ℕ) → pid i ≢ pos 0) where
  partida-Relogios : Relogios 0 (partida a b c pid req resp)
  unfolding Cliente.inicio
  partida-Relogios = record {
    clientes = λ i. record { acima = omega arith; abaixo = refl };
    pedidos = tt;
  }

  Alcanca-Relogios :
      {n : ℕ} {s : Sistema} (r : Alcanca (partida a b c pid req resp) n s)
      → 2 * passos r ≤ 2 ^ 31 - 1
      → Relogios (2 * passos r) s
  Alcanca-Relogios aqui fits = partida-Relogios
  Alcanca-Relogios {s} (mais r st e) fits =
      subst (λ k. Relogios k s) (omega arith)
        (Anda-Relogios (2 * passos r) st (omega arith) (Alcanca-Relogios r (omega arith)))

  resposta-Somas :
      {n : ℕ} {s : Sistema} (r : Alcanca (partida a b c pid req resp) n s) (i : ℕ) (d : Datagrama)
      (xs ys : List (ℕ × Datagrama))
      → 2 * passos r + 32 ≤ 2 ^ 31 - 1
      → s.aos_clientes ≡ xs ++ (i, d) ∷ ys
      → d.corpo.cod ≡ reply_allow
      → SomasDaResposta (s.clientes i) d
  resposta-Somas {s} r i d xs ys fits e q =
      let v = (partida-Conserva a b c pid req resp cabe vivo r).valido in
      let used = usos-le r in
      let value = conta_usos a b c pid req resp cabe vivo r (omega arith) in
      let yes : (d.corpo.cod ==ℤ reply_allow) ≡ true = (==ℤ_iff d.corpo.cod reply_allow).1 q in
      let long =
        (All-sem (λ r. 5 ≤ r.1.tamanho) xs (i, d) ys
          (subst (All (λ r. 5 ≤ r.1.tamanho)) e v.respostas)).0 in
      let carried : d.corpo.rec ≡ pos (30 + usos r) =
        (All-sem (λ m. 1 ≤ peso_resposta m.1 → m.1.corpo.rec ≡ pos (30 + usos r)) xs (i, d) ys
            (subst (All (λ m. 1 ≤ peso_resposta m.1 → m.1.corpo.rec ≡ pos (30 + usos r))) e
              value.respostas)).0
          (rw yes (omega arith)) in
      let z = (s.clientes i).tempo in
      record {
        recebido =
            Ate-IsCurto (2 * passos r) z ((Alcanca-Relogios r (omega arith)).clientes i)
              (omega arith);
        tique = resto-IsCurto (i32 (z +ℤ pos 1));
        rec =
            subst IsCurto (sym (recebe-rec d (s.clientes i).resp long ∙ carried))
              (record { acima = omega arith; abaixo = omega arith });
      }

  -- In a run of the system that is not too long (a thousand million steps are not), each round that
  -- can be made is defined and goes on, if its `sendto` and `recvfrom` succeed: it dereferences no
  -- NULL and divides by no 0, and no signed sum in it overflows. So it is for a round of the server on
  -- any message that is on its way, for that of a client that asks, and for that of a client that
  -- waits, on any datagram that is on its way to it. PIDs are not 0 and have a low byte other than
  -- 255.
  pub rodada-Definida :
      {n : ℕ} {s : Sistema} (r : Alcanca (partida a b c pid req resp) n s)
      → 2 * passos r + 32 ≤ 2 ^ 31 - 1
      → Definida s
  rodada-Definida {s} r fits =
      let (serving, asking, waiting) = rodada_segue a b c pid req resp cabe vivo r in
      let v = (partida-Conserva a b c pid req resp cabe vivo r).valido in
      let clocks = Alcanca-Relogios r (omega arith) in
      record {
        servidor = λ d i k xs ys e.
            let whole =
              (All-sem (λ r. IsInteira r.0) xs (d, i, k) ys
                (subst (All (λ r. IsInteira r.0)) e v.pedidos)).0 in
            (
              serving d i k xs ys e,
              inteira-SomasCabem s.servidor d v.servidor whole
                  (sem_pedido s.ao_servidor xs (d, i, k) ys clocks.pedidos e).0,
            );
        pedido = λ i p. (
          asking i p,
          Ate-IsCurto (2 * passos r) (s.clientes i).tempo (clocks.clientes i) (omega arith),
        );
        resposta = λ i d xs ys e p. (waiting i d xs ys e p, resposta-Somas r i d xs ys fits e);
      }
