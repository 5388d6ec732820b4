-- ===== src/Netkit/Sistema/Pendencia/Espera.antt =====
-- A client of the system that waits is waited for.
use unifesp_sd.Base.{
  ℕ, ◌+◌, ◌≤◌, ◌<◌, ◌≡◌, ◌≢◌, refl, ap, subst, ◌∙◌, sym, inl, inr, true, List, [], ◌∷◌, ◌++◌, arith,
  length, All, All-sem, Bool-cases, ◌==◌,
}
use unifesp_sd.Base.Int.{ℤ, pos, ◌==ℤ◌, ==ℤ_iff}
use unifesp_sd.Fila.{procura, init}
use unifesp_sd.Netkit.Mensagem.{Request, Datagrama, reply_allow}
use unifesp_sd.Netkit.Servidor.{Sitem, sitem_chave}
use unifesp_sd.Netkit.Servidor
use unifesp_sd.Netkit.Servidor.Invariante.{IsPid, livre}
use unifesp_sd.Netkit.Cliente.{Fase, pedindo, esperando}
use unifesp_sd.Netkit.Cliente
use unifesp_sd.Netkit.Sistema.{
  Sistema, Anda, Alcanca, aqui, mais, soma, soma-sem, peso_livre, peso_devolucao, peso_resposta,
  fichas,
}
use unifesp_sd.Netkit.Coordenador.Corrida.{Recado}
use unifesp_sd.Netkit.Sistema.Passos.{IsSistema}
use unifesp_sd.Netkit.Sistema.Ficha.{partida, partida-Conserva, uma_ficha}
use unifesp_sd.Netkit.Sistema.Pendencia.{
  pedido_de, lugar_de, resposta_a, pendencias, peso_fase, espera_de,
}
use unifesp_sd.Netkit.Sistema.Pendencia.LadoServidor.{Identifica}
use unifesp_sd.Netkit.Sistema.Pendencia.Avanco.{Identificado, Recusou}
use unifesp_sd.Netkit.Sistema.Pendencia.Passos.{Anda-Avanca}

pub peso_fase-le : (f : Fase) → peso_fase f ≤ 1
peso_fase-le pedindo = omega arith
peso_fase-le esperando = omega arith

fase_de : (f : Fase) → 1 ≤ peso_fase f → f ≡ esperando
fase_de pedindo h = absurd (omega arith)
fase_de esperando h = refl

-- A run that loses no datagram, with a free place in the queue before each step.
pub data Folgada (s : Sistema) : Sistema → Type 0 where
  parada : Folgada s s
  adiante :
      {t u : Sistema} → Folgada s t → length t.servidor.fila.head < 10 → Anda t 0 u → Folgada s u

pub Folgada-Alcanca : {s t : Sistema} → Folgada s t → Alcanca s 0 t
Folgada-Alcanca parada = aqui
Folgada-Alcanca (adiante r room st) = mais (Folgada-Alcanca r) st refl

-- An entry with the PID of client `j` is that client's.
procura-lugar :
    (pid : ℕ → ℤ) (j : ℕ) (xs : List (Sitem ℕ))
    → ((i k : ℕ) → pid i ≡ pid k → i ≡ k)
    → Identifica pid xs
    → procura (pid j) xs ≡ true
    → 1 ≤ soma (lugar_de j) xs
unfolding procura
procura-lugar pid j [] inj ids e = absurd (cc)
procura-lugar pid j (x ∷ xs) inj (own, ids) e = elim (Bool-cases (x.pid ==ℤ pid j)) [
  | inl y ↦
      let same : j ≡ x.caddr = inj j x.caddr (sym ((==ℤ_iff x.pid (pid j)).0 y) ∙ own) in
      ground (arith, same)
  | inr n ↦
      let rest : procura (pid j) xs ≡ true = ground arith in
      let ih = procura-lugar pid j xs inj ids rest in omega arith
]

module _ (pid : ℕ → ℤ) (distintos : (i k : ℕ) → pid i ≡ pid k → i ≡ k) where
  -- Nothing is refused where the queue has room, and each client waits for one thing at most.
  pub nao_recusa :
      (s : Sistema)
      → Identificado pid s
      → length s.servidor.fila.head < 10
      → ((i : ℕ) → pendencias i s ≤ espera_de i s)
      → ¬ Recusou s
  nao_recusa s v room few r =
      let j = r.j in
      let own =
        (All-sem (λ r. r.0.corpo.pid ≡ pid r.1) r.xs (r.d, j, r.n) r.ys
          (subst (All (λ r. r.0.corpo.pid ≡ pid r.1)) r.caminho v.pedidos)).0 in
      let here =
        ap (soma (pedido_de j)) r.caminho ∙ soma-sem (pedido_de j) r.xs (r.d, j, r.n) r.ys in
      let mine : pedido_de j (r.d, j, r.n) ≡ 1 =
        let p = r.pede in let z : (j == j) ≡ true = ground arith in rw z p in
      let one = few j in
      let le = peso_fase-le (s.clientes j).fase in
      elim r.motivo [
        | inl full ↦ absurd (omega arith)
        | inr known ↦
            let two =
              procura-lugar pid j s.servidor.fila.head distintos v.fila
                (subst (λ p. procura p s.servidor.fila.head ≡ true) own known) in
            absurd (omega arith)
      ]

soma-fila : (i : ℕ) (xs : List (Sitem ℕ)) → xs ≡ [] → soma (lugar_de i) xs ≡ 0
soma-fila i xs e = ap (soma (lugar_de i)) e

-- With nothing under way the token is free, and then the queue is empty.
parado_livre :
    (i : ℕ) (s : Sistema) (xs : List (Recado ℕ)) (ys : List (ℕ × Datagrama))
    → s.ao_servidor ≡ xs
    → s.aos_clientes ≡ ys
    → IsSistema s
    → 1 ≤ fichas s + 0
    → 1 ≤ pendencias i s
    → 1 ≤ length s.ao_servidor + length s.aos_clientes
parado_livre i s (x ∷ xs) ys e f w ficha one = omega (arith, ap length e)
parado_livre i s [] (y ∷ ys) e f w ficha one = omega (arith, ap length f)
parado_livre i s [] [] e f w ficha one =
    let g = ap (soma (λ r. peso_devolucao r.0)) e in
    let h = ap (soma (λ r. peso_resposta r.1)) f in
    let j = ap (soma (pedido_de i)) e in
    let k = ap (soma (resposta_a i)) f in
    elim w.servidor.espera [
      | inl busy ↦ let z : peso_livre (livre s.servidor) ≡ 0 = rw busy refl in absurd (omega arith)
      | inr empty ↦ absurd (omega (arith, soma-fila i s.servidor.fila.head empty))
    ]

-- What holds of the clients of a reached state.
pub record Registro (pid : ℕ → ℤ) (s : Sistema) : Type 0 where
  pub valido : Identificado pid s
  pub conta : (i : ℕ) → pendencias i s ≤ espera_de i s

module _ (a b c : Request) (pid : ℕ → ℤ) (req resp : ℕ → Request) (cabe : (i : ℕ) → IsPid (pid i))
    (vivo : (i : ℕ) → pid i ≢ pos 0) where
  partida-Registro : Registro pid (partida a b c pid req resp)
  unfolding Servidor.inicio Cliente.inicio init
  partida-Registro = record {
    valido = record { clientes = λ i. refl; pedidos = tt; fila = tt; recibos = tt };
    conta = λ i. omega arith;
  }

  pub Alcanca-Registro :
      {n : ℕ} {s : Sistema} → Alcanca (partida a b c pid req resp) n s → Registro pid s
  Alcanca-Registro aqui = partida-Registro
  Alcanca-Registro (mais r st e) =
      let g = Alcanca-Registro r in
      let k =
        Anda-Avanca pid st (partida-Conserva a b c pid req resp cabe vivo r).valido g.valido in
      record { valido = k.valido; conta = λ i. omega (arith, k.menos i, g.conta i) }

  -- Whatever the system does and the network loses, a client has nothing under way or in the queue
  -- unless it waits, and then one thing at most: its request on the way, an entry of the queue, or a
  -- reply on the way to it.
  pub uma_pendencia :
      {n : ℕ} {s : Sistema} (i : ℕ)
      → Alcanca (partida a b c pid req resp) n s
      → pendencias i s ≤ espera_de i s
  uma_pendencia i r = (Alcanca-Registro r).conta i

  -- The token is never on the way to a client that does not wait for it.
  pub resposta_esperada :
      {n : ℕ} {s : Sistema} (i : ℕ) (d : Datagrama) (xs ys : List (ℕ × Datagrama))
      → Alcanca (partida a b c pid req resp) n s
      → s.aos_clientes ≡ xs ++ (i, d) ∷ ys
      → d.corpo.cod ≡ reply_allow
      → (s.clientes i).fase ≡ esperando
  resposta_esperada {s} i d xs ys r e q =
      let here = ap (soma (resposta_a i)) e ∙ soma-sem (resposta_a i) xs (i, d) ys in
      let one : resposta_a i (i, d) ≡ 1 =
        let z : (i == i) ≡ true = ground arith in rw (z, q) refl in
      let few = uma_pendencia i r in fase_de (s.clientes i).fase (omega arith)

  -- The same clients, where their PIDs differ.
  module _ (distintos : (i k : ℕ) → pid i ≡ pid k → i ≡ k) where
    -- Nobody is forgotten: in a run that loses no datagram, with a free place in the queue before each
    -- step, a client that waits has exactly one thing under way or in the queue: its request, its
    -- entry, or a reply to it.
    pub ninguem_esquecido :
        {s : Sistema} (i : ℕ)
        → Folgada (partida a b c pid req resp) s
        → pendencias i s ≡ espera_de i s
    unfolding Servidor.inicio Cliente.inicio
    ninguem_esquecido i parada = let h = partida-Registro.conta i in omega arith
    ninguem_esquecido i (adiante {t} r room st) =
        let g = Alcanca-Registro (Folgada-Alcanca r) in
        let k =
          Anda-Avanca pid st
            (partida-Conserva a b c pid req resp cabe vivo (Folgada-Alcanca r)).valido g.valido in
        let before = ninguem_esquecido i r in
        elim k.conta [
          | inl f ↦ omega (arith, f i)
          | inr (inl lost) ↦ absurd (omega arith)
          | inr (inr o) ↦ absurd (nao_recusa pid distintos t g.valido room g.conta o)
        ]

    -- Nor does the system come to rest while a client waits: then a datagram is on its way, to the
    -- server or to a client.
    pub sem_impasse :
        {s : Sistema} (i : ℕ)
        → Folgada (partida a b c pid req resp) s
        → (s.clientes i).fase ≡ esperando
        → 1 ≤ length s.ao_servidor + length s.aos_clientes
    sem_impasse {s} i r p =
        let one = ninguem_esquecido i r in
        let waits : espera_de i s ≡ 1 = rw p refl in
        let ficha = uma_ficha a b c pid req resp cabe vivo (Folgada-Alcanca r) in
        let w = partida-Conserva a b c pid req resp cabe vivo (Folgada-Alcanca r) in
        parado_livre i s s.ao_servidor s.aos_clientes refl refl w.valido (ficha.1) (omega arith)
