-- ===== src/Netkit/Sistema/Ficha.antt =====
-- The token of the system: there is one, and a lost datagram is all that can take it away.
use unifesp_sd.Base.{
  ℕ, ◌+◌, ◌≤◌, ◌≡◌, ◌≢◌, refl, ap, subst, ◌∙◌, false, List, [], ◌∷◌, ◌++◌, arith, All, All-sem,
}
use unifesp_sd.Base.Int.{ℤ, pos}
use unifesp_sd.Netkit.Mensagem.{Request, Datagrama, Passo, segue, reply_allow}
use unifesp_sd.Netkit.Servidor.{Servidor, Envio}
use unifesp_sd.Netkit.Servidor
use unifesp_sd.Netkit.Servidor.Invariante.{livre, IsPid, IsInteira, inicio-IsServidor}
use unifesp_sd.Netkit.Cliente.{Cliente, pedindo, esperando}
use unifesp_sd.Netkit.Cliente
use unifesp_sd.Netkit.Coordenador.Refina.{entrega}
use unifesp_sd.Netkit.Coordenador.Corrida.{Recado}
use unifesp_sd.Netkit.Sistema.{
  Sistema, ao_pedir, ao_receber, perde_resposta, Alcanca, soma, soma-sem, peso_devolucao,
  peso_resposta, fichas,
}
use unifesp_sd.Netkit.Sistema.LadoCliente.{Rodada, rodada, pede-Rodada, recebe-Rodada}
use unifesp_sd.Netkit.Sistema.LadoServidor.{Turno, turno, itera-Turno}
use unifesp_sd.Netkit.Sistema.Passos.{IsSistema, Conserva, Anda-Conserva, Alcanca-Conserva}

-- The round goes on.
abbrev pub Prossegue : {S M : Type 0} → Passo S M → Type 0
Prossegue {S} {M} r = (t : S) × (ms : List M) × (r ≡ segue t ms)

Rodada-Prossegue : {p : ℤ} {n : ℕ} {r : Passo Cliente Datagrama} → Rodada p n r → Prossegue r
Rodada-Prossegue (rodada {c'} {ms} x y z) = (c', ms, refl)

Turno-Prossegue :
    {s : Servidor ℕ} {d : Datagrama} {r : Passo (Servidor ℕ) (Envio ℕ)} → Turno s d r → Prossegue r
Turno-Prossegue (turno {t} {ms} x y z) = (t, ms, refl)

-- The start of the programs, whatever their buffers hold.
abbrev pub partida : Request → Request → Request → (ℕ → ℤ) → (ℕ → Request) → (ℕ → Request) → Sistema
partida a b c pid req resp = record {
  servidor = Servidor.inicio a b c;
  clientes = λ i. Cliente.inicio (pid i) (req i) (resp i);
  ao_servidor = [];
  aos_clientes = [];
}

module _ (a b c : Request) (pid : ℕ → ℤ) (req resp : ℕ → Request) (cabe : (i : ℕ) → IsPid (pid i))
    (vivo : (i : ℕ) → pid i ≢ pos 0) where
  pub partida-IsSistema : IsSistema (partida a b c pid req resp)
  unfolding Cliente.inicio
  partida-IsSistema = record {
    servidor = inicio-IsServidor a b c;
    clientes = λ i. record { pid = cabe i; vivo = vivo i };
    pedidos = tt;
    respostas = tt;
  }

  fichas-partida : fichas (partida a b c pid req resp) ≡ 1
  unfolding Servidor.inicio
  fichas-partida = refl

  pub partida-Conserva :
      {n : ℕ} {s : Sistema}
      → Alcanca (partida a b c pid req resp) n s
      → Conserva (partida a b c pid req resp) n s
  partida-Conserva r = Alcanca-Conserva partida-IsSistema (omega (arith, fichas-partida)) r

  -- Of the server and any number of clients, whose PIDs are not 0 and have a low byte other than 255:
  -- however their rounds interleave and whatever the network delays, reorders or loses, there is at
  -- most one token, free in the server or in a datagram on its way; and there is one, unless a
  -- datagram was lost.
  pub uma_ficha :
      {n : ℕ} {s : Sistema}
      → Alcanca (partida a b c pid req resp) n s
      → (fichas s ≤ 1) × (1 ≤ fichas s + n)
  uma_ficha r =
      let k = partida-Conserva r in (omega (arith, fichas-partida), omega (arith, fichas-partida))

  -- However that system runs, no round dereferences NULL, divides by 0 or ends its program, if its
  -- `sendto` and `recvfrom` succeed: that of the server on any message that is on its way, that of a client
  -- that asks, and that of a client that waits, on any datagram that is on its way to it.
  pub rodada_segue :
      {n : ℕ} {s : Sistema}
      → Alcanca (partida a b c pid req resp) n s
      → ((d : Datagrama) (i k : ℕ) (xs ys : List (Recado ℕ))
          → s.ao_servidor ≡ xs ++ (d, i, k) ∷ ys
          → Prossegue (Servidor.itera s.servidor (entrega d i k)))
        × ((i : ℕ)
            → (s.clientes i).fase ≡ pedindo
            → Prossegue (Cliente.itera (s.clientes i) ao_pedir))
        × ((i : ℕ) (d : Datagrama) (xs ys : List (ℕ × Datagrama))
            → s.aos_clientes ≡ xs ++ (i, d) ∷ ys
            → (s.clientes i).fase ≡ esperando
            → Prossegue (Cliente.itera (s.clientes i) (ao_receber d)))
  rodada_segue {s} r =
      let v = (partida-Conserva r).valido in
      (
        (λ d i k xs ys e.
            let h =
              All-sem (λ r. IsInteira r.0) xs (d, i, k) ys
                (subst (All (λ r. IsInteira r.0)) e v.pedidos) in
            Turno-Prossegue (itera-Turno s.servidor d i k v.servidor h.0)),
        (λ i p. Rodada-Prossegue (pede-Rodada (s.clientes i) (v.clientes i) p)),
        (λ i d xs ys e p.
            let h =
              All-sem (λ r. 5 ≤ r.1.tamanho) xs (i, d) ys
                (subst (All (λ r. 5 ≤ r.1.tamanho)) e v.respostas) in
            Rodada-Prossegue (recebe-Rodada (s.clientes i) d (v.clientes i) p h.0)),
      )

  -- The protocol does not recover: once the datagram that brings the token to a client is lost, the
  -- server is never free again and no reply and no release is ever on its way, however the system
  -- goes on from there.
  pub resposta_perdida :
      {n m : ℕ} {s t : Sistema} (i : ℕ) (d : Datagrama) (xs ys : List (ℕ × Datagrama))
      → Alcanca (partida a b c pid req resp) n s
      → s.aos_clientes ≡ xs ++ (i, d) ∷ ys
      → d.corpo.cod ≡ reply_allow
      → Alcanca (record s { aos_clientes = xs ++ ys }) m t
      → (livre t.servidor ≡ false)
        × (soma (λ r. peso_devolucao r.0) t.ao_servidor ≡ 0)
        × (soma (λ r. peso_resposta r.1) t.aos_clientes ≡ 0)
  resposta_perdida {s} {t} i d xs ys r e q later =
      let k = partida-Conserva r in
      let one : peso_resposta d ≡ 1 = rw q in
      let less =
        ap (soma (λ r. peso_resposta r.1)) e ∙ soma-sem (λ r. peso_resposta r.1) xs (i, d) ys in
      let start =
        Anda-Conserva {s = s} (perde_resposta (i, d) xs ys e) k.valido
          (omega (arith, fichas-partida)) in
      let gone : fichas (record s { aos_clientes = xs ++ ys }) ≡ 0 =
        omega (arith, fichas-partida) in
      let after = Alcanca-Conserva start.valido (omega arith) later in
      let none_left : fichas t ≡ 0 = omega arith in (ground arith, omega arith, omega arith)
