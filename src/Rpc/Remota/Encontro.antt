-- ===== src/Rpc/Remota/Encontro.antt =====
-- Two clients whose turns overlap, over the network.
use unifesp_sd.Base.{
  ℕ, suc, ◌+◌, ◌^◌, ◌<◌, ◌≡◌, ◌≢◌, refl, ap, ◌∙◌, true, none, some, List, [], ◌∷◌, arith,
}
use unifesp_sd.Base.Int.{
  ℤ, pos, negsuc, ◌+ℤ◌, ◌≤ℤ◌, ◌==ℤ◌, ==ℤ_iff, i32, i64, trunca, IsInt, i32-eq_of_IsInt,
}
use unifesp_sd.Fila.{Sfila, insere, procura, liga, conclui}
use unifesp_sd.Rpc.Mensagem.{RequestIn, ReplyOut}
use unifesp_sd.Rpc.Servidor.{
  Sitem, sitem_chave, novo_item, insere_int, Servidor, aguarda, retorna, espera_vez, req_1_svc,
}
use unifesp_sd.Rpc.Servidor.Invariante.{IsDez}
use unifesp_sd.Rpc.Cliente.{Cliente, pede, usa, Saida, retorna_com}
use unifesp_sd.Rpc.Ciclo.{vazia, IsLivre}
use unifesp_sd.Rpcgen.{Xdr}
use unifesp_sd.Rpcgen.Bytes.{Leis}
use unifesp_sd.Rpcgen.Ponteiro.{Clnt}
use unifesp_sd.Rpcgen.Rede.{Processo, ouvindo, preso, Rede}
use unifesp_sd.Rpc.Remota.{server_cent_1, req_1, rel_1, devolve, processa, rodada}
use unifesp_sd.Rpc.Remota.Rodada.{resposta_a, req_1-retorna}
use unifesp_sd.Rpc.Remota.Parada.{servico_parado}
use unifesp_sd.Rpc.Remota.Dobra.{Ate, i64-Ate, Ate-IsInt}

-- The queue with one entry.
abbrev uma : Sitem → Sfila Sitem
uma x = record { tamanho = 1; n = 10; head = x ∷ [] }

uma-IsDez : (x : Sitem) → IsDez (uma x)
unfolding procura
uma-IsDez x = record {
  fila = record { conta = refl; cabe = omega arith; ordem = (tt, tt); distintos = (refl, tt) };
  lugares = refl;
}

-- The server after the request of a client that found nobody in the queue.
abbrev concedido : Servidor → RequestIn → Servidor
concedido s req = record s {
  tempo = i64 (s.tempo +ℤ pos 1);
  fila = some (uma (novo_item req.pid_c req.tempo_c));
}

vazia-retorna :
    (k : ℕ) (s : Servidor) (req : RequestIn)
    → i32 req.pid_c ≡ req.pid_c
    → espera_vez (suc k) s req (insere_int vazia req.pid_c req.tempo_c)
      ≡ retorna (concedido s req) (resposta_a s req)
unfolding espera_vez insere_int insere procura liga conclui
vazia-retorna k s req fits =
    let mine : (i32 req.pid_c ==ℤ req.pid_c) ≡ true = (==ℤ_iff (i32 req.pid_c) req.pid_c).1 fits in
    rw (mine, aguarda) refl

livre-retorna :
    (k : ℕ) (s : Servidor) (req : RequestIn)
    → IsLivre s
    → i32 req.pid_c ≡ req.pid_c
    → req_1_svc (suc k) s req ≡ retorna (concedido s req) (resposta_a s req)
unfolding req_1_svc
livre-retorna k s req free fits =
    ap (λ f. espera_vez (suc k) s req (insere_int f req.pid_c req.tempo_c)) free
    ∙ vazia-retorna k s req fits

-- A tick keeps the order of two clocks, as `int`.
tique-mono :
    (d : ℕ) (x y : ℤ)
    → Ate d x
    → Ate d y
    → d + 1 < 2 ^ 31
    → x ≤ℤ y
    → i32 (i64 (x +ℤ pos 1)) ≤ℤ i32 (i64 (y +ℤ pos 1))
unfolding trunca ◌+ℤ◌
tique-mono d (pos m) (pos n) h k small e = let a = h.ate in let b = k.ate in ground arith
tique-mono d (pos m) (negsuc n) h k small e = let b = k.desde in absurd (omega arith)
tique-mono d (negsuc m) y h k small e = let a = h.desde in absurd (omega arith)

module _ {X : Type 0} (xdr : Xdr X) {W : Type 0} (clnt : Clnt W X) where
  -- A turn of `a` with a whole turn of `b` between the answer to its request and its use: what is left,
  -- and how the turns of `a` and of `b` ended.
  abbrev pub encontro : W → Cliente → Cliente → (W × Saida) × Saida
  encontro w a b =
      let (a', req) = pede a in
      let (w', rep) = req_1 xdr clnt w req in
      let (w'', fim) = rodada xdr clnt w' b in (processa xdr clnt a' (w'', rep), fim)

  -- A turn ends with -1 at a request, or a release, that is lost.
  rodada-perdida :
      (w p : W) (c : Cliente)
      → req_1 xdr clnt w (pede c).1 ≡ (p, none)
      → rodada xdr clnt w c ≡ (p, retorna_com (negsuc 0))
  unfolding rodada processa
  rodada-perdida w p c e = ap (processa xdr clnt (pede c).0) e

  processa-perdida :
      (w p : W) (c : Cliente) (rep : ReplyOut)
      → rel_1 xdr clnt w (usa c rep).1 ≡ (p, none)
      → processa xdr clnt c (w, some rep) ≡ (p, retorna_com (negsuc 0))
  unfolding processa devolve
  processa-perdida w p c rep e = ap (devolve xdr clnt (usa c rep).0) e

  encontro-perdido :
      (w v p : W) (a b : Cliente) (rep : ReplyOut)
      → req_1 xdr clnt w (pede a).1 ≡ (v, some rep)
      → req_1 xdr clnt v (pede b).1 ≡ (p, none)
      → rel_1 xdr clnt p (usa (pede a).0 rep).1 ≡ (p, none)
      → encontro w a b ≡ ((p, retorna_com (negsuc 0)), retorna_com (negsuc 0))
  encontro-perdido w v p a b rep e f g =
      rw (e, rodada-perdida v p b f, processa-perdida p p (pede a).0 rep g) refl

-- A format that holds every `int`.
module _ {X : Type 0} {escrita leitura : List ℕ → X} (xdr : Xdr X)
    (L : Leis escrita leitura xdr.xdr_long) (I : Leis escrita leitura xdr.xdr_int)
    (cabe : (z : ℤ) → IsInt z → L.Cabe z) (k : ℕ) {clnt : Clnt (Processo Servidor) X}
    (rede : Rede escrita leitura (server_cent_1 xdr (suc k)) clnt) where
  -- Two clients whose turns overlap stop the service, although nobody was in the queue: the first has
  -- the token, the second asks with a clock no earlier, and the server is stuck in that call; it never
  -- answers it, nor takes the release of the first, and both clients return -1. So it is for different
  -- PIDs, if the PIDs and the token are values of `int`, which the network's format holds, and the
  -- clocks are not negative and one tick from the largest `int` at most.
  pub encontro_para :
      (s : Servidor) (a b : Cliente) (d : ℕ)
      → IsLivre s
      → IsInt a.pid
      → IsInt b.pid
      → a.pid ≢ b.pid
      → IsInt s.token
      → Ate d s.tempo
      → Ate d a.tempo
      → Ate d b.tempo
      → d + 1 < 2 ^ 31
      → a.tempo ≤ℤ b.tempo
      → (t : Servidor) × (encontro xdr clnt (ouvindo s) a b
          ≡ ((preso t, retorna_com (negsuc 0)), retorna_com (negsuc 0)))
  unfolding pede
  encontro_para s a b d free p q other token hs ha hb small late =
      let req = (pede a).1 in
      let same = i32-eq_of_IsInt a.pid p in
      let tique : (z : ℤ) → Ate d z → L.Cabe (i64 (z +ℤ pos 1)) =
        λ z h. cabe _ (Ate-IsInt (d + 1) _ (i64-Ate d z h (omega arith)) small) in
      let granted =
        req_1-retorna xdr L I (suc k) rede s (concedido s req) req (resposta_a s req)
          (cabe _ p, tique a.tempo ha) (cabe _ p, tique s.tempo hs, cabe _ token)
          (livre-retorna k s req free same) in
      let x = novo_item req.pid_c req.tempo_c in
      let (t, lost, nothing) =
        servico_parado xdr L I (suc k) rede (concedido s req) (pede b).1 (uma x) x []
          (cabe _ q, tique b.tempo hb) refl (uma-IsDez x) refl (rw same other)
          (tique-mono d a.tempo b.tempo ha hb small late) in
      (
        t,
        encontro-perdido xdr clnt (ouvindo s) (ouvindo (concedido s req)) (preso t) a b
            (resposta_a s req) granted lost
            (nothing (pede b).1 (usa (pede a).0 (resposta_a s req)).1).1,
      )
