-- ===== src/Rpcgen/Rede.antt =====
-- A server behind the network: what the RPC library makes of a client's call, and what the client's
-- stub makes of that.
use unifesp_sd.Base.{
  ℕ, ◌≡◌, ◌≢◌, refl, subst, sym, ◌∙◌, true, false, Option, none, some, List, [], ◌∷◌, ◌==◌, arith,
}
use unifesp_sd.Rpcgen.{Filtro, Svc, noproc, decode, systemerr, resposta}
use unifesp_sd.Rpcgen.Bytes.{Chega, Volta, le-tudo}
use unifesp_sd.Rpcgen.Ponteiro.{
  Execucao, retorna, presa, falha, Desfecho, volta, dentro, envia, libera, conclui, atende, Clnt,
  chama,
}

-- The server's process waits for calls, or never comes out of one.
pub data Processo (W : Type 0) : Type 0 where
  ouvindo preso : W → Processo W

-- What the dispatcher does to a call that is not answered with a result, and the process after it.
pub data SemResposta {W X : Type 0} : Desfecho W X → Processo W → Type 0 where
  muda : (w : W) → SemResposta (volta w []) (ouvindo w)
  sem_procedimento : (w : W) → SemResposta (volta w (noproc ∷ [])) (ouvindo w)
  ilegivel : (w : W) → SemResposta (volta w (decode ∷ [])) (ouvindo w)
  erro : (w : W) → SemResposta (volta w (systemerr ∷ [])) (ouvindo w)
  prazo : (w : W) → SemResposta (dentro w) (preso w)

-- A call that ended with another status than `RPC_SUCCESS`.
pub record Falhou {W X R : Type 0} (clnt : Clnt W X) (w : W) (r : W × ℕ × R) : Type 0 where
  pub estado : ℕ
  pub objeto : R
  pub fim : r ≡ (w, estado, objeto)
  pub erro : estado ≢ clnt.rpc_success

-- The library carries a call over TCP from a client to the dispatcher `serve` and back, once. The
-- call succeeds if its argument is written, the dispatcher sends a result, and the result is read. It
-- does not if the dispatcher sends none before the time is up, or an error, nor if the process is not
-- listening.
pub record Rede {W X : Type 0} (escrita leitura : List ℕ → X) (serve : Svc X → ℕ → W → Desfecho W X)
    (clnt : Clnt (Processo W) X) : Type 1 where
  pub svc : List ℕ → Svc X
  pub chega : (bs : List ℕ) → Chega escrita leitura (svc bs) bs
  pub responde :
      {A R : Type 0} (f : Filtro X A) (g : Filtro X R) (a : A) (o r : R) (n : ℕ) (w w' : W)
      (bs cs : List ℕ)
      → f (escrita []) a ≡ some (escrita bs, a)
      → serve (svc bs) n w ≡ volta w' (resposta (escrita cs) ∷ [])
      → g (leitura cs) o ≡ some (leitura [], r)
      → clnt.clnt_call (ouvindo w) n f a g o ≡ (ouvindo w', clnt.rpc_success, r)
  pub falha :
      {A R : Type 0} (f : Filtro X A) (g : Filtro X R) (a : A) (o : R) (n : ℕ) (w : W)
      (p : Processo W) (bs : List ℕ)
      → f (escrita []) a ≡ some (escrita bs, a)
      → SemResposta (serve (svc bs) n w) p
      → Falhou clnt p (clnt.clnt_call (ouvindo w) n f a g o)
  pub ocupado :
      {A R : Type 0} (f : Filtro X A) (g : Filtro X R) (a : A) (o : R) (n : ℕ) (w : W)
      → Falhou clnt (preso w) (clnt.clnt_call (preso w) n f a g o)

module _ {W X : Type 0} (clnt : Clnt W X) where
  pub chama-certa :
      {A R : Type 0} (f : Filtro X A) (g : Filtro X R) (a : A) (o r : R) (n : ℕ) (w w' : W)
      → clnt.clnt_call w n f a g o ≡ (w', clnt.rpc_success, r)
      → chama clnt w n f g o a ≡ (w', some r)
  unfolding chama
  chama-certa f g a o r n w w' e =
      let igual : (clnt.rpc_success == clnt.rpc_success) ≡ true = ground arith in rw (e, igual)

  pub chama-Falhou :
      {A R : Type 0} (f : Filtro X A) (g : Filtro X R) (a : A) (o : R) (n : ℕ) (w w' : W)
      → Falhou clnt w' (clnt.clnt_call w n f a g o)
      → chama clnt w n f g o a ≡ (w', none)
  unfolding chama
  chama-Falhou f g a o n w w' h =
      let outro : (h.estado == clnt.rpc_success) ≡ false = let d = h.erro in ground arith in
      rw (h.fim, outro)

module _ {W X A R : Type 0} {escrita leitura : List ℕ → X} {f : Filtro X A} (g : Filtro X R)
    {a : A} where
  -- What the dispatcher does with the bytes of an argument.
  pub atende-retorna :
      {r : R} {svc : Svc X} (v : Volta escrita leitura f a) (u : Volta escrita leitura g r)
      → Chega escrita leitura svc v.bytes
      → (local : A → W → Execucao W R) (zerado : A) (w w' : W) → local a w ≡ retorna w' (some r)
      → atende svc f g local zerado w ≡ volta w' (resposta (escrita u.bytes) ∷ [])
  unfolding atende conclui envia libera
  atende-retorna {r} {svc} v u c local zerado w w' e =
      let lido = c.le f zerado a (leitura []) (le-tudo escrita leitura v zerado) in
      let enviado = c.envia g r (escrita u.bytes) (u.escreve []) in
      rw (lido, atende) (rw (e, conclui) (rw (enviado, c.libera f a, envia, libera)))

  pub atende-nula :
      {svc : Svc X} (v : Volta escrita leitura f a)
      → Chega escrita leitura svc v.bytes
      → (local : A → W → Execucao W R) (zerado : A) (w w' : W) → local a w ≡ retorna w' none
      → atende svc f g local zerado w ≡ volta w' []
  unfolding atende conclui envia libera
  atende-nula {svc} v c local zerado w w' e =
      let lido = c.le f zerado a (leitura []) (le-tudo escrita leitura v zerado) in
      rw (lido, atende) (rw (e, conclui) (rw (c.libera f a, libera)))

  pub atende-presa :
      {svc : Svc X} (v : Volta escrita leitura f a)
      → Chega escrita leitura svc v.bytes
      → (local : A → W → Execucao W R) (zerado : A) (w w' : W) → local a w ≡ presa w'
      → atende svc f g local zerado w ≡ dentro w'
  unfolding atende conclui
  atende-presa {svc} v c local zerado w w' e =
      let lido = c.le f zerado a (leitura []) (le-tudo escrita leitura v zerado) in
      rw (lido, atende) (rw (e, conclui))

-- How a procedure ends, and what its caller has of it over the network: its result, NULL for none, or
-- NULL and a server that is stuck. After undefined behaviour it is anything.
pub data Entregue {W R : Type 0} : Execucao W R → Processo W × Option R → Type 0 where
  respondida : (w : W) (r : R) → Entregue (retorna w (some r)) (ouvindo w, some r)
  nula : (w : W) → Entregue (retorna w none) (ouvindo w, none)
  parada : (w : W) → Entregue (presa w) (preso w, none)
  qualquer : (x : Processo W × Option R) → Entregue falha x

-- A result that a procedure returns has `P`.
abbrev pub Devolve : {W R : Type 0} → (R → Type 0) → Execucao W R → Type 0
Devolve P (retorna w (some r)) = P r
Devolve P (retorna w none) = Unit
Devolve P (presa w) = Unit
Devolve P falha = Unit

pub Devolve-mono :
    {W R : Type 0} {P Q : R → Type 0} (e : Execucao W R)
    → Devolve P e
    → ((r : R) → P r → Q r)
    → Devolve Q e
Devolve-mono (retorna w (some r)) d h = h r d
Devolve-mono (retorna w none) d h = tt
Devolve-mono (presa w) d h = tt
Devolve-mono falha d h = tt

-- A call by a stub to the procedure `local`, which the dispatcher reaches by the number `n`.
module _ {W X A R : Type 0} {escrita leitura : List ℕ → X} {serve : Svc X → ℕ → W → Desfecho W X}
    {clnt : Clnt (Processo W) X} (rede : Rede escrita leitura serve clnt) (n : ℕ) (f : Filtro X A)
    (g : Filtro X R) (local : A → W → Execucao W R) (zerado : A)
    (alcanca : (svc : Svc X) (w : W) → serve svc n w ≡ atende svc f g local zerado w) where
  pub remota-retorna :
      (a : A) (o r : R) (w w' : W)
      → Volta escrita leitura f a
      → Volta escrita leitura g r
      → local a w ≡ retorna w' (some r)
      → chama clnt (ouvindo w) n f g o a ≡ (ouvindo w', some r)
  remota-retorna a o r w w' v u e = chama-certa clnt f g a o r n (ouvindo w) (ouvindo w') (
      rede.responde f g a o r n w w' v.bytes u.bytes (v.escreve [])
        (alcanca _ w ∙ atende-retorna g v u (rede.chega v.bytes) local zerado w w' e)
        (le-tudo escrita leitura u o))

  pub remota-presa :
      (a : A) (o : R) (w w' : W)
      → Volta escrita leitura f a
      → local a w ≡ presa w'
      → chama clnt (ouvindo w) n f g o a ≡ (preso w', none)
  remota-presa a o w w' v e =
      let d = alcanca _ w ∙ atende-presa g v (rede.chega v.bytes) local zerado w w' e in
      chama-Falhou clnt f g a o n (ouvindo w) (preso w') (
        rede.falha f g a o n w (preso w') v.bytes (v.escreve [])
          (subst (λ d. SemResposta d (preso w')) (sym d) (prazo w')))

  pub remota-ocupada : (a : A) (o : R) (w : W) → chama clnt (preso w) n f g o a ≡ (preso w, none)
  remota-ocupada a o w = chama-Falhou clnt f g a o n (preso w) (preso w) (rede.ocupado f g a o n w)

  remota-nula :
      (a : A) (o : R) (w w' : W)
      → Volta escrita leitura f a
      → local a w ≡ retorna w' none
      → chama clnt (ouvindo w) n f g o a ≡ (ouvindo w', none)
  remota-nula a o w w' v e =
      let d = alcanca _ w ∙ atende-nula g v (rede.chega v.bytes) local zerado w w' e in
      chama-Falhou clnt f g a o n (ouvindo w) (ouvindo w') (
        rede.falha f g a o n w (ouvindo w') v.bytes (v.escreve [])
          (subst (λ d. SemResposta d (ouvindo w')) (sym d) (muda w')))

  entrega-Entregue :
      (a : A) (o : R) (w : W) (e : Execucao W R)
      → Volta escrita leitura f a
      → Devolve (Volta escrita leitura g) e
      → local a w ≡ e
      → Entregue e (chama clnt (ouvindo w) n f g o a)
  entrega-Entregue a o w (retorna w' (some r)) v u q =
      rw (remota-retorna a o r w w' v u q) (respondida w' r)
  entrega-Entregue a o w (retorna w' none) v u q = rw (remota-nula a o w w' v q) (nula w')
  entrega-Entregue a o w (presa w') v u q = rw (remota-presa a o w w' v q) (parada w')
  entrega-Entregue a o w falha v u q = qualquer _

  -- What the stub returns is what the procedure does, if the format holds its argument and its
  -- result.
  pub remota-Entregue :
      (a : A) (o : R) (w : W)
      → Volta escrita leitura f a
      → Devolve (Volta escrita leitura g) (local a w)
      → Entregue (local a w) (chama clnt (ouvindo w) n f g o a)
  remota-Entregue a o w v u = entrega-Entregue a o w (local a w) v u refl
