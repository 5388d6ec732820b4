-- ===== src/Rpcgen/RedeBytes.antt =====
-- A network that carries the streams of Rpcgen.Fluxo, at which the theorems on calls are tried.
use unifesp_sd.Base.{ℕ, refl, ap, sym, subst, ◌∙◌, Option, none, some, List, [], ◌∷◌, arith}
use unifesp_sd.Rpcgen.{Filtro, Svc, resposta}
use unifesp_sd.Rpcgen.Fluxo.{Fluxo, escrevendo, lendo, svc, svc-Chega, primeiro, segundo}
use unifesp_sd.Rpcgen.Ponteiro.{Desfecho, volta, encerra, dentro, indefinido, Clnt}
use unifesp_sd.Rpcgen.Rede.{
  Processo, ouvindo, preso, SemResposta, muda, sem_procedimento, ilegivel, erro, prazo, Falhou,
  Rede,
}

abbrev conteudo : Fluxo → List ℕ
conteudo (escrevendo bs) = bs
conteudo (lendo bs) = bs

-- The reply on the client's side.
abbrev lida : {W R : Type 0} → W → R → Option R → Processo W × ℕ × R
lida w o none = (ouvindo w, 2, o)
lida w o (some r) = (ouvindo w, 0, r)

abbrev recebe : {W R : Type 0} → W → Desfecho W Fluxo → Filtro Fluxo R → R → Processo W × ℕ × R
recebe w (volta w' (resposta y ∷ [])) g o = lida w' o (segundo (g (lendo (conteudo y)) o))
recebe w (volta w' es) g o = (ouvindo w', 3, o)
recebe w (encerra w' es) g o = (preso w', 4, o)
recebe w (dentro w') g o = (preso w', 5, o)
recebe w indefinido g o = (preso w, 6, o)

module _ {W : Type 0} (serve : Svc Fluxo → ℕ → W → Desfecho W Fluxo) where
  abbrev leva : {R : Type 0} → W → ℕ → Filtro Fluxo R → R → Option Fluxo → Processo W × ℕ × R
  leva w n g o none = (ouvindo w, 1, o)
  leva w n g o (some x) = recebe w (serve (svc (conteudo x)) n w) g o

  abbrev chamada :
      {A R : Type 0} → Processo W → ℕ → Filtro Fluxo A → A → Filtro Fluxo R → R → Processo W × ℕ × R
  chamada (preso w) n f a g o = (preso w, 5, o)
  chamada (ouvindo w) n f a g o = leva w n g o (primeiro (f (escrevendo []) a))

  abbrev pub clnt_bytes : Clnt (Processo W) Fluxo
  clnt_bytes = record { rpc_success = 0; clnt_call = λ w n f a g o. chamada w n f a g o }

  recebe-Falhou :
      {R : Type 0} (w : W) (d : Desfecho W Fluxo) (p : Processo W) (g : Filtro Fluxo R) (o : R)
      → SemResposta d p
      → Falhou clnt_bytes p (recebe w d g o)
  recebe-Falhou w _ _ g o (muda v) = record {
    estado = 3;
    objeto = o;
    fim = refl;
    erro = omega arith;
  }
  recebe-Falhou w _ _ g o (sem_procedimento v) = record {
    estado = 3;
    objeto = o;
    fim = refl;
    erro = omega arith;
  }
  recebe-Falhou w _ _ g o (ilegivel v) = record {
    estado = 3;
    objeto = o;
    fim = refl;
    erro = omega arith;
  }
  recebe-Falhou w _ _ g o (erro v) = record {
    estado = 3;
    objeto = o;
    fim = refl;
    erro = omega arith;
  }
  recebe-Falhou w _ _ g o (prazo v) = record {
    estado = 5;
    objeto = o;
    fim = refl;
    erro = omega arith;
  }

  pub rede_bytes : Rede escrevendo lendo serve clnt_bytes
  rede_bytes = record {
    svc = svc;
    chega = svc-Chega;
    responde = λ f g a o r n w w' bs cs e d h.
        ap (λ r. leva w n g o (primeiro r)) e
        ∙ ap (λ d. recebe w d g o) d
        ∙ ap (λ r. lida w' o (segundo r)) h;
    falha = λ f g a o n w p bs e s.
        subst (λ r. Falhou clnt_bytes p (leva w n g o (primeiro r))) (sym e)
          (recebe-Falhou w _ p g o s);
    ocupado = λ f g a o n w. record { estado = 5; objeto = o; fim = refl; erro = omega arith };
  }
