-- ===== src/Tempo/Conforme.antt =====
-- LAB07-SD/AExemplo-RPC/tempo.x, the interface of the time service, and the dispatcher that rpcgen
-- makes of it; what the service answers.
use unifesp_sd.Base.{
  ℕ, suc, zero, ◌≡◌, refl, Bool, Option, none, Option-cases, Bool-cases, inl, inr, arith,
  if◌then◌else◌, true, false, some, List, [], ◌∷◌,
}
use unifesp_sd.Base.Int.{ℤ, pos, ltb_ℤ, ◌<ℤ◌, ◌≤ℤ◌}
use unifesp_sd.Rpcgen.{
  Filtro, Xdr, Svc, Efeito, systemerr, resposta, Fim, volta, encerra, Procedimento, cumpre, atende,
  envia, libera,
}
use unifesp_sd.Tempo.{Timeval, tempo_1_svc, xdr_timeval, tempoprog_1}

abbrev pub efeitos : {X : Type 0} → Fim X → List (Efeito X)
efeitos (volta es) = es
efeitos (encerra es) = es

efeitos-libera :
    {X : Type 0} (b : Bool) (es : List (Efeito X))
    → efeitos (if b then volta es else encerra es) ≡ es
efeitos-libera true es = refl
efeitos-libera false es = refl

-- What the caller gets of the procedure, for what `retval` holds and what `svc_sendreply` makes of
-- `result`.
pub data Indeterminada {X : Type 0} (retval : ℤ) (envio : Option X) : List (Efeito X) → Type 0 where
  muda : retval ≤ℤ pos 0 → Indeterminada retval envio []
  enviada :
      (x : X) → pos 0 <ℤ retval → envio ≡ some x → Indeterminada retval envio (resposta x ∷ [])
  recusada : pos 0 <ℤ retval → envio ≡ none → Indeterminada retval envio (systemerr ∷ [])

module _ {X : Type 0} (xdr : Xdr X) (xdr_void : Filtro X (Unit {0})) where
  abbrev pub tempo_x : ℤ → Timeval → List (Procedimento X)
  tempo_x retval result =
      record {
        numero = 1;
        Argumento = _;
        Resultado = _;
        xdr_argument = xdr_void;
        xdr_result = xdr_timeval xdr;
        local = tempo_1_svc retval;
        zerado = tt;
        lixo = result;
      }
      ∷ []

  -- The dispatcher of the time service answers every call as tempo.x says.
  pub tempoprog_1-cumpre :
      (svc : Svc X) (retval : ℤ) (result : Timeval) (n : ℕ)
      → tempoprog_1 xdr xdr_void svc retval result n ≡ cumpre svc (tempo_x retval result) n
  unfolding tempoprog_1 cumpre
  tempoprog_1-cumpre svc retval result zero = refl
  tempoprog_1-cumpre svc retval result (suc zero) = refl
  tempoprog_1-cumpre svc retval result (suc (suc n)) = refl

  -- The time service never tells the time. A call of its procedure that decodes is answered with
  -- what the uninitialised `result` holds, if the uninitialised `retval` is positive and the reply
  -- can be sent, and with an error if it cannot; if `retval` is not positive, the caller gets no
  -- answer at all.
  pub tempo_indeterminado :
      (svc : Svc X) (retval : ℤ) (result : Timeval)
      → svc.svc_getargs xdr_void tt ≡ some tt
      → Indeterminada retval
          (svc.svc_sendreply (xdr_timeval xdr) result)
          (efeitos (tempoprog_1 xdr xdr_void svc retval result 1))
  unfolding tempoprog_1 atende envia libera tempo_1_svc
  tempo_indeterminado svc retval result e = elim (Bool-cases (ltb_ℤ (pos 0) retval)) [
    | inl p ↦ elim (Option-cases (svc.svc_sendreply (xdr_timeval xdr) result)) [
      | inl n ↦
          rw (e, atende)
            (rw (p, n)
              (rw (efeitos-libera (svc.svc_freeargs xdr_void tt) (systemerr ∷ []))
                (recusada (ground arith) refl)))
      | inr (x, f) ↦
          rw (e, atende)
            (rw (p, f)
              (rw (efeitos-libera (svc.svc_freeargs xdr_void tt) (resposta x ∷ []))
                (enviada x (ground arith) refl)))
    ]
    | inr p ↦
        rw (e, atende)
          (rw (p, efeitos-libera (svc.svc_freeargs xdr_void tt) []) (muda (ground arith)))
  ]
