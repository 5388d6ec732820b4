-- ===== src/Tempo/Exemplos.antt =====
-- The time service of LAB07-SD/AExemplo-RPC on concrete calls, and its theorems at them.
use unifesp_sd.Base.{◌≡◌, refl, some, [], ◌∷◌}
use unifesp_sd.Base.Int.{pos}
use unifesp_sd.Rpcgen.{Filtro, volta, resposta, cumpre}
use unifesp_sd.Rpcgen.Fluxo.{Fluxo, xdr, svc, escrevendo}
use unifesp_sd.Tempo.{Timeval, xdr_timeval, tempoprog_1}
use unifesp_sd.Tempo.Conforme.{
  efeitos, Indeterminada, tempo_x, tempoprog_1-cumpre, tempo_indeterminado,
}

abbrev xdr_void : Filtro Fluxo (Unit {0})
xdr_void xdrs v = some (xdrs, v)

abbrev lixo : Timeval
lixo = record { tv_sec = pos 7; tv_usec = pos 9 }

tempoprog_1_sete :
    tempoprog_1 xdr xdr_void (svc []) (pos 1) lixo 1
    ≡ volta (resposta (escrevendo (7 ∷ 9 ∷ [])) ∷ [])
unfolding tempoprog_1
tempoprog_1_sete = refl

tempoprog_1-cumpre_teste :
    tempoprog_1 xdr xdr_void (svc []) (pos 1) lixo 1
    ≡ cumpre (svc []) (tempo_x xdr xdr_void (pos 1) lixo) 1
tempoprog_1-cumpre_teste = tempoprog_1-cumpre xdr xdr_void (svc []) (pos 1) lixo 1

tempo_indeterminado_example :
    Indeterminada
      (pos 1)
      ((svc []).svc_sendreply (xdr_timeval xdr) lixo)
      (efeitos (tempoprog_1 xdr xdr_void (svc []) (pos 1) lixo 1))
tempo_indeterminado_example = tempo_indeterminado xdr xdr_void (svc []) (pos 1) lixo refl
