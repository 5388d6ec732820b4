-- ===== src/Netkit/Cliente/Envios.antt =====
-- What a client sends, and when.
use unifesp_sd.Base.{
  ℕ, ◌+◌, ◌≤◌, ◌≡◌, refl, subst, Bool, true, false, Option, none, some, List, [], ◌∷◌, ◌++◌, arith,
  All, if◌then◌else◌, ◌≢◌,
}
use unifesp_sd.Base.Int.{ℤ, pos, ◌+ℤ◌, ◌==ℤ◌, i32}
use unifesp_sd.Netkit.Mensagem.{
  release_token, reply_allow, Request, sizeof_ponteiro, Datagrama, recebe, recebe-cod, Passo, segue,
  termina, falha, antes, em_seguida, enviadas,
}
use unifesp_sd.Netkit.Cliente.{
  Cliente, Fase, pedindo, esperando, Entrada, inteira, despacha, espera, itera, executa,
}

-- How many of the messages are of a kind.
abbrev pub conta : ℤ → List Datagrama → ℕ
conta cod [] = 0
conta cod (d ∷ ds) = (if d.corpo.cod ==ℤ cod then 1 else 0) + conta cod ds

-- How many replies reach the client: a datagram of five bytes at least carries its kind.
abbrev pub IsRotulada : Option Datagrama → Type 0
IsRotulada none = Unit
IsRotulada (some d) = 5 ≤ d.tamanho

abbrev pub concede : Option Datagrama → ℕ
concede none = 0
concede (some d) = if d.corpo.cod ==ℤ reply_allow then 1 else 0

abbrev pub concessoes : List Entrada → ℕ
concessoes [] = 0
concessoes (e ∷ es) = concede e.chegada + concessoes es

conta-append :
    (cod : ℤ) (ms ns : List Datagrama) → conta cod (ms ++ ns) ≡ conta cod ms + conta cod ns
conta-append cod [] ns = omega arith
conta-append cod (m ∷ ms) ns = ground (arith, conta-append cod ms ns)

abbrev Limita : ℕ → Passo Cliente Datagrama → Type 0
Limita n r = conta release_token (enviadas r) ≤ n

despacha-Limita :
    (c : Cliente) (ok : Bool) → Limita (if c.resp.cod ==ℤ reply_allow then 1 else 0) (despacha c ok)
unfolding despacha
despacha-Limita c ok = ground arith

rodada-Limita :
    (c : Cliente) (f : Fase) (e : Entrada) (o : Option Datagrama)
    → c.fase ≡ f
    → e.chegada ≡ o
    → IsRotulada o
    → Limita (concede o) (itera c e)
unfolding itera
rodada-Limita c pedindo e o p q h = ground arith
rodada-Limita c esperando e none p q h = ground arith
rodada-Limita c esperando e (some d) p q h =
    let c' = record c { resp = recebe d c.resp } in
    let run : itera c e ≡ despacha c' e.envio_ok = ground arith in
    rw run (
      subst (λ z. Limita (if z ==ℤ reply_allow then 1 else 0) (despacha c' e.envio_ok))
        (recebe-cod d c.resp h) (despacha-Limita c' e.envio_ok))

em_seguida-Limita :
    (n m : ℕ) (r : Passo Cliente Datagrama) (f : Cliente → Passo Cliente Datagrama)
    → Limita n r
    → ((c : Cliente) → Limita m (f c))
    → Limita (n + m) (em_seguida r f)
em_seguida-Limita n m (segue c ms) f h g = junta (f c) (g c)
  where
    junta : (r : Passo Cliente Datagrama) → Limita m r → Limita (n + m) (antes ms r)
    junta (segue t ns) k = omega (arith, conta-append release_token ms ns)
    junta (termina t ns) k = omega (arith, conta-append release_token ms ns)
    junta (falha ns) k = omega (arith, conta-append release_token ms ns)
em_seguida-Limita n m (termina c ms) f h g = omega arith
em_seguida-Limita n m (falha ms) f h g = omega arith

-- In any run a client gives the token back no more often than a reply has brought it.
pub devolucoes_limitadas :
    (c : Cliente) (es : List Entrada)
    → All (λ e. IsRotulada e.chegada) es
    → conta release_token (enviadas (executa c es)) ≤ concessoes es
unfolding executa
devolucoes_limitadas c [] h = omega arith
devolucoes_limitadas c (e ∷ es) h =
    em_seguida-Limita (concede e.chegada) (concessoes es) (itera c e) (λ t. executa t es)
      (rodada-Limita c c.fase e e.chegada refl refl h.0) λ t. devolucoes_limitadas t es h.1

-- One RELEASE_TOKEN was sent, and the client goes back to ask again.
pub data Devolve (c : Cliente) (valor : ℤ) : Passo Cliente Datagrama → Type 0 where
  devolve :
      {t : Cliente} {req : Request}
      → req.cod ≡ release_token
      → req.pid ≡ c.pid
      → req.rec ≡ i32 (valor +ℤ pos 1)
      → t.fase ≡ pedindo
      → t.resp.pid ≡ c.resp.pid
      → t.resp.tempo ≡ c.resp.tempo
      → Devolve c valor (segue t (inteira req ∷ []))

-- A waiting client whose PID is not 0 answers a reply, cut to eight bytes as the server sends it,
-- by one RELEASE_TOKEN of its own PID with the value one higher, and goes back to ask again; the
-- `PID` and the `tempo` in its buffer are still those of an earlier message.
pub espera-Devolve :
    (c : Cliente) (r : Request)
    → c.pid ≢ pos 0
    → r.cod ≡ reply_allow
    → Devolve c r.rec (
        espera c (record {
          chegada = some (record { tamanho = sizeof_ponteiro; corpo = r });
          envio_ok = true;
        }))
unfolding espera recebe
espera-Devolve c r p k =
    let nonzero : (c.pid ==ℤ pos 0) ≡ false = ground arith in
    rw (k, nonzero) (devolve refl refl refl refl refl refl)
