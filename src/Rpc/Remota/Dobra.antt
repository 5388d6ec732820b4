-- ===== src/Rpc/Remota/Dobra.antt =====
-- The rounds of a client that runs alone, over the network.
use unifesp_sd.Base.{
  ℕ, zero, suc, ◌+◌, ◌*◌, ◌^◌, ◌<◌, ◌≤◌, ◌≡◌, refl, sym, subst, Bool, true, false, Option, none,
  some, List, arith, if◌then◌else◌, Bool-cases, inl, inr,
}
use unifesp_sd.Base.Int.{
  ℤ, pos, negsuc, ◌+ℤ◌, ◌≤ℤ◌, ltb_ℤ, i32, i64, trunca, IsInt, i32-IsInt, i32-eq_of_IsInt,
}
use unifesp_sd.Fila.{Sfila, init}
use unifesp_sd.Fila.Invariante.{init-IsFila}
use unifesp_sd.Rpc.Servidor.{Sitem, sitem_chave, Servidor, aberta}
use unifesp_sd.Rpc.Servidor.Invariante.{IsDez, IsServidor}
use unifesp_sd.Rpc.Cliente.{Cliente, pede, usa, novo_recurso, Saida, continua}
use unifesp_sd.Rpc.Ciclo.{
  Par, vazia, IsLivre, relogios_apos, Completo, completo, ciclo, ciclo-Completo, recurso_apos,
}
use unifesp_sd.Rpcgen.{Xdr}
use unifesp_sd.Rpcgen.Bytes.{Leis}
use unifesp_sd.Rpcgen.Ponteiro.{Clnt}
use unifesp_sd.Rpcgen.Rede.{Processo, ouvindo, Rede}
use unifesp_sd.Rpc.Remota.{server_cent_1, rodada, rodadas}
use unifesp_sd.Rpc.Remota.Rodada.{CabeRodada, Rodou, completa, bloqueada, rodada-Rodou}

-- A clock that has come no further than `b`.
pub record Ate (b : ℕ) (z : ℤ) : Type 0 where
  pub desde : pos 0 ≤ℤ z
  pub ate : z ≤ℤ pos b

Ate-mono : (b d : ℕ) (z : ℤ) → Ate b z → b ≤ d → Ate d z
Ate-mono b d z h k = record { desde = h.desde; ate = let a = h.ate in omega arith }

pub i64-Ate : (b : ℕ) (z : ℤ) → Ate b z → b < 2 ^ 62 → Ate (b + 1) (i64 (z +ℤ pos 1))
unfolding trunca ◌+ℤ◌
i64-Ate b (pos n) h k = let a = h.ate in record { desde = ground arith; ate = ground arith }
i64-Ate b (negsuc n) h k = let d = h.desde in absurd (omega arith)

pub Ate-IsInt : (b : ℕ) (z : ℤ) → Ate b z → b < 2 ^ 31 → IsInt z
Ate-IsInt b (pos n) h k = let a = h.ate in record { acima = omega arith; abaixo = omega arith }
Ate-IsInt b (negsuc n) h k = let d = h.desde in absurd (omega arith)

if-Ate : (b : ℕ) (t : Bool) (x y : ℤ) → Ate b x → Ate b y → Ate b (if t then x else y)
if-Ate b true x y h k = h
if-Ate b false x y h k = k

novo_recurso-IsInt : (t : ℤ) → IsInt (novo_recurso t)
unfolding novo_recurso
novo_recurso-IsInt t = elim (Bool-cases (ltb_ℤ (i32 t) (pos 0))) [
  | inl e ↦ rw e (record { acima = omega arith; abaixo = omega arith })
  | inr e ↦ rw e (i32-IsInt (i32 t +ℤ i32 t))
]

relogios_apos-Ate :
    (b : ℕ) (s c : ℤ)
    → Ate b s
    → Ate b c
    → b + 4 < 2 ^ 31
    → Ate (b + 4) (relogios_apos s c).0 × Ate (b + 4) (relogios_apos s c).1
relogios_apos-Ate b s c h k small =
    let pedido = i64-Ate b c k (omega arith) in
    let concedido = i64-Ate b s h (omega arith) in
    let recebido =
      if-Ate (b + 1 + 1) (ltb_ℤ (i64 (s +ℤ pos 1)) (i64 (c +ℤ pos 1))) _ _
        (i64-Ate (b + 1) _ pedido (omega arith)) (i64-Ate (b + 1) _ concedido (omega arith)) in
    let devolvido = i64-Ate (b + 1 + 1) _ recebido (omega arith) in
    let dela = i64-Ate (b + 1 + 1 + 1) _ devolvido (omega arith) in
    let seu =
      Ate-mono (b + 1 + 1) (b + 1 + 1 + 1 + 1) _ (i64-Ate (b + 1) _ concedido (omega arith))
        (omega arith) in
    (
      Ate-mono (b + 1 + 1 + 1 + 1) (b + 4) _ (if-Ate (b + 1 + 1 + 1 + 1) _ _ _ seu dela)
          (omega arith),
      Ate-mono (b + 1 + 1 + 1) (b + 4) _ devolvido (omega arith),
    )

-- A round that ended, written out.
abbrev Concluido : ℤ → ℤ → ℤ × ℤ → Option Par → Type 0
Concluido t pid h none = ⊥
Concluido t pid h (some (s, c)) =
    IsLivre s × (s.token ≡ t) × (c.pid ≡ pid) × ((s.tempo, c.tempo) ≡ h)

Completo-Concluido :
    {t pid : ℤ} {h : ℤ × ℤ} {o : Option Par} → Completo t pid h o → Concluido t pid h o
Completo-Concluido (completo a b c d) = (a, b, c, d)

-- So it is over the network.
abbrev Voltou : ℤ → ℤ → ℤ × ℤ → Processo Servidor × Saida → Type 0
Voltou t pid h r =
    (s : Servidor) × (c : Cliente) × (r ≡ (ouvindo s, continua c)) × Concluido t pid h (some (s, c))

Rodou-Voltou :
    (k : ℕ) (s : Servidor) (c : Cliente) (t pid : ℤ) (h : ℤ × ℤ) (r : Processo Servidor × Saida)
    → Concluido t pid h (ciclo k (s, c))
    → Rodou k s c r
    → Voltou t pid h r
Rodou-Voltou k s c t pid h _ v (completa s' c' e) = (s', c', refl, subst (Concluido t pid h) e v)
Rodou-Voltou k s c t pid h _ v (bloqueada s' e) = absurd (subst (Concluido t pid h) e v)

livre-IsServidor : (o : Option (Sfila Sitem)) → aberta o ≡ vazia → IsServidor o
unfolding aberta init
livre-IsServidor none e = tt
livre-IsServidor (some f) e = subst IsDez (sym e) (record { fila = init-IsFila 10; lugares = refl })

-- A format that holds every `int`.
module _ {X : Type 0} {escrita leitura : List ℕ → X} (xdr : Xdr X)
    (L : Leis escrita leitura xdr.xdr_long) (I : Leis escrita leitura xdr.xdr_int)
    (cabe : (z : ℤ) → IsInt z → L.Cabe z) (cabe_um : I.Cabe (pos 1)) (k : ℕ)
    {clnt : Clnt (Processo Servidor) X}
    (rede : Rede escrita leitura (server_cent_1 xdr (suc k)) clnt) where
  livre-CabeRodada :
      (b : ℕ) (s : Servidor) (c : Cliente)
      → IsInt c.pid
      → IsInt s.token
      → Ate b s.tempo
      → Ate b c.tempo
      → b + 4 < 2 ^ 31
      → CabeRodada xdr L I s c
  unfolding pede usa
  livre-CabeRodada b s c p t h m small =
      let pid = cabe c.pid p in
      let pedido = Ate-IsInt (b + 1) _ (i64-Ate b c.tempo m (omega arith)) (omega arith) in
      let concedido = Ate-IsInt (b + 1) _ (i64-Ate b s.tempo h (omega arith)) (omega arith) in
      let devolvido = Ate-IsInt (b + 4) _ (relogios_apos-Ate b s.tempo c.tempo h m small).1 small in
      (
        (pid, cabe _ pedido),
        (pid, cabe _ concedido, cabe _ t),
        (pid, cabe _ devolvido, cabe _ (novo_recurso-IsInt s.token)),
        cabe_um,
      )

  livre-Voltou :
      (b : ℕ) (s : Servidor) (c : Cliente)
      → IsLivre s
      → IsInt c.pid
      → IsInt s.token
      → Ate b s.tempo
      → Ate b c.tempo
      → b + 4 < 2 ^ 31
      → Voltou
          (novo_recurso s.token)
          c.pid
          (relogios_apos s.tempo c.tempo)
          (rodada xdr clnt (ouvindo s) c)
  livre-Voltou b s c livre p t h m small =
      Rodou-Voltou (suc k) s c (novo_recurso s.token) c.pid (relogios_apos s.tempo c.tempo) _
        (Completo-Concluido (ciclo-Completo k s c livre (i32-eq_of_IsInt c.pid p)))
        (rodada-Rodou xdr L I k rede s c (livre-IsServidor s.fila livre)
          (livre-CabeRodada b s c p t h m small))

  -- What the rounds over the network come to: all of them end, with nobody in the queue and with
  -- token `t`.
  abbrev pub TerminamLonge : ℤ → Processo Servidor × Saida → Type 0
  TerminamLonge t r =
      (s : Servidor) × (c : Cliente) × (r ≡ (ouvindo s, continua c)) × IsLivre s × (s.token ≡ t)

  -- A client that runs alone is answered in each of `n` rounds over the network, and leaves the server
  -- with nobody in the queue and the token with the value that so many rounds make of it. So it is if
  -- the PID and the token are values of `int`, the network's format holds those, and the two clocks are so far
  -- from the largest `int` that 4 ticks for each round fit.
  pub rodadas-Terminam :
      (n b : ℕ) (s : Servidor) (c : Cliente)
      → IsLivre s
      → IsInt c.pid
      → IsInt s.token
      → Ate b s.tempo
      → Ate b c.tempo
      → b + 4 * n < 2 ^ 31
      → TerminamLonge (recurso_apos n s.token) (rodadas xdr clnt n (ouvindo s) c)
  unfolding rodadas
  rodadas-Terminam zero b s c livre p t h m small = (s, c, refl, livre, refl)
  rodadas-Terminam (suc n) b s c livre p t h m small =
      let (s', c', run, (livre', token, pid, rel)) =
        livre-Voltou b s c livre p t h m (omega arith) in
      let (hs, hc) = relogios_apos-Ate b s.tempo c.tempo h m (omega arith) in
      rw run (
        subst (λ u. TerminamLonge (recurso_apos n u) (rodadas xdr clnt n (ouvindo s') c')) token
          (rodadas-Terminam n (b + 4) s' c' livre' (subst IsInt (sym pid) p)
            (subst IsInt (sym token) (novo_recurso-IsInt s.token))
            (subst (λ r. Ate (b + 4) r.0) (sym rel) hs) (subst (λ r. Ate (b + 4) r.1) (sym rel) hc)
            (omega arith)))
