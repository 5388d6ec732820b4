-- ===== src/Rpc/Ciclo.antt =====
-- The rounds of LAB07-SD/backup/cliente-2.c against the server, where one client runs alone and
-- each call reaches the server and comes back.
use native.Mathlib.Nat.{pow-suc}
use unifesp_sd.Base.{
  ℕ, zero, suc, ◌+◌, ◌*◌, ◌^◌, ◌≤◌, ◌<◌, ◌≡◌, refl, sym, ap, subst, ◌∙◌, true, Option, none, some,
  [], arith, if◌then◌else◌,
}
use unifesp_sd.Base.Int.{ℤ, pos, negsuc, ◌+ℤ◌, ◌==ℤ◌, ==ℤ_iff, ltb_ℤ, i32, i64, trunca}
use unifesp_sd.Fila.{Sfila, insere, procura, liga, conclui, init, remove_item}
use unifesp_sd.Rpc.Mensagem.{RequestIn, ReplyOut}
use unifesp_sd.Rpc.Servidor.{
  Sitem, sitem_chave, insere_int, Servidor, inicio, aberta, aguarda, Chamada, retorna, presa, falha,
  espera_vez, req_1_svc, relogio, rel_1_svc,
}
use unifesp_sd.Rpc.Cliente.{Cliente, pede, novo_recurso, usa}

abbrev pub Par : Type 0
Par = Servidor × Cliente

-- The round from the answer to the request on; `none` is a request that is never answered.
unfoldable pub conclui_ciclo : Cliente → Chamada ReplyOut → Option Par
conclui_ciclo c (retorna s rep) = let (c', rel) = usa c rep in some ((rel_1_svc s rel).0, c')
conclui_ciclo c (presa s) = none
conclui_ciclo c falha = none

-- One round, with turns for the server's loop.
unfoldable pub ciclo : ℕ → Par → Option Par
unfolding conclui_ciclo
ciclo k (s, c) = let (c', req) = pede c in conclui_ciclo c' (req_1_svc k s req)

unfoldable pub ciclos : ℕ → ℕ → Par → Option Par
unfolding ciclo
ciclos k zero p = some p
ciclos k (suc n) p = elim (ciclo k p) [ none ↦ none | some q ↦ ciclos k n q ]

-- The queue that `init(10)` gives.
abbrev pub vazia : Sfila Sitem
vazia = record { tamanho = 0; n = 10; head = [] }

-- Nobody is in the queue.
abbrev pub IsLivre : Servidor → Type 0
IsLivre s = aberta s.fila ≡ vazia

-- What a round makes of the clocks of server and client: they count the request, the two messages
-- of the grant, and the release.
abbrev pub relogios_apos : ℤ → ℤ → ℤ × ℤ
relogios_apos servidor cliente =
    let pedido = i64 (cliente +ℤ pos 1) in
    let concedido = i64 (servidor +ℤ pos 1) in
    let recebido =
      if ltb_ℤ concedido pedido then i64 (pedido +ℤ pos 1) else i64 (concedido +ℤ pos 1) in
    let devolvido = i64 (recebido +ℤ pos 1) in
    (
      if ltb_ℤ devolvido concedido then i64 (concedido +ℤ pos 1) else i64 (devolvido +ℤ pos 1),
      devolvido,
    )

-- A round that ended, with nobody in the queue, with token `t`, the client's PID as before, and the
-- clocks `h`.
pub data Completo (t pid : ℤ) (h : ℤ × ℤ) : Option Par → Type 0 where
  completo :
      {s : Servidor} {c : Cliente}
      → IsLivre s
      → s.token ≡ t
      → c.pid ≡ pid
      → (s.tempo, c.tempo) ≡ h
      → Completo t pid h (some (s, c))

conclui-Completo :
    (k : ℕ) (s : Servidor) (c : Cliente) (t : ℤ) (req : RequestIn)
    → i32 req.pid_c ≡ req.pid_c
    → Completo (novo_recurso s.token) c.pid (relogios_apos s.tempo t) (
        conclui_ciclo
          (record c { tempo = i64 (t +ℤ pos 1) })
          (espera_vez (suc k) s req (insere_int vazia req.pid_c req.tempo_c)))
unfolding conclui_ciclo espera_vez insere_int insere procura liga conclui usa rel_1_svc remove_item
    aberta relogio
conclui-Completo k s c t req fits =
    let mine : (i32 req.pid_c ==ℤ req.pid_c) ≡ true = (==ℤ_iff (i32 req.pid_c) req.pid_c).1 fits in
    rw (mine, aguarda) (completo refl refl refl refl)

pub ciclo-Completo :
    (k : ℕ) (s : Servidor) (c : Cliente)
    → IsLivre s
    → i32 c.pid ≡ c.pid
    → Completo (novo_recurso s.token) c.pid (relogios_apos s.tempo c.tempo) (ciclo (suc k) (s, c))
unfolding ciclo pede req_1_svc
ciclo-Completo k s c free fits =
    let c' = (pede c).0 in
    let req = (pede c).1 in
    subst
      (λ f.
        Completo (novo_recurso s.token) c.pid (relogios_apos s.tempo c.tempo)
          (conclui_ciclo c' (espera_vez (suc k) s req (insere_int f req.pid_c req.tempo_c))))
      (sym free) (conclui-Completo k s c c.tempo req fits)

-- What the rounds make of the token's value.
abbrev pub recurso_apos : ℕ → ℤ → ℤ
recurso_apos zero t = t
recurso_apos (suc n) t = recurso_apos n (novo_recurso t)

-- The rounds that end, with nobody in the queue and with token `t`.
abbrev pub Terminam : ℤ → Option Par → Type 0
Terminam t r = (s : Servidor) × (c : Cliente) × (r ≡ some (s, c)) × IsLivre s × (s.token ≡ t)

ciclos-passo :
    (k n : ℕ) (t pid : ℤ) (h : ℤ × ℤ) (p : Par) (r : Option Par)
    → ciclo k p ≡ r
    → Completo t pid h r
    → ((q : Par)
        → IsLivre q.0
        → q.0.token ≡ t
        → q.1.pid ≡ pid
        → Terminam (recurso_apos n t) (ciclos k n q))
    → Terminam (recurso_apos n t) (ciclos k (suc n) p)
unfolding ciclos
ciclos-passo k n t pid _ p _ e (completo {s} {c} free tok same _) h =
    let (s', c', run, v, w) = h (s, c) free tok same in (s', c', rw (e, ciclos) run, v, w)

-- A client that runs alone, with a PID that an `int` holds, is answered in every round, whatever
-- number of turns the loop of `req_1_svc` is given; each round leaves nobody in the queue, and the
-- token with the client's new value.
pub ciclos-Terminam :
    (k n : ℕ) (s : Servidor) (c : Cliente)
    → IsLivre s
    → i32 c.pid ≡ c.pid
    → Terminam (recurso_apos n s.token) (ciclos (suc k) n (s, c))
unfolding ciclos
ciclos-Terminam k zero s c free fits = (s, c, refl, free, refl)
ciclos-Terminam k (suc n) s c free fits =
    ciclos-passo (suc k) n (novo_recurso s.token) c.pid (relogios_apos s.tempo c.tempo) (s, c) _
      refl (ciclo-Completo k s c free fits)
      λ q free' tok same.
        subst (λ t. Terminam (recurso_apos n t) (ciclos (suc k) n q)) tok
          (ciclos-Terminam k n q.0 q.1 free' (rw same fits))

novo_recurso-dobro : (m : ℕ) → m < 2 ^ 30 → novo_recurso (pos m) ≡ pos (m + m)
unfolding novo_recurso trunca ◌+ℤ◌
novo_recurso-dobro m h = ground arith

pow-pos : (n : ℕ) → 1 ≤ 2 ^ n
pow-pos zero = omega arith
pow-pos (suc n) = omega (arith, pow-suc 2 n, pow-pos n)

metade_cabe : (m x : ℕ) → 1 ≤ x → m * (x + x) < 2 ^ 31 → m < 2 ^ 30
metade_cabe m zero p h = absurd (omega arith)
metade_cabe m (suc x) p h = omega arith

recurso_apos-pow : (n m : ℕ) → m * 2 ^ n < 2 ^ 31 → recurso_apos n (pos m) ≡ pos (m * 2 ^ n)
recurso_apos-pow zero m h = ap pos (omega arith)
recurso_apos-pow (suc n) m h =
    let e : 2 ^ suc n ≡ 2 ^ n + 2 ^ n = omega (arith, pow-suc 2 n) in
    let fits = metade_cabe m (2 ^ n) (pow-pos n) (rw (← e) h) in
    let same : (m + m) * 2 ^ n ≡ m * 2 ^ suc n = rw e (omega arith) in
    rw (novo_recurso-dobro m fits) (recurso_apos-pow n (m + m) (rw same h) ∙ ap pos same)

-- From the start of the server, the value that a lone client leaves after `n + 1` rounds is 2 to the
-- power `n + 1`, as long as an `int` holds it.
pub token_dobra :
    (k n : ℕ) (c : Cliente)
    → i32 c.pid ≡ c.pid
    → 2 ^ suc n < 2 ^ 31
    → Terminam (pos (2 ^ suc n)) (ciclos (suc k) (suc n) (inicio, c))
unfolding inicio aberta init
token_dobra k n c fits small =
    let e : 2 ^ suc n ≡ 2 * 2 ^ n = omega (arith, pow-suc 2 n) in
    let first : novo_recurso (negsuc 0) ≡ pos 2 = unfold novo_recurso trunca in refl in
    let total : recurso_apos (suc n) (negsuc 0) ≡ pos (2 ^ suc n) =
      rw (first, e) (recurso_apos-pow n 2 (rw (← e) small)) in
    subst (λ t. Terminam t (ciclos (suc k) (suc n) (inicio, c))) total
      (ciclos-Terminam k (suc n) inicio c refl fits)
