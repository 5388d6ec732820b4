-- ===== src/Rpc/Servidor/Espera.antt =====
-- What the waiting inside `req_1_svc` does in a server that answers one call at a time.
use unifesp_sd.Base.{
  ℕ, suc, ◌≤◌, ◌≡◌, ◌≢◌, refl, sym, subst, Bool, true, false, Option, some, List, ◌∷◌, arith,
}
use unifesp_sd.Base.Int.{pos, ◌+ℤ◌, ◌≤ℤ◌, ◌<ℤ◌, ◌==ℤ◌, ==ℤ_iff, i32, i64}
use unifesp_sd.Fila.{Sfila, insere, esta_na_fila}
use unifesp_sd.Fila.Frente.{Frente, frente, Frente-insere, Frente-insere_novo}
use unifesp_sd.Rpc.Mensagem.{RequestIn, ReplyOut}
use unifesp_sd.Rpc.Servidor.{
  Sitem, sitem_chave, novo_item, insere_int, Servidor, aberta, aguarda, saiu, girando, retorna,
  presa, concede, espera_vez, req_1_svc,
}
use unifesp_sd.Rpc.Servidor.Invariante.{IsDez, aguarda-girando}

espera_vez-presa :
    (s : Servidor) (req : RequestIn) (x : Sitem) (r : Option (Sfila Sitem × Bool))
    → Frente x r
    → (x.pid ==ℤ req.pid_c) ≡ false
    → (t : Servidor) × ((k : ℕ) → espera_vez k s req r ≡ presa t)
unfolding espera_vez
espera_vez-presa s req x _ (frente {g} ys e) other = (
  record s { fila = some g },
  λ k.
      let turning : aguarda k g.head req.pid_c ≡ girando =
        rw e (aguarda-girando k x ys req.pid_c other) in
      rw (turning, concede),
)

espera_vez-retorna :
    (k : ℕ) (s : Servidor) (req : RequestIn) (x : Sitem) (r : Option (Sfila Sitem × Bool))
    → Frente x r
    → (x.pid ==ℤ req.pid_c) ≡ true
    → (t : Servidor) × (rep : ReplyOut) × (espera_vez (suc k) s req r ≡ retorna t rep)
      × (rep.recurso ≡ s.token)
unfolding espera_vez
espera_vez-retorna k s req x _ (frente {g} ys e) mine =
    let left : aguarda (suc k) g.head req.pid_c ≡ saiu = rw (e, aguarda) (rw mine) in
    (
      record s { tempo = i64 (s.tempo +ℤ pos 1); fila = some g },
      record { pid_c = req.pid_c; tempo_s = i64 (s.tempo +ℤ pos 1); recurso = s.token },
      rw (left, concede),
      refl,
    )

aberta-some : (o : Option (Sfila Sitem)) (f : Sfila Sitem) → o ≡ some f → aberta o ≡ f
unfolding aberta
aberta-some o f q = rw q

-- On a well-formed queue of ten places, a client whose request comes while another is first, with a
-- `tempo` (as `int`) no later, blocks the server: `req_1_svc` is still in its loop after any number
-- of turns, in a state that does not depend on the number.
pub bloqueio :
    (s : Servidor) (req : RequestIn) (f : Sfila Sitem) (x : Sitem) (xs : List Sitem)
    → s.fila ≡ some f
    → IsDez f
    → f.head ≡ x ∷ xs
    → x.pid ≢ req.pid_c
    → x.tempo ≤ℤ i32 req.tempo_c
    → (t : Servidor) × ((k : ℕ) → req_1_svc k s req ≡ presa t)
unfolding req_1_svc insere_int
bloqueio s req f x xs q d e other late =
    let apart : (x.pid ==ℤ req.pid_c) ≡ false = ground (arith, ==ℤ_iff x.pid req.pid_c) in
    subst
      (λ g.
        (t : Servidor) × ((k : ℕ)
          → espera_vez k s req (insere g (novo_item req.pid_c req.tempo_c)) ≡ presa t))
      (sym (aberta-some s.fila f q))
      (espera_vez-presa s req x _
        (Frente-insere f (novo_item req.pid_c req.tempo_c) x xs e d.fila late) apart)

-- A client whose request is earlier (as `int`) than that of the first in the queue is given the token
-- at once, at the first test of the loop, whether or not the first has it: on a well-formed queue of
-- ten places with a free one, if its PID is an `int` and not in the queue.
pub fura_fila :
    (s : Servidor) (req : RequestIn) (f : Sfila Sitem) (x : Sitem) (xs : List Sitem) (k : ℕ)
    → s.fila ≡ some f
    → IsDez f
    → f.head ≡ x ∷ xs
    → suc f.tamanho ≤ f.n
    → esta_na_fila f (novo_item req.pid_c req.tempo_c) ≡ false
    → i32 req.pid_c ≡ req.pid_c
    → i32 req.tempo_c <ℤ x.tempo
    → (t : Servidor) × (r : ReplyOut) × (req_1_svc (suc k) s req ≡ retorna t r)
      × (r.recurso ≡ s.token)
unfolding req_1_svc
fura_fila s req f x xs k q d e room new fits early =
    let mine : (i32 req.pid_c ==ℤ req.pid_c) ≡ true = (==ℤ_iff (i32 req.pid_c) req.pid_c).1 fits in
    subst
      (λ g.
        (t : Servidor) × (r : ReplyOut) × (espera_vez (suc k) s req
            (insere g (novo_item req.pid_c req.tempo_c))
          ≡ retorna t r)
        × (r.recurso ≡ s.token))
      (sym (aberta-some s.fila f q))
      (espera_vez-retorna k s req (novo_item req.pid_c req.tempo_c) _
        (Frente-insere_novo f (novo_item req.pid_c req.tempo_c) x xs e d.fila room new early) mine)
