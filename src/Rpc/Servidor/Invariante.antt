-- ===== src/Rpc/Servidor/Invariante.antt =====
-- The invariant of the RPC server and its two procedures.
use unifesp_sd.Base.{
  ℕ, zero, suc, ◌≤◌, ◌<◌, ◌≡◌, ◌≢◌, ◌⊎◌, subst, refl, ap, inl, inr, Bool, true, false, Option, none,
  some, List, [], ◌∷◌, arith, ◌∙◌, Bool-cases, length,
}
use unifesp_sd.Base.Int.{ℤ, pos, ◌+ℤ◌, ◌==ℤ◌, ==ℤ_iff, i64}
use unifesp_sd.Fila.{Sfila, init, esta_na_fila, procura}
use unifesp_sd.Fila.Conteudo.{length-Encaixe}
use unifesp_sd.Fila.Ordem.{Encaixe}
use unifesp_sd.Fila.Invariante.{IsFila, init-IsFila, Inserido, entrou, recusado, insere-Inserido}
use unifesp_sd.Rpc.Mensagem.{RequestIn, ReplyOut}
use unifesp_sd.Rpc.Servidor.{
  Sitem, sitem_chave, novo_item, insere_int, Servidor, aberta, aguarda, saiu, girando, Chamada,
  retorna, presa, espera_vez, req_1_svc,
}

-- A queue of ten places, well-formed.
pub record IsDez (f : Sfila Sitem) : Type 0 where
  pub fila : IsFila f
  pub lugares : f.n ≡ 10

abbrev pub IsServidor : Option (Sfila Sitem) → Type 0
IsServidor none = Unit
IsServidor (some f) = IsDez f

aberta-IsDez : (o : Option (Sfila Sitem)) → IsServidor o → IsDez (aberta o)
unfolding aberta init
aberta-IsDez none h = record { fila = init-IsFila 10; lugares = refl }
aberta-IsDez (some f) h = h

-- The entries of the queue, none while it is NULL.
abbrev pub entradas : Option (Sfila Sitem) → List Sitem
entradas none = []
entradas (some f) = f.head

-- The entries `ys` of the queue `o` after a request: the new one in its place among the others, if
-- fewer than ten were there and none had its PID; else those that were there.
pub data Recebeu (o : Option (Sfila Sitem)) (novo : Sitem) (ys : List Sitem) : Type 0 where
  posta :
      length (entradas o) < 10
      → procura novo.pid (entradas o) ≡ false
      → Encaixe novo (entradas o) ys
      → Recebeu o novo ys
  recusada :
      ((10 ≤ length (entradas o)) ⊎ (procura novo.pid (entradas o) ≡ true))
      → ys ≡ entradas o
      → Recebeu o novo ys

head-aberta : (o : Option (Sfila Sitem)) → (aberta o).head ≡ entradas o
unfolding aberta init
head-aberta none = refl
head-aberta (some f) = refl

Inserido-Recebeu :
    (o : Option (Sfila Sitem)) (novo : Sitem) (f : Sfila Sitem) (r : Option (Sfila Sitem × Bool))
    → IsDez f
    → f.head ≡ entradas o
    → Inserido f novo r
    → (g : Sfila Sitem) (b : Bool) → r ≡ some (g, b)
    → Recebeu o novo g.head
unfolding esta_na_fila
Inserido-Recebeu o novo f _ d e (entrou h room new p n w) g b q =
    let same : h ≡ g = cc in
    subst (λ k. Recebeu o novo k.head) same
      (posta (omega (arith, d.fila.conta, d.lugares, ap length e))
        (subst (λ ys. procura novo.pid ys ≡ false) e new)
        (subst (λ ys. Encaixe novo ys h.head) e p))
Inserido-Recebeu o novo f _ d e (recusado (inl full)) g b q =
    let same : f ≡ g = cc in
    subst (λ k. Recebeu o novo k.head) same
      (recusada (inl (omega (arith, d.fila.conta, d.lugares, ap length e))) e)
Inserido-Recebeu o novo f _ d e (recusado (inr known)) g b q =
    let same : f ≡ g = cc in
    subst (λ k. Recebeu o novo k.head) same
      (recusada (inr (subst (λ ys. procura novo.pid ys ≡ true) e known)) e)

-- After the insertion of `req_1_svc` the queue is well-formed and has a first entry.
pub data Aberta : Option (Sfila Sitem × Bool) → Type 0 where
  com_cabeca :
      {g : Sfila Sitem} {b : Bool} (x : Sitem) (xs : List Sitem)
      → g.head ≡ x ∷ xs
      → IsDez g
      → Aberta (some (g, b))

Aberta-length :
    (g : Sfila Sitem) (b : Bool) (xs : List Sitem)
    → g.head ≡ xs
    → 1 ≤ length g.head
    → IsDez g
    → Aberta (some (g, b))
Aberta-length g b [] e n d = absurd (omega (arith, ap length e))
Aberta-length g b (x ∷ xs) e n d = com_cabeca x xs e d

procura-pos : (p : ℤ) (xs : List Sitem) → procura p xs ≡ true → 1 ≤ length xs
unfolding procura
procura-pos p [] h = absurd (cc)
procura-pos p (x ∷ xs) h = omega arith

Inserido-Aberta :
    (f : Sfila Sitem) (novo : Sitem) (r : Option (Sfila Sitem × Bool))
    → IsDez f
    → Inserido f novo r
    → Aberta r
unfolding esta_na_fila
Inserido-Aberta f novo _ d (entrou g room new e n w) =
    Aberta-length g true g.head refl (omega (arith, length-Encaixe e))
      (record { fila = w; lugares = n ∙ d.lugares })
Inserido-Aberta f novo _ d (recusado (inl full)) =
    Aberta-length f false f.head refl (omega (arith, d.fila.conta, d.lugares)) d
Inserido-Aberta f novo _ d (recusado (inr known)) =
    Aberta-length f false f.head refl (procura-pos novo.pid f.head known) d

pub insere_int-Aberta :
    (o : Option (Sfila Sitem)) (pid tempo : ℤ)
    → IsServidor o
    → Aberta (insere_int (aberta o) pid tempo)
unfolding insere_int
insere_int-Aberta o pid tempo v =
    Inserido-Aberta (aberta o) (novo_item pid tempo) _ (aberta-IsDez o v)
      (insere-Inserido (aberta o) (novo_item pid tempo) (aberta-IsDez o v).fila)

insere_int-Recebeu :
    (o : Option (Sfila Sitem)) (pid tempo : ℤ)
    → IsServidor o
    → (g : Sfila Sitem) (b : Bool) → insere_int (aberta o) pid tempo ≡ some (g, b)
    → Recebeu o (novo_item pid tempo) g.head
unfolding insere_int
insere_int-Recebeu o pid tempo v =
    Inserido-Recebeu o (novo_item pid tempo) (aberta o) _ (aberta-IsDez o v) (head-aberta o)
      (insere-Inserido (aberta o) (novo_item pid tempo) (aberta-IsDez o v).fila)

pub aguarda-girando :
    (k : ℕ) (x : Sitem) (xs : List Sitem) (pid : ℤ)
    → (x.pid ==ℤ pid) ≡ false
    → aguarda k (x ∷ xs) pid ≡ girando
unfolding aguarda
aguarda-girando zero x xs pid h = refl
aguarda-girando (suc k) x xs pid h = rw (h, aguarda) (aguarda-girando k x xs pid h)

-- How a call of `req_1_svc` stands after some turns of its loop: returned, with the requester first
-- in the queue; or still in the loop, with another first. The queue is the old one after the request.
pub data Atendida (s : Servidor) (req : RequestIn) : Chamada ReplyOut → Type 0 where
  atendida :
      {g : Sfila Sitem} (x : Sitem) (xs : List Sitem)
      → g.head ≡ x ∷ xs
      → x.pid ≡ req.pid_c
      → IsDez g
      → Recebeu s.fila (novo_item req.pid_c req.tempo_c) g.head
      → Atendida s req (
          retorna
            (record s { tempo = i64 (s.tempo +ℤ pos 1); fila = some g })
            (record { pid_c = req.pid_c; tempo_s = i64 (s.tempo +ℤ pos 1); recurso = s.token }))
  esperando :
      {g : Sfila Sitem} (x : Sitem) (xs : List Sitem)
      → g.head ≡ x ∷ xs
      → x.pid ≢ req.pid_c
      → IsDez g
      → Recebeu s.fila (novo_item req.pid_c req.tempo_c) g.head
      → Atendida s req (presa (record s { fila = some g }))

espera_vez-Atendida :
    (k : ℕ) (s : Servidor) (req : RequestIn) (r : Option (Sfila Sitem × Bool))
    → Aberta r
    → ((g : Sfila Sitem) (b : Bool)
        → r ≡ some (g, b)
        → Recebeu s.fila (novo_item req.pid_c req.tempo_c) g.head)
    → Atendida s req (espera_vez (suc k) s req r)
unfolding espera_vez
espera_vez-Atendida k s req _ (com_cabeca {g} x xs e d) w =
    elim (Bool-cases (x.pid ==ℤ req.pid_c)) [
      | inl mine ↦
          let left : aguarda (suc k) g.head req.pid_c ≡ saiu = rw (e, aguarda) (rw mine) in
          rw left (atendida x xs e ((==ℤ_iff x.pid req.pid_c).0 mine) d (w g _ refl))
      | inr other ↦
          let turning : aguarda (suc k) g.head req.pid_c ≡ girando =
            rw e (aguarda-girando (suc k) x xs req.pid_c other) in
          rw turning (esperando x xs e (λ q. cc ((==ℤ_iff x.pid req.pid_c).1 q)) d (w g _ refl))
    ]

-- `req_1_svc` never dereferences NULL, and keeps the queue well-formed: the entries that it had,
-- none before the first call, with the request in its place unless ten are there or its PID is. However many turns its loop
-- is given (one at least), it has returned the token's value exactly if the requester is first in
-- the queue after the insertion, and else it is still in the loop.
pub req_1_svc-Atendida :
    (k : ℕ) (s : Servidor) (req : RequestIn)
    → IsServidor s.fila
    → Atendida s req (req_1_svc (suc k) s req)
unfolding req_1_svc
req_1_svc-Atendida k s req v =
    espera_vez-Atendida k s req _ (insere_int-Aberta s.fila req.pid_c req.tempo_c v)
      (insere_int-Recebeu s.fila req.pid_c req.tempo_c v)
