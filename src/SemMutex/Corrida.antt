-- ===== src/SemMutex/Corrida.antt =====
-- The calls that the server takes, one after the other, on the heap and on the abstract queue.
use unifesp_sd.Base.{
  ℕ, suc, ◌≡◌, ◌≢◌, refl, ap, subst, Bool, true, false, none, some, List, [], ◌∷◌,
}
use unifesp_sd.Base.Int.{ℤ}
use unifesp_sd.Lista.Memoria.{
  Ponteiro, nulo, No, Memoria, Comando, Fim, pronto, Retorna, Retorna-mono,
}
use unifesp_sd.Lista.Memoria
use unifesp_sd.Rpc.Mensagem.{RequestIn, Release, ReplyOut}
use unifesp_sd.Rpc.Servidor.{Chamada}
use unifesp_sd.Rpc.Servidor
use unifesp_sd.Rpc.Servidor.Invariante.{
  IsServidor, Atendida, atendida, esperando, req_1_svc-Atendida,
}
use unifesp_sd.Rpc.Servidor.Devolucao.{retira-Retirada}
use unifesp_sd.Rpcgen.Ponteiro.{retorna, presa}
use unifesp_sd.SemMutex.{Servidor, inicio, req_1_svc, rel_1_svc}
use unifesp_sd.SemMutex.Refina.{
  sem_fila, Mesmo, Refinou, retornou, esperou, req_1_svc-Refinou, rel_1_svc-Devolvida,
}

pub data Pedido : Type 0 where
  pede : RequestIn → Pedido
  devolve_token : Release → Pedido

-- What a run leaves: the replies that were sent, the variables, and whether the server still takes
-- calls, which it does not once a call of `req_1_svc` is in its loop for ever.
abbrev pub Saldo : Type 0 → Type 0
Saldo S = List ReplyOut × (S × Bool)

abbrev pub com_resposta : {S : Type 0} → ReplyOut → Saldo S → Saldo S
com_resposta r (rs, fim) = (r ∷ rs, fim)

-- On the abstract queue.
abbrev segue :
    (Servidor.Servidor → Saldo Servidor.Servidor) → Chamada ReplyOut → Saldo Servidor.Servidor
segue resto (Servidor.retorna a r) = com_resposta r (resto a)
segue resto (Servidor.presa a) = ([], (a, false))
segue resto Servidor.falha = ([], (Servidor.inicio, false))

abbrev pub percorre : ℕ → List Pedido → Servidor.Servidor → Saldo Servidor.Servidor
percorre k [] a = ([], (a, true))
percorre k (pede req ∷ ps) a = segue (percorre k ps) (Servidor.req_1_svc k a req)
percorre k (devolve_token rel ∷ ps) a = percorre k ps (Servidor.rel_1_svc a rel).0

-- The same on the heap, where `malloc` gives each call the address of no node.
pub data Corre (k : ℕ) : Servidor → Memoria → List Pedido → Saldo Servidor → Memoria → Type 0 where
  parte : (s : Servidor) (m : Memoria) → Corre k s m [] ([], (s, true)) m
  atendeu :
      {s t : Servidor} {m g h : Memoria} {req : RequestIn} {r : ReplyOut} {ps : List Pedido}
      {x : Saldo Servidor} (novo : Ponteiro) (lixo : No)
      → novo ≢ nulo
      → m novo ≡ none
      → req_1_svc k novo lixo s req m ≡ pronto (retorna t (some r)) g
      → Corre k t g ps x h
      → Corre k s m (pede req ∷ ps) (com_resposta r x) h
  prendeu :
      {s t : Servidor} {m g : Memoria} {req : RequestIn} {ps : List Pedido} (novo : Ponteiro)
      (lixo : No)
      → novo ≢ nulo
      → m novo ≡ none
      → req_1_svc k novo lixo s req m ≡ pronto (presa t) g
      → Corre k s m (pede req ∷ ps) ([], (t, false)) g
  devolveu :
      {s t : Servidor} {m g h : Memoria} {rel : Release} {z : ℤ} {ps : List Pedido}
      {x : Saldo Servidor} (item : Ponteiro) (lixo : No)
      → item ≢ nulo
      → m item ≡ none
      → rel_1_svc item lixo s rel m ≡ pronto (t, z) g
      → Corre k t g ps x h
      → Corre k s m (devolve_token rel ∷ ps) x h

-- Two runs that come to the same, and whose queue is well-formed.
pub record Igual (h : Memoria) (x : Saldo Servidor) (y : Saldo Servidor.Servidor) : Type 0 where
  pub respostas : x.0 ≡ y.0
  pub atende : x.1.1 ≡ y.1.1
  pub mesmo : Mesmo h x.1.0 y.1.0
  pub valida : IsServidor y.1.0.fila

com_resposta-Igual :
    (h : Memoria) (r : ReplyOut) (x : Saldo Servidor) (y : Saldo Servidor.Servidor)
    → Igual h x y
    → Igual h (com_resposta r x) (com_resposta r y)
com_resposta-Igual h r x y i = record {
  respostas = ap (λ rs. r ∷ rs) i.respostas;
  atende = i.atende;
  mesmo = i.mesmo;
  valida = i.valida;
}

Retorna-pronto :
    {A : Type 0} {P : A → Memoria → Type 0} {a : A} {m : Memoria} → Retorna P (pronto a m) → P a m
Retorna-pronto (Memoria.retorna a m p) = p

-- The queue of a call that is not undefined.
abbrev Valida : Chamada ReplyOut → Type 0
Valida (Servidor.retorna a r) = IsServidor a.fila
Valida (Servidor.presa a) = IsServidor a.fila
Valida Servidor.falha = Unit

Atendida-Valida :
    {a : Servidor.Servidor} {req : RequestIn} {c : Chamada ReplyOut} → Atendida a req c → Valida c
Atendida-Valida (atendida x xs e p d w) = d
Atendida-Valida (esperando x xs e p d w) = d

-- After a call that returned, what the abstract one does and leaves.
retornou-segue :
    {g h : Memoria} {t : Servidor} {r : ReplyOut} {x : Saldo Servidor} (c : Chamada ReplyOut)
    (resto : Servidor.Servidor → Saldo Servidor.Servidor)
    → Refinou g (retorna t (some r)) c
    → Valida c
    → ((a : Servidor.Servidor) → Mesmo g t a → IsServidor a.fila → Igual h x (resto a))
    → Igual h (com_resposta r x) (segue resto c)
retornou-segue {h} {x} _ resto (retornou {a} r mesmo) v f =
    com_resposta-Igual h r x (resto a) (f a mesmo v)

esperou-segue :
    {g : Memoria} {t : Servidor} (c : Chamada ReplyOut)
    (resto : Servidor.Servidor → Saldo Servidor.Servidor)
    → Refinou g (presa t) c
    → Valida c
    → Igual g ([], (t, false)) (segue resto c)
esperou-segue _ resto (esperou mesmo) v = record {
  respostas = refl;
  atende = refl;
  mesmo = mesmo;
  valida = v;
}

pub Corre-Igual :
    {k : ℕ} {s : Servidor} {m h : Memoria} {ps : List Pedido} {x : Saldo Servidor}
    (a : Servidor.Servidor)
    → Corre (suc k) s m ps x h
    → Mesmo m s a
    → IsServidor a.fila
    → Igual h x (percorre (suc k) ps a)
unfolding Servidor.rel_1_svc
Corre-Igual a (parte s m) mesmo v = record {
  respostas = refl;
  atende = refl;
  mesmo = mesmo;
  valida = v;
}
Corre-Igual {k} a (atendeu {s} {m} {req} {ps} novo lixo u w e run) mesmo v =
    retornou-segue (Servidor.req_1_svc (suc k) a req) (percorre (suc k) ps)
      (Retorna-pronto
        (subst (Retorna _) e (req_1_svc-Refinou (suc k) m s a req novo lixo mesmo v u w)))
      (Atendida-Valida (req_1_svc-Atendida k a req v)) (λ b. Corre-Igual b run)
Corre-Igual {k} a (prendeu {s} {m} {req} {ps} novo lixo u w e) mesmo v =
    esperou-segue (Servidor.req_1_svc (suc k) a req) (percorre (suc k) ps)
      (Retorna-pronto
        (subst (Retorna _) e (req_1_svc-Refinou (suc k) m s a req novo lixo mesmo v u w)))
      (Atendida-Valida (req_1_svc-Atendida k a req v))
Corre-Igual a (devolveu {s} {m} {rel} item lixo u w e run) mesmo v =
    let d =
      Retorna-pronto (subst (Retorna _) e (rel_1_svc-Devolvida m s a rel item lixo mesmo u w)) in
    Corre-Igual (Servidor.rel_1_svc a rel).0 run d.mesmo (retira-Retirada a.fila v).valida

-- Neither procedure has undefined behaviour, if it is given these by `malloc`.
abbrev pub Segura : ℕ → Servidor → Memoria → Ponteiro → No → Type 0
Segura k s m novo lixo =
    ((req : RequestIn) → Retorna (λ _ _. Unit {0}) (req_1_svc k novo lixo s req m))
    × ((rel : Release) → Retorna (λ _ _. Unit {0}) (rel_1_svc novo lixo s rel m))

Igual-Segura :
    {h : Memoria} {x : Saldo Servidor} {y : Saldo Servidor.Servidor} {novo : Ponteiro} (k : ℕ)
    (lixo : No)
    → Igual h x y
    → novo ≢ nulo
    → h novo ≡ none
    → Segura k x.1.0 h novo lixo
Igual-Segura {h} {x} {y} {novo} k lixo i u w = (
  λ req.
      Retorna-mono (req_1_svc-Refinou k h x.1.0 y.1.0 req novo lixo i.mesmo i.valida u w)
        λ r g p. tt,
  λ rel. Retorna-mono (rel_1_svc-Devolvida h x.1.0 y.1.0 rel novo lixo i.mesmo u w) λ r g p. tt,
)

-- The server from its start, with whatever in memory, on any calls, where `malloc` gives each the
-- address of no node and the loop of `req_1_svc` has any number of turns (one at least): it sends the
-- replies of the abstract server, stops taking calls where that does, and its variables and queue are
-- those of that server, whose queue is well-formed. Wherever such a run ends, neither procedure has
-- undefined behaviour on a next call, with an address of no node from `malloc`.
pub Corre-inicio :
    {k : ℕ} {m h : Memoria} {ps : List Pedido} {x : Saldo Servidor} {novo : Ponteiro} (lixo : No)
    → Corre (suc k) inicio m ps x h
    → novo ≢ nulo
    → h novo ≡ none
    → Igual h x (percorre (suc k) ps Servidor.inicio) × Segura (suc k) x.1.0 h novo lixo
unfolding inicio Servidor.inicio
Corre-inicio {k} lixo run u w =
    let i =
      Corre-Igual Servidor.inicio run (record { tempo = refl; token = refl; fila = sem_fila }) tt in
    (i, Igual-Segura (suc k) lixo i u w)
