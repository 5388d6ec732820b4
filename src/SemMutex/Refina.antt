-- ===== src/SemMutex/Refina.antt =====
-- The procedures on the heap do what those of Rpc.Servidor do.
use mathlib.Core.List.{nil≢cons}
use unifesp_sd.Base.{
  ℕ, zero, suc, ◌≡◌, ◌≢◌, ◌⊎◌, refl, ap, sym, subst, ◌∙◌, Bool, true, false, Option, none, some,
  List, [], ◌∷◌, map, Bool-cases, inl, inr,
}
use unifesp_sd.Base.Int.{ℤ, ◌==ℤ◌, i32}
use unifesp_sd.Fila.{Sfila}
use unifesp_sd.Fila
use unifesp_sd.Fila.Imagem.{imagem, imagens, insere-imagem, remove_item-imagem}
use unifesp_sd.Lista.{Lista, init}
use unifesp_sd.Lista.Memoria.{
  Ponteiro, nulo, No, Memoria, Fim, pronto, devolve, depois, le, le-Aponta, Retorna, depois-Retorna,
}
use unifesp_sd.Lista.Memoria
use unifesp_sd.Lista.Cadeia.{Celula, celula, celula_chave, Cadeia, fim, elo, IsLista, vista}
use unifesp_sd.Lista.Insercao.{insere-Inserida}
use unifesp_sd.Lista.Remocao.{Copia, remove_item-Removida}
use unifesp_sd.Rpc.Mensagem.{RequestIn, Release, ReplyOut}
use unifesp_sd.Rpc.Servidor.{
  Sitem, sitem_chave, Chamada, Volta, saiu, girando, novo_item, insere_int,
}
use unifesp_sd.Rpc.Servidor
use unifesp_sd.Rpc.Servidor.Invariante.{IsServidor, Aberta, com_cabeca, insere_int-Aberta}
use unifesp_sd.Rpcgen.Ponteiro.{Execucao, retorna, presa}
use unifesp_sd.SemMutex.{Servidor, aberta, aguarda, concede, req_1_svc, relogio, retira, rel_1_svc}

-- The entry that a cell stands for, and the queue that a list of cells does.
abbrev pub item_de : Celula → Sitem
item_de c = record { pid = c.pid; tempo = c.tempo }

abbrev pub abstrai : Lista → List Celula → Sfila Sitem
abstrai l cs = imagem item_de (λ c. refl) (λ c. refl) (vista l cs)

-- A queue in memory, or none yet, and the abstract one.
pub data Representa (m : Memoria) : Option Lista → Option (Sfila Sitem) → Type 0 where
  sem_fila : Representa m none none
  com_fila :
      {l : Lista} {cs : List Celula} → IsLista m l cs → Representa m (some l) (some (abstrai l cs))

pub record Mesmo (m : Memoria) (s : Servidor) (a : Servidor.Servidor) : Type 0 where
  pub tempo : s.tempo ≡ a.tempo
  pub token : s.token ≡ a.token
  pub fila : Representa m s.fila a.fila

-- A call of `req_1_svc` stands as the abstract one does.
pub data Refinou (m : Memoria) : Execucao Servidor ReplyOut → Chamada ReplyOut → Type 0 where
  retornou :
      {s : Servidor} {a : Servidor.Servidor} (r : ReplyOut)
      → Mesmo m s a
      → Refinou m (retorna s (some r)) (Servidor.retorna a r)
  esperou :
      {s : Servidor} {a : Servidor.Servidor} → Mesmo m s a → Refinou m (presa s) (Servidor.presa a)

aberta-IsLista :
    {m : Memoria} {o : Option Lista} {p : Option (Sfila Sitem)}
    → Representa m o p
    → (cs : List Celula) × IsLista m (aberta o) cs × (Servidor.aberta p ≡ abstrai (aberta o) cs)
unfolding aberta init Servidor.aberta Fila.init
aberta-IsLista sem_fila = ([], record { nos = fim; conta = refl }, refl)
aberta-IsLista (com_fila {l} {cs} is) = (cs, is, refl)

abbrev volta_de : Bool → Volta
volta_de true = saiu
volta_de false = girando

aguarda-Volta :
    (k : ℕ) (m : Memoria) (l : Lista) (c : Celula) (cs : List Celula) (pid : ℤ)
    → Cadeia m l.head (c ∷ cs)
    → (b : Bool) × (aguarda k l pid m ≡ pronto b m)
      × (Servidor.aguarda k (map item_de (c ∷ cs)) pid ≡ volta_de b)
unfolding aguarda Servidor.aguarda
aguarda-Volta zero m l c cs pid h = (false, refl, refl)
aguarda-Volta (suc k) m l _ _ pid (elo {pid = p} {tempo} {cs} a out s) =
    elim (Bool-cases (p ==ℤ pid)) [
      | inl e ↦ (true, rw (le-Aponta a) (rw e refl), rw (e, Servidor.aguarda))
      | inr e ↦
          let (b, u, v) = aguarda-Volta k m l (celula l.head p tempo) cs pid (elo a out s) in
          (b, rw (le-Aponta a) (rw e u), rw (e, Servidor.aguarda) v)
    ]

-- The abstract queue after an insertion.
insere_int-abstrai :
    (l l' : Lista) (cs ds : List Celula) (novo : Ponteiro) (pid tempo : ℤ) (b : Bool)
    → Fila.insere (vista l cs) (celula novo (i32 pid) (i32 tempo)) ≡ some (vista l' ds, b)
    → insere_int (abstrai l cs) pid tempo ≡ some (abstrai l' ds, b)
unfolding insere_int
insere_int-abstrai l l' cs ds novo pid tempo b e =
    insere-imagem item_de (λ c. refl) (λ c. refl) (vista l cs) (celula novo (i32 pid) (i32 tempo))
    ∙ ap (imagens item_de (λ c. refl) (λ c. refl)) e

concede-Refinou :
    (g : Memoria) (s : Servidor) (a : Servidor.Servidor) (req : RequestIn) (l : Lista)
    (ds : List Celula) (v : Bool)
    → s.tempo ≡ a.tempo
    → s.token ≡ a.token
    → IsLista g l ds
    → Refinou g
        (concede v (record s { fila = some l }) req)
        (Servidor.concede (volta_de v) (record a { fila = some (abstrai l ds) }) req)
unfolding concede Servidor.concede
concede-Refinou g s a req l ds true t u is =
    rw (t, u) (retornou _ (record { tempo = refl; token = refl; fila = com_fila is }))
concede-Refinou g s a req l ds false t u is =
    esperou (record { tempo = t; token = u; fila = com_fila is })

-- From the end of the insertion on, on cells that are not empty.
espera-Refinou :
    (k : ℕ) (g : Memoria) (s : Servidor) (a : Servidor.Servidor) (req : RequestIn) (l : Lista)
    (ds : List Celula) (b : Bool)
    → s.tempo ≡ a.tempo
    → s.token ≡ a.token
    → IsLista g l ds
    → Aberta (some (abstrai l ds, b))
    → Retorna
        (λ r h. Refinou h r (Servidor.espera_vez k a req (some (abstrai l ds, b))))
        (depois
          (aguarda k l req.pid_c g)
          (λ v. devolve (concede v (record s { fila = some l }) req)))
unfolding Servidor.espera_vez
espera-Refinou k g s a req l [] b t u is (com_cabeca x xs e d) = absurd (nil≢cons e)
espera-Refinou k g s a req l (c ∷ cs) b t u is ab =
    let (v, run, same) = aguarda-Volta k g l c cs req.pid_c is.nos in
    rw (run, same) (Memoria.retorna _ g (concede-Refinou g s a req l (c ∷ cs) v t u is))

-- On a queue in memory that is well-formed (or no queue yet), with the address of no node for the new
-- one, `req_1_svc` has no undefined behaviour, for any number of turns of its loop. It does to the
-- variables and the queue what the abstract `req_1_svc` does, returns the same reply, and waits where
-- that waits.
pub req_1_svc-Refinou :
    (k : ℕ) (m : Memoria) (s : Servidor) (a : Servidor.Servidor) (req : RequestIn) (novo : Ponteiro)
    (lixo : No)
    → Mesmo m s a
    → IsServidor a.fila
    → novo ≢ nulo
    → m novo ≡ none
    → Retorna (λ r g. Refinou g r (Servidor.req_1_svc k a req)) (req_1_svc k novo lixo s req m)
unfolding req_1_svc Servidor.req_1_svc
req_1_svc-Refinou k m s a req novo lixo mesmo v valido vago =
    let (cs, is, e) = aberta-IsLista mesmo.fila in
    let l = aberta s.fila in
    depois-Retorna (insere-Inserida novo lixo (i32 req.pid_c) (i32 req.tempo_c) is valido vago)
      λ (b, l') g ins.
        let igual : insere_int (Servidor.aberta a.fila) req.pid_c req.tempo_c
            ≡ some (abstrai l' ins.ds, b) =
          ap (λ f. insere_int f req.pid_c req.tempo_c) e
          ∙ insere_int-abstrai l l' cs ins.ds novo req.pid_c req.tempo_c b ins.passo in
        rw igual (
          espera-Refinou k g s a req l' ins.ds b mesmo.tempo mesmo.token ins.lista
            (subst Aberta igual (insere_int-Aberta a.fila req.pid_c req.tempo_c v)))

-- What `rel_1_svc` leaves: the state of the abstract one, the same result, and the node that
-- `removeItem` returned, still allocated.
pub record Devolvida (m : Memoria) (item : Ponteiro) (s : Servidor) (a : Servidor.Servidor)
    (rel : Release) (r : Servidor × ℤ) (g : Memoria) : Type 0 where
  pub mesmo : Mesmo g r.0 (Servidor.rel_1_svc a rel).0
  pub resultado : r.1 ≡ (Servidor.rel_1_svc a rel).1
  pub vaza : (s.fila ≡ none) ⊎ (g item ≢ none)

Copia-alocada :
    (item : Ponteiro) (lixo : No) (g : Memoria) (saiu : Option Celula)
    → Copia item lixo saiu g
    → g item ≢ none
Copia-alocada item lixo g none e h = let p = sym h ∙ e in absurd (cc)
Copia-alocada item lixo g (some c) (a, _, _) h = let p = sym h ∙ a.la in absurd (cc)

retira-Representa :
    (m : Memoria) (item : Ponteiro) (lixo : No) (o : Option Lista) (p : Option (Sfila Sitem))
    → Representa m o p
    → item ≢ nulo
    → m item ≡ none
    → Retorna
        (λ r g. Representa g r (Servidor.retira p) × ((o ≡ none) ⊎ (g item ≢ none)))
        (retira item lixo o m)
unfolding retira Servidor.retira
retira-Representa m item lixo _ _ sem_fila valido vago = Memoria.retorna none m (sem_fila, inl refl)
retira-Representa m item lixo _ _ (com_fila {l} {cs} is) valido vago =
    depois-Retorna (remove_item-Removida m l item lixo valido is vago) λ (p, l') g rem.
      let igual : (Fila.remove_item (abstrai l cs)).0 ≡ abstrai l' rem.ds =
        remove_item-imagem item_de (λ c. refl) (λ c. refl) (vista l cs)
        ∙ ap (λ r. imagem item_de (λ c. refl) (λ c. refl) r.0) rem.passo in
      Memoria.retorna (some l') g (
        subst (λ f. Representa g (some l') (some f)) (sym igual) (com_fila rem.lista),
        inr (Copia-alocada item lixo g rem.saiu rem.copia),
      )

-- On a queue in memory (or no queue yet), with the address of no node for the copy, `rel_1_svc` has no
-- undefined behaviour, and does to the variables and the queue what the abstract `rel_1_svc` does, with
-- the same result. The copy that `removeItem` made stays allocated, and nothing leads to it.
pub rel_1_svc-Devolvida :
    (m : Memoria) (s : Servidor) (a : Servidor.Servidor) (rel : Release) (item : Ponteiro)
    (lixo : No)
    → Mesmo m s a
    → item ≢ nulo
    → m item ≡ none
    → Retorna (Devolvida m item s a rel) (rel_1_svc item lixo s rel m)
unfolding rel_1_svc Servidor.rel_1_svc relogio Servidor.relogio
rel_1_svc-Devolvida m s a rel item lixo mesmo valido vago =
    depois-Retorna (retira-Representa m item lixo s.fila a.fila mesmo.fila valido vago)
      λ o g (rep, vaza). Memoria.retorna _ g (record {
        mesmo = record { tempo = rw mesmo.tempo; token = refl; fila = rep };
        resultado = refl;
        vaza = vaza;
      })
