-- ===== src/Netkit/Coordenador/Corrida.antt =====
-- Runs of the coordinator, the server's runs as such, and who is served when.
use unifesp_sd.Base.{
  ℕ, ◌≤◌, ◌≡◌, refl, ap, ◌∙◌, Option, some, List, [], ◌∷◌, ◌++◌, arith, All, length, map, suc,
  All-mono,
}
use unifesp_sd.Base.Int.{ℤ}
use unifesp_sd.Netkit.Mensagem.{
  Datagrama, Passo, segue, antes, em_seguida, enviadas, continua, release_token,
}
use unifesp_sd.Netkit.Servidor.{Servidor, Sitem, Entrada, Envio, itera, executa}
use unifesp_sd.Netkit.Servidor.Invariante.{IsServidor, IsInteira, itera-Mantida, Mantida}
use unifesp_sd.Netkit.Coordenador.{
  Coordenador, Evento, devolucao, Concessao, concessao, Passa, repassa, guarda, concede, aguarda,
  recusa, ignora,
}
use unifesp_sd.Netkit.Coordenador.Refina.{
  visto, evento, concedidas, lista, Refina, refina, entrega, itera-Refina,
}

-- A message with its sender.
abbrev pub Recado : Type 0 → Type 0
Recado C = Datagrama × C × ℕ

module _ {C : Type 0} where
  -- The steps on a list of events, with all the grants.
  pub data Corre
      : Coordenador C → List (Evento C) → List (Concessao C) → Coordenador C → Type 0 where
    parado : {a : Coordenador C} → Corre a [] [] a
    passo :
        {a b c : Coordenador C} {ev : Evento C} {evs : List (Evento C)} {gs cs : List (Concessao C)}
        (g : Option (Concessao C))
        → Passa a b ev g
        → Corre b evs gs c
        → cs ≡ lista g ++ gs
        → Corre a (ev ∷ evs) cs c

  concedidas-append :
      (ms ns : List (Envio C)) → concedidas (ms ++ ns) ≡ concedidas ms ++ concedidas ns
  concedidas-append [] ns = refl
  concedidas-append (m ∷ ms) ns = ground (arith, concedidas-append ms ns)

  abbrev pub entregas : List (Recado C) → List (Entrada C)
  entregas [] = []
  entregas ((d, caddr, addrlen) ∷ rs) = entrega d caddr addrlen ∷ entregas rs

  abbrev pub eventos : List (Recado C) → List (Evento C)
  eventos [] = []
  eventos ((d, caddr, addrlen) ∷ rs) = evento d.corpo caddr addrlen ∷ eventos rs

  -- The run went on to its end, and did what a run of the coordinator on `evs` does.
  pub data Percorre (s : Servidor C) (evs : List (Evento C))
      : Passo (Servidor C) (Envio C) → Type 0 where
    percorre :
        {s' : Servidor C} {ms : List (Envio C)}
        → IsServidor s'
        → Corre (visto s) evs (concedidas ms) (visto s')
        → Percorre s evs (segue s' ms)

  em_seguida-Percorre :
      (s : Servidor C) (ev : Evento C) (evs : List (Evento C)) (r : Passo (Servidor C) (Envio C))
      (f : Servidor C → Passo (Servidor C) (Envio C))
      → Refina s ev r
      → Mantida r
      → ((t : Servidor C) → IsServidor t → Percorre t evs (f t))
      → Percorre s (ev ∷ evs) (em_seguida r f)
  em_seguida-Percorre s ev evs _ f (refina {s' = t} {ms} g p q) m h = junta (f t) (h t (valido m))
    where
      valido : Mantida (segue t ms) → IsServidor t
      valido (continua v) = v

      junta :
          (r : Passo (Servidor C) (Envio C)) → Percorre t evs r → Percorre s (ev ∷ evs) (antes ms r)
      junta _ (percorre {ms = ns} v c) =
          percorre v (passo g p c (concedidas-append ms ns ∙ ap (λ l. l ++ concedidas ns) q))

  -- From the server's invariant, a run over whole messages, with an `int` clock and a PID whose low
  -- byte is not 255, in which every `sendto` succeeds is a run of the coordinator over the events that
  -- they are: same token, same queue, same grants in the same order.
  pub executa-Percorre :
      (s : Servidor C) (rs : List (Recado C))
      → IsServidor s
      → All (λ r. IsInteira r.0) rs
      → Percorre s (eventos rs) (executa s (entregas rs))
  unfolding executa
  executa-Percorre s [] v h = percorre v parado
  executa-Percorre s ((d, caddr, addrlen) ∷ rs) v h =
      em_seguida-Percorre s (evento d.corpo caddr addrlen) (eventos rs)
        (itera s (entrega d caddr addrlen)) (λ t. executa t (entregas rs))
        (itera-Refina s d caddr addrlen v h.0) (itera-Mantida s (entrega d caddr addrlen) v h.0)
        λ t w. executa-Percorre t rs w h.1

  -- Each waiting client with the value that comes back for it.
  abbrev pub serve : List (Sitem C) → List ℤ → List (Concessao C)
  serve [] vs = []
  serve (x ∷ xs) [] = []
  serve (x ∷ xs) (v ∷ vs) = concessao x v ∷ serve xs vs

  Corre-nil :
      {a b : Coordenador C} {evs : List (Evento C)} {cs : List (Concessao C)}
      → Corre a evs cs b
      → evs ≡ []
      → cs ≡ []
  Corre-nil parado e = refl
  Corre-nil (passo g p c q) e = absurd (cc)

  -- A token that comes back goes to the first who waits, and the others move up.
  Passa-primeiro :
      {a b : Coordenador C} {ev : Evento C} {g : Option (Concessao C)} (v : ℤ) (y : Sitem C)
      (ys : List (Sitem C))
      → Passa a b ev g
      → ev ≡ devolucao v
      → a.espera ≡ y ∷ ys
      → (b.espera ≡ ys) × (g ≡ some (concessao y v))
  Passa-primeiro v y ys (concede x h q) e w = absurd (cc)
  Passa-primeiro v y ys (aguarda x h r n i q) e w = absurd (cc)
  Passa-primeiro v y ys (recusa x h r q) e w = absurd (cc)
  Passa-primeiro v y ys (repassa u z h q) e w = (ground arith, ground arith)
  Passa-primeiro v y ys (guarda u h q) e w = absurd (cc)
  Passa-primeiro v y ys (ignora q) e w = absurd (cc)

  Corre-serve :
      (vs : List ℤ) (xs : List (Sitem C)) {a b : Coordenador C} {evs : List (Evento C)}
      {cs : List (Concessao C)}
      → Corre a evs cs b
      → evs ≡ map devolucao vs
      → a.espera ≡ xs
      → length vs ≤ length xs
      → cs ≡ serve xs vs
  Corre-serve [] [] c e w h = Corre-nil c e
  Corre-serve [] (x ∷ xs) c e w h = Corre-nil c e
  Corre-serve (v ∷ vs) [] c e w h = absurd (omega arith)
  Corre-serve (v ∷ vs) (x ∷ xs) parado e w h = absurd (cc)
  Corre-serve (v ∷ vs) (x ∷ xs) (passo g p c q) e w h =
      let (moved, got) = Passa-primeiro v x xs p (ground arith) w in
      let rest = Corre-serve vs xs c (ground arith) moved (omega arith) in rw (q, got, rest)

  Percorre-serve :
      (s : Servidor C) (vs : List ℤ) {evs : List (Evento C)} {r : Passo (Servidor C) (Envio C)}
      → Percorre s evs r
      → evs ≡ map devolucao vs
      → length vs ≤ length s.fila.head
      → concedidas (enviadas r) ≡ serve s.fila.head vs
  Percorre-serve s vs (percorre v c) e h = Corre-serve vs s.fila.head c e refl h

  -- The values that a list of messages brings back, if each is a RELEASE_TOKEN.
  abbrev pub Devolucoes : List (Recado C) → Type 0
  Devolucoes rs = All (λ r. (r.0.corpo.cod ≡ release_token) × IsInteira r.0) rs

  abbrev pub valores : List (Recado C) → List ℤ
  valores rs = map (λ r. r.0.corpo.rec) rs

  eventos-devolucao :
      (rs : List (Recado C)) → Devolucoes rs → eventos rs ≡ map devolucao (valores rs)
  eventos-devolucao [] h = refl
  eventos-devolucao ((d, caddr, addrlen) ∷ rs) h = rw (h.0.0, eventos-devolucao rs h.1)

  length-valores : (rs : List (Recado C)) → length (valores rs) ≡ length rs
  length-valores [] = refl
  length-valores (r ∷ rs) = ap suc (length-valores rs)

  -- In a run of releases alone, with no request in between, the queue is served in order: from the
  -- server's invariant, while whole releases arrive (with an `int` clock and a PID whose low byte is
  -- not 255), no more than clients wait, and every `sendto` succeeds, each release is answered by a
  -- reply to the next client in queue order, with the value that it brought.
  pub fila_servida :
      (s : Servidor C) (rs : List (Recado C))
      → IsServidor s
      → Devolucoes rs
      → length rs ≤ length s.fila.head
      → concedidas (enviadas (executa s (entregas rs))) ≡ serve s.fila.head (valores rs)
  fila_servida s rs v h n =
      Percorre-serve s (valores rs) (executa-Percorre s rs v (All-mono rs (λ r g. g.1) h))
        (eventos-devolucao rs h) (omega (arith, length-valores rs))
