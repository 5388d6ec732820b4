-- ===== src/Rpc/Servidor/Devolucao.antt =====
-- What `rel_1_svc` does to the token, the queue and the clock.
use unifesp_sd.Base.{◌≡◌, refl, ◌∙◌, inl, inr, Option, none, some, List, [], ◌∷◌, arith, Bool-cases}
use unifesp_sd.Base.Int.{IsLong, i64-suc, ℤ, ◌+ℤ◌, ◌<ℤ◌, ltb_ℤ}
use unifesp_sd.Fila.{Sfila, remove_item}
use unifesp_sd.Fila.Invariante.{Removido, vazia, saiu, remove_item-Removido}
use unifesp_sd.Rpc.Mensagem.{Release}
use unifesp_sd.Rpc.Servidor.{Sitem, sitem_chave, Servidor, relogio, retira, rel_1_svc}
use unifesp_sd.Rpc.Servidor.Invariante.{IsDez, IsServidor}

relogio-lt : (t r : ℤ) → IsLong t → IsLong r → (t <ℤ relogio t r) × (r <ℤ relogio t r)
unfolding relogio
relogio-lt t r h g = elim (Bool-cases (ltb_ℤ r t)) [
  | inl e ↦ rw (e, i64-suc t h) (unfold ◌+ℤ◌ in ground arith)
  | inr e ↦ rw (e, i64-suc r g) (unfold ◌+ℤ◌ in ground arith)
]

abbrev pub entradas : Option (Sfila Sitem) → List Sitem
entradas none = []
entradas (some f) = f.head

abbrev pub sem_primeira : List Sitem → List Sitem
sem_primeira [] = []
sem_primeira (x ∷ xs) = xs

-- The queue after a release.
pub record Retirada (o p : Option (Sfila Sitem)) : Type 0 where
  pub valida : IsServidor p
  resto : entradas p ≡ sem_primeira (entradas o)

Removido-Retirada :
    (f : Sfila Sitem) (r : Sfila Sitem × Option Sitem)
    → IsDez f
    → Removido f r
    → Retirada (some f) (some r.0)
Removido-Retirada f _ d (vazia e) = record { valida = d; resto = ground arith }
Removido-Retirada f _ d (saiu x g e n a w) = record {
  valida = record { fila = w; lugares = n ∙ d.lugares };
  resto = ground arith;
}

pub retira-Retirada : (o : Option (Sfila Sitem)) → IsServidor o → Retirada o (retira o)
unfolding retira
retira-Retirada none v = record { valida = tt; resto = refl }
retira-Retirada (some f) d = Removido-Retirada f (remove_item f) d (remove_item-Removido f d.fila)

-- Whoever calls it, `rel_1_svc` stores the value that it is given, drops the first entry of the
-- queue, which stays well-formed, and moves the clock past both clocks, where a `long` holds them
-- and their successors.
pub rel_1_svc_lem :
    (s : Servidor) (rel : Release)
    → IsServidor s.fila
    → IsLong s.tempo
    → IsLong rel.tempo_c
    → ((rel_1_svc s rel).0.token ≡ rel.recurso_n)
      × IsServidor (rel_1_svc s rel).0.fila
      × (entradas (rel_1_svc s rel).0.fila ≡ sem_primeira (entradas s.fila))
      × (s.tempo <ℤ (rel_1_svc s rel).0.tempo)
      × (rel.tempo_c <ℤ (rel_1_svc s rel).0.tempo)
unfolding rel_1_svc
rel_1_svc_lem s rel v h g =
    let w = retira-Retirada s.fila v in
    let (after, later) = relogio-lt s.tempo rel.tempo_c h g in
    (refl, w.valida, w.resto, after, later)
