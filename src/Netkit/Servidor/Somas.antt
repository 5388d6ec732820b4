-- ===== src/Netkit/Servidor/Somas.antt =====
-- The signed sums of the server, `TEMPO+1`, `req->tempo+1` and `++TEMPO`: they stay within their
-- types. C leaves a sum that does not undefined.
use unifesp_sd.Base.{ℕ, ◌≡◌, subst, sym, Option, none, some, List, [], ◌∷◌, All}
use unifesp_sd.Base.Int.{IsCurto, IsLong}
use unifesp_sd.Netkit.Mensagem.{
  Datagrama, recebe, recebe-inteira, Passo, segue, termina, falha, continua, terminou,
}
use unifesp_sd.Netkit.Servidor.{Servidor, Entrada, Envio, relogio, itera}
use unifesp_sd.Netkit.Servidor.Invariante.{Boa, IsServidor, IsInteira, Mantida, itera-Mantida}
use unifesp_sd.Netkit.Servidor.Relogio.{IsTempo-IsLong, IsRecente-IsTempo, relogio-IsRecente}

-- A whole message whose clock has a successor.
pub record IsRegular (d : Datagrama) : Type 0 where
  pub inteira : IsInteira d
  pub tempo : IsCurto d.corpo.tempo

module _ {C : Type 0} where
  -- The sums of a round on a datagram.
  pub record SomasCabem (s : Servidor C) (d : Datagrama) : Type 0 where
    pub recebido : IsCurto (recebe d s.req).tempo
    pub proprio : IsLong s.tempo
    pub resposta : IsLong (relogio s.tempo (recebe d s.req).tempo)

  abbrev pub Regular : Option (Datagrama × C × ℕ) → Type 0
  Regular none = Unit
  Regular (some (d, _, _)) = IsRegular d

  abbrev NaChegada : Servidor C → Option (Datagrama × C × ℕ) → Type 0
  NaChegada s none = Unit
  NaChegada s (some (d, _, _)) = SomasCabem s d

  abbrev Depois : Passo (Servidor C) (Envio C) → (Servidor C → Type 0) → Type 0
  Depois (segue s ms) P = P s
  Depois (termina c ms) P = Unit
  Depois (falha ms) P = Unit

  -- The sums of every round of a run.
  abbrev pub SomasDe : Servidor C → List (Entrada C) → Type 0
  SomasDe s [] = Unit
  SomasDe s (e ∷ es) = NaChegada s e.chegada × Depois (itera s e) (λ t. SomasDe t es)

  pub inteira-SomasCabem :
      (s : Servidor C) (d : Datagrama)
      → IsServidor s
      → IsInteira d
      → IsCurto d.corpo.tempo
      → SomasCabem s d
  inteira-SomasCabem s d v w h =
      let same : recebe d s.req ≡ d.corpo = recebe-inteira d s.req w.tamanho in
      record {
        recebido = subst (λ r. IsCurto r.tempo) (sym same) h;
        proprio = IsTempo-IsLong v.relogio;
        resposta =
            subst (λ r. IsLong (relogio s.tempo r.tempo)) (sym same)
              (IsTempo-IsLong
                (IsRecente-IsTempo (relogio-IsRecente s.tempo d.corpo.tempo v.relogio w.tempo)));
      }

  Regular-NaChegada :
      (s : Servidor C) (o : Option (Datagrama × C × ℕ)) → IsServidor s → Regular o → NaChegada s o
  Regular-NaChegada s none v h = tt
  Regular-NaChegada s (some (d, c, n)) v h = inteira-SomasCabem s d v h.inteira h.tempo

  pub Regular-Boa : (o : Option (Datagrama × C × ℕ)) → Regular o → Boa o
  Regular-Boa none h = tt
  Regular-Boa (some (d, c, n)) h = h.inteira

  Mantida-Depois :
      (r : Passo (Servidor C) (Envio C)) (P : Servidor C → Type 0)
      → Mantida r
      → ((s : Servidor C) → IsServidor s → P s)
      → Depois r P
  Mantida-Depois _ P (continua {s} v) f = f s v
  Mantida-Depois _ P (terminou c ms) f = tt

  pub executa-SomasDe :
      (s : Servidor C) (es : List (Entrada C))
      → IsServidor s
      → All (λ e. Regular e.chegada) es
      → SomasDe s es
  executa-SomasDe s [] v h = tt
  executa-SomasDe s (e ∷ es) v h = (
    Regular-NaChegada s e.chegada v h.0,
    Mantida-Depois (itera s e) (λ t. SomasDe t es) (itera-Mantida s e v (Regular-Boa e.chegada h.0))
        λ t w. executa-SomasDe t es w h.1,
  )
