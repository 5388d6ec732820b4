-- ===== src/Netkit/Sistema/Pendencia/Poucos.antt =====
-- The system while only the first clients ask: no more of them than the queue has places for.
use unifesp_sd.Base.{
  ℕ, zero, suc, ◌+◌, ◌≤◌, ◌<◌, ◌≡◌, ◌≢◌, refl, inl, inr, false, List, [], ◌∷◌, arith, length,
  Bool-cases, ◌==◌, leb, if◌then◌else◌,
}
use unifesp_sd.Base.Int.{ℤ, pos}
use unifesp_sd.Netkit.Mensagem.{Request}
use unifesp_sd.Netkit.Servidor.{Sitem}
use unifesp_sd.Netkit.Servidor.Invariante.{IsPid}
use unifesp_sd.Netkit.Cliente.{pedindo, esperando}
use unifesp_sd.Netkit.Cliente
use unifesp_sd.Netkit.Sistema.{Sistema, Anda, Alcanca, aqui, mais, soma}
use unifesp_sd.Netkit.Sistema.Ficha.{partida}
use unifesp_sd.Netkit.Sistema.Pendencia.{lugar_de, espera_de}
use unifesp_sd.Netkit.Sistema.Pendencia.Espera.{
  Folgada, parada, adiante, peso_fase-le, uma_pendencia,
}
use unifesp_sd.Netkit.Sistema.Pendencia.Vez.{Chega, vez_vem}

-- No client from `k` on waits.
abbrev pub Calados : ℕ → Sistema → Type 0
Calados k s = (i : ℕ) → k ≤ i → (s.clientes i).fase ≡ pedindo

-- A run that loses no datagram, in which no client from `k` on asks.
pub data Poucos (k : ℕ) (s : Sistema) : Sistema → Type 0 where
  comeco : Poucos k s s
  passo : {t u : Sistema} → Poucos k s t → Anda t 0 u → Calados k u → Poucos k s u

-- The sum of `f` below `k`.
abbrev ate : ℕ → (ℕ → ℕ) → ℕ
ate zero f = 0
ate (suc k) f = f k + ate k f

ate-add : (k : ℕ) (f g : ℕ → ℕ) → ate k (λ i. f i + g i) ≡ ate k f + ate k g
ate-add zero f g = refl
ate-add (suc k) f g = omega (arith, ate-add k f g)

ate-le : (k : ℕ) (f : ℕ → ℕ) → ((i : ℕ) → f i ≤ 1) → ate k f ≤ k
ate-le zero f h = omega arith
ate-le (suc k) f h = omega (arith, ate-le k f h, h k)

ate-zero : (k : ℕ) → ate k (λ i. 0) ≡ 0
ate-zero zero = refl
ate-zero (suc k) = omega (arith, ate-zero k)

ate-fora : (k c : ℕ) → k ≤ c → ate k (λ i. if i == c then 1 else 0) ≡ 0
ate-fora zero c h = refl
ate-fora (suc k) c h =
    let n : (k == c) ≡ false = ground arith in
    let rest = ate-fora k c (omega arith) in rw n (omega arith)

-- One of the numbers below `k` is `c`.
ate-um : (k c : ℕ) → c < k → ate k (λ i. if i == c then 1 else 0) ≡ 1
ate-um zero c h = absurd (omega arith)
ate-um (suc k) c h = elim (Bool-cases (k == c)) [
  | inl y ↦ let rest = ate-fora k c (ground arith) in rw y (omega arith)
  | inr n ↦ let rest = ate-um k c (ground arith) in rw n (omega arith)
]

-- Entries of clients below `k` only are counted by client.
ate-length :
    (k : ℕ) (xs : List (Sitem ℕ))
    → ((i : ℕ) → k ≤ i → soma (lugar_de i) xs ≡ 0)
    → ate k (λ i. soma (lugar_de i) xs) ≡ length xs
ate-length k [] h = ate-zero k
ate-length k (x ∷ xs) h =
    let rest = ate-length k xs λ i l. let z = h i l in omega arith in
    let split = ate-add k (λ i. lugar_de i x) (λ i. soma (lugar_de i) xs) in
    elim (Bool-cases (leb k x.caddr)) [
      | inl far ↦
          let z = h x.caddr (ground arith) in
          let own : lugar_de x.caddr x ≡ 1 = ground arith in absurd (omega arith)
      | inr near ↦ let own = ate-um k x.caddr (ground arith) in omega arith
    ]

module _ (a b c : Request) (pid : ℕ → ℤ) (req resp : ℕ → Request) (cabe : (i : ℕ) → IsPid (pid i))
    (vivo : (i : ℕ) → pid i ≢ pos 0) where
  -- In any state that is reached, the clients that wait bound the queue.
  fila_cabe :
      {n : ℕ} {s : Sistema} (k : ℕ)
      → Alcanca (partida a b c pid req resp) n s
      → Calados k s
      → length s.servidor.fila.head ≤ k
  fila_cabe {s} k r quiet =
      let few = λ (i : ℕ). uma_pendencia a b c pid req resp cabe vivo i r in
      let one = λ (i : ℕ). peso_fase-le (s.clientes i).fase in
      let count =
        ate-length k s.servidor.fila.head
          λ i l. let p : espera_de i s ≡ 0 = rw (quiet i l) refl in let f = few i in omega arith in
      let bound =
        ate-le k (λ i. soma (lugar_de i) s.servidor.fila.head)
          λ i. let f = few i in let o = one i in omega arith in
      omega arith

  Poucos-Alcanca :
      {k : ℕ} {s : Sistema}
      → Poucos k (partida a b c pid req resp) s
      → Alcanca (partida a b c pid req resp) 0 s
  Poucos-Alcanca comeco = aqui
  Poucos-Alcanca (passo r st quiet) = mais (Poucos-Alcanca r) st refl

  Poucos-Calados : {k : ℕ} {s : Sistema} → Poucos k (partida a b c pid req resp) s → Calados k s
  unfolding Cliente.inicio
  Poucos-Calados comeco = λ i l. refl
  Poucos-Calados (passo r st quiet) = quiet

  -- With nine of them at most there is always a free place.
  Poucos-Folgada :
      (k : ℕ) {s : Sistema}
      → k ≤ 9
      → Poucos k (partida a b c pid req resp) s
      → Folgada (partida a b c pid req resp) s
  Poucos-Folgada k nine comeco = parada
  Poucos-Folgada k nine (passo r st quiet) =
      let room = fila_cabe k (Poucos-Alcanca r) (Poucos-Calados r) in
      adiante (Poucos-Folgada k nine r) (omega arith) st

  -- In a run that loses no datagram, where PIDs differ and no client from `k` on asks, for a `k` of
  -- nine at most: the queue has `k` entries at most, and for each client that waits the system can
  -- go on without a loss to where the token is on the way to it.
  pub todos_servidos :
      {s : Sistema} (k : ℕ)
      → k ≤ 9
      → ((i j : ℕ) → pid i ≡ pid j → i ≡ j)
      → Poucos k (partida a b c pid req resp) s
      → (length s.servidor.fila.head ≤ k) × ((i : ℕ) → (s.clientes i).fase ≡ esperando → Chega s i)
  todos_servidos {s} k nine distintos r =
      let room = fila_cabe k (Poucos-Alcanca r) (Poucos-Calados r) in
      (
        room,
        λ i p.
            vez_vem a b c pid req resp cabe vivo s i distintos (Poucos-Folgada k nine r)
              (omega arith) p,
      )
