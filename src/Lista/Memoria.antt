-- ===== src/Lista/Memoria.antt =====
-- The memory that holds the nodes, and the commands of C on it.
use unifesp_sd.Base.{ℕ, ◌≡◌, ◌≢◌, false, Option, none, some, arith, ◌==◌, if◌then◌else◌}
use unifesp_sd.Base.Int.{ℤ}

abbrev pub Ponteiro : Type 0
Ponteiro = ℕ

abbrev pub nulo : Ponteiro
nulo = 0

-- `struct Sitem`
pub record No : Type 0 where
  pub pid : ℤ
  pub tempo : ℤ
  pub next : Ponteiro

-- The nodes that are allocated.
abbrev pub Memoria : Type 0
Memoria = Ponteiro → Option No

unfoldable pub grava : Memoria → Ponteiro → Option No → Memoria
grava m p c a = if a == p then c else m a

-- A command returns, has undefined behaviour, or uses up the turns of a loop.
pub data Fim (A : Type 0) : Type 0 where
  pronto : A → Memoria → Fim A
  indefinido : Fim A
  sem_voltas : Fim A

abbrev pub Comando : Type 0 → Type 0
Comando A = Memoria → Fim A

abbrev pub devolve : {A : Type 0} → A → Comando A
devolve a m = pronto a m

module _ {A B : Type 0} where
  abbrev pub depois : Fim A → (A → Comando B) → Fim B
  depois (pronto a m) f = f a m
  depois indefinido f = indefinido
  depois sem_voltas f = sem_voltas

  infixl 5 ◌>>=◌ ◌>>◌
  abbrev pub ◌>>=◌ : Comando A → (A → Comando B) → Comando B
  c >>= f = λ m. depois (c m) f

  abbrev pub ◌>>◌ : Comando A → Comando B → Comando B
  c >> d = c >>= λ _. d

-- `malloc` gave the address `p`, with `lixo` there; NULL if memory is exhausted.
unfoldable pub malloc : Ponteiro → No → Comando (Unit {0})
malloc p lixo m = pronto tt (if p == nulo then m else grava m p (some lixo))

-- `*p`, undefined at NULL and at an address that holds no node
unfoldable pub le : Ponteiro → Comando No
le p m = if p == nulo then indefinido else elim (m p) [ none ↦ indefinido | some v ↦ pronto v m ]

-- A store to fields of `*p`.
unfoldable pub muda : Ponteiro → (No → No) → Comando (Unit {0})
unfolding le
muda p f = do v ← le p; λ m. pronto tt (grava m p (some (f v)))

unfoldable pub free : Ponteiro → Comando (Unit {0})
unfolding le
free p = do v ← le p; λ m. pronto tt (grava m p none)

-- The node `v` stands at `p`.
pub record Aponta (m : Memoria) (p : Ponteiro) (v : No) : Type 0 where
  pub valido : p ≢ nulo
  pub la : m p ≡ some v

module _ {m : Memoria} {p : Ponteiro} {v : No} (e : Aponta m p v) where
  pub Aponta-nulo : (p == nulo) ≡ false
  Aponta-nulo = let h = e.valido in ground arith

  pub le-Aponta : le p m ≡ pronto v m
  unfolding le
  le-Aponta = rw (Aponta-nulo, e.la)

  pub muda-Aponta : (f : No → No) → muda p f m ≡ pronto tt (grava m p (some (f v)))
  unfolding muda
  muda-Aponta f = rw (Aponta-nulo, e.la)

  pub free-Aponta : free p m ≡ pronto tt (grava m p none)
  unfolding free
  free-Aponta = rw (Aponta-nulo, e.la)

  -- A store elsewhere leaves it.
  pub Aponta-grava_fora : (a : Ponteiro) (c : Option No) → a ≢ p → Aponta (grava m a c) p v
  unfolding grava
  Aponta-grava_fora a c h = record { valido = e.valido; la = let l = e.la in ground arith }

pub Aponta-grava :
    (m : Memoria) (p : Ponteiro) (v : No) → p ≢ nulo → Aponta (grava m p (some v)) p v
unfolding grava
Aponta-grava m p v h = record { valido = h; la = ground arith }

-- A command returns, with `P` of its result and of the memory.
pub data Retorna {A : Type 0} (P : A → Memoria → Type 0) : Fim A → Type 0 where
  retorna : (a : A) (m : Memoria) → P a m → Retorna P (pronto a m)

pub depois-Retorna :
    {A B : Type 0} {P : A → Memoria → Type 0} {Q : B → Memoria → Type 0} {r : Fim A}
    {f : A → Comando B}
    → Retorna P r
    → ((a : A) (m : Memoria) → P a m → Retorna Q (f a m))
    → Retorna Q (depois r f)
depois-Retorna (retorna a m p) h = h a m p

pub Retorna-mono :
    {A : Type 0} {P Q : A → Memoria → Type 0} {r : Fim A}
    → Retorna P r
    → ((a : A) (m : Memoria) → P a m → Q a m)
    → Retorna Q r
Retorna-mono (retorna a m p) h = retorna a m (h a m p)

pub malloc-Aponta :
    (p : Ponteiro) (lixo : No) (m : Memoria)
    → p ≢ nulo
    → malloc p lixo m ≡ pronto tt (grava m p (some lixo))
unfolding malloc
malloc-Aponta p lixo m h = ground arith
