-- ===== src/FilaAvulsa.antt =====
-- fila.c: the queue without the test for a PID that is there already, and the `main` that fills and
-- empties it. `rand()` is the list of its values; what is printed is the value of `main`.
-- A store past the end of a block, or through a NULL, ends it with `falha`.
pub mod Relatorio
mod Exemplos
use unifesp_sd.Base.{
  ℕ, zero, suc, ◌+◌, ◌-◌, ◌%◌, Bool, false, Option, none, some, List, [], ◌∷◌, ◌++◌, ltb, leb,
  ◌>>=◌, if◌then◌else◌, map,
}
use unifesp_sd.Base.Int.{ℤ, pos}
use unifesp_sd.Fila.{Chave, Sfila, init, liga}
use unifesp_sd.Netkit.Mensagem.{Passo, termina, falha, antes}

pub record Sitem (C : Type 0) : Type 0 where
  pub pid : ℤ
  pub tempo : ℤ
  pub addrlen : ℕ
  pub caddr : C

instance abbrev pub sitem_chave : {C : Type 0} → Chave (Sitem C)
sitem_chave = record { pid = λ i. i.pid; tempo = λ i. i.tempo }

pub insere : {C : Type 0} → Sfila (Sitem C) → Sitem C → Option (Sfila (Sitem C) × Bool)
insere fila novo = if ltb fila.tamanho fila.n then liga fila novo else some (fila, false)

-- Where the fields of a `struct Sitem` end, in bytes.
abbrev fim_pid : ℕ
fim_pid = 4

abbrev fim_tempo : ℕ
fim_tempo = 8

abbrev fim_addrlen : ℕ
fim_addrlen = 12

abbrev pub fim_caddr : ℕ
fim_caddr = 28

-- A store to a field that ends at `fim`, in a block of `bloco` bytes.
abbrev grava : ℕ → ℕ → Option (Unit {0})
grava bloco fim = if leb fim bloco then some tt else none

-- `removeItem`, where `malloc(sizeof(item))` gives a block of `bloco` bytes; `item` is a pointer. The
-- block for an empty queue is lost, and the result NULL.
pub remove_item : {C : Type 0} → ℕ → Sfila (Sitem C) → Option (Sfila (Sitem C) × Option (Sitem C))
remove_item bloco fila = elim fila.head [
  | [] ↦ some (fila, none)
  | aux ∷ next ↦ do
    _ ← grava bloco fim_addrlen
    _ ← grava bloco fim_caddr
    _ ← grava bloco fim_pid
    _ ← grava bloco fim_tempo
    some (record fila { tamanho = fila.tamanho - 1; head = next }, some aux)
]

-- The nodes that `imprime` prints, as pairs of PID and tempo.
pub imprime : {C : Type 0} → List (Sitem C) → List (ℤ × ℤ)
imprime = map (λ i. (i.pid, i.tempo))

-- A call of `imprime`, and the line that announces a removal.
pub data Linha : Type 0 where
  impressa : List (ℤ × ℤ) → Linha
  removido : ℤ → Linha

-- `sizeof(struct sockaddr)`.
abbrev pub sizeof_sockaddr : ℕ
sizeof_sockaddr = 16

-- The request with PID `j` and the next value of `rand()`.
abbrev pub pedido : {C : Type 0} → C → ℕ → ℕ → Sitem C
pedido caddr j r = record {
  pid = pos j;
  tempo = pos (r % 10);
  addrlen = sizeof_sockaddr;
  caddr = caddr;
}

-- The first loop, from the last value of `j`.
pub enche : {C : Type 0} → C → ℕ → List ℕ → Sfila (Sitem C) → Option (Sfila (Sitem C))
enche caddr j [] f = some f
enche caddr j (r ∷ rs) f = elim (insere f (pedido caddr (suc j) r)) [
  | none ↦ none
  | some (g, _) ↦ enche caddr (suc j) rs g
]

-- The second loop, for the rounds that are left, and `return 0`. On an empty queue `->PID`
-- dereferences a NULL.
pub esvazia : {C : Type 0} → ℕ → ℕ → Sfila (Sitem C) → Passo Unit Linha
unfolding imprime remove_item
esvazia bloco zero f = termina (pos 0) []
esvazia bloco (suc k) f = elim (remove_item bloco f) [
  | none ↦ falha []
  | some (g, o) ↦ elim o [
    | none ↦ falha []
    | some x ↦ antes (removido x.pid ∷ impressa (imprime g.head) ∷ []) (esvazia bloco k g)
  ]
]

pub main : {C : Type 0} → ℕ → C → List ℕ → Passo Unit Linha
unfolding enche esvazia
main bloco caddr rs = elim (enche caddr 0 rs (init 10)) [
  | none ↦ falha []
  | some f ↦ antes (impressa (imprime f.head) ∷ []) (esvazia bloco 10 f)
]
