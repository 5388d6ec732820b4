-- ===== src/Fila.antt =====
-- The request queue of LAB2-NETKIT/servidor.c (lines 28-117): a linked list that `insere` keeps
-- ordered by `tempo`. The same functions stand, over a smaller node, in LAB07-SD/backup/servidor.c,
-- so they are generic in the node, of which they read `PID` and `tempo` alone. The list hanging
-- from `head` is a `List`; a NULL that is dereferenced is `none`.
pub mod Ordem
pub mod Conteudo
pub mod Invariante
pub mod Frente
pub mod Imagem
use unifesp_sd.Base.{
  ℕ, ◌+◌, ◌-◌, Bool, true, false, Option, none, some, List, [], ◌∷◌, ltb, ◌==◌, if◌then◌else◌,
}
use unifesp_sd.Base.Int.{ℤ, ltb_ℤ, ◌==ℤ◌}

-- What the queue reads of a node.
pub record Chave {ℓ} (A : Type ℓ) : Type ℓ where
  pub pid : A → ℤ
  pub tempo : A → ℤ

pub record Sfila {ℓ} (A : Type ℓ) : Type ℓ where
  pub tamanho : ℕ
  pub n : ℕ
  pub head : List A

unfoldable pub init {ℓ} : {A : Type ℓ} → ℕ → Sfila A
init n = record { tamanho = 0; n = n; head = [] }

-- The loop of `EstaNaFila`, from the node `aux`.
unfoldable pub procura {ℓ} : {A : Type ℓ} ⦃k : Chave A⦄ → ℤ → List A → Bool
procura pid [] = false
procura ⦃k⦄ pid (aux ∷ next) = if k.pid aux ==ℤ pid then true else procura pid next

unfoldable pub esta_na_fila {ℓ} : {A : Type ℓ} ⦃k : Chave A⦄ → Sfila A → A → Bool
unfolding procura
esta_na_fila ⦃k⦄ fila cliente = procura (k.pid cliente) fila.head

-- The `while` of `insere` and the linking after it, on the nodes behind `aux`.
unfoldable pub encadeia {ℓ} : {A : Type ℓ} ⦃k : Chave A⦄ → A → List A → List A
encadeia novo [] = novo ∷ []
encadeia ⦃k⦄ novo (x ∷ xs) =
    if ltb_ℤ (k.tempo x) (k.tempo novo) then x ∷ encadeia novo xs else novo ∷ x ∷ xs

-- The branch of `insere` for a queue whose `tamanho` is not 0.
unfoldable pub posiciona {ℓ} : {A : Type ℓ} ⦃k : Chave A⦄ → A → List A → Option (List A)
unfolding encadeia
posiciona novo [] = none
posiciona ⦃k⦄ novo (x ∷ xs) =
    some (if ltb_ℤ (k.tempo novo) (k.tempo x) then novo ∷ x ∷ xs else x ∷ encadeia novo xs)

-- `fila->tamanho++; return 1;` after the new list is in place.
unfoldable pub conclui {ℓ} : {A : Type ℓ} → Sfila A → Option (List A) → Option (Sfila A × Bool)
conclui fila none = none
conclui fila (some head) = some (record fila { tamanho = fila.tamanho + 1; head = head }, true)

unfoldable pub liga {ℓ} : {A : Type ℓ} ⦃k : Chave A⦄ → Sfila A → A → Option (Sfila A × Bool)
unfolding posiciona conclui
liga fila novo =
    conclui fila (if fila.tamanho == 0 then some (novo ∷ []) else posiciona novo fila.head)

-- `insere` with the values of the new node in `novo`.
unfoldable pub insere {ℓ} : {A : Type ℓ} ⦃k : Chave A⦄ → Sfila A → A → Option (Sfila A × Bool)
unfolding esta_na_fila liga
insere fila novo =
    if ltb fila.tamanho fila.n
    then (if esta_na_fila fila novo then some (fila, false) else liga fila novo)
    else some (fila, false)

-- On an empty queue the node returned is uninitialised memory: `none`.
unfoldable pub remove_item {ℓ} : {A : Type ℓ} → Sfila A → Sfila A × Option A
remove_item fila = elim fila.head [
  | [] ↦ (fila, none)
  | aux ∷ next ↦ (record fila { tamanho = fila.tamanho - 1; head = next }, some aux)
]
