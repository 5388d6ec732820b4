-- ===== src/Rpcgen/Fluxo.antt =====
-- A stream of bytes and a filter on it, at which the theorems on the RPC programs are tried.
use unifesp_sd.Rpcgen.{Xdr, Svc}
use unifesp_sd.Base.{
  true, ℕ, ◌<◌, ◌-◌, ◌^◌, arith, Option, List, ◌++◌, ◌≡◌, refl, ap, some, none, [], ◌∷◌,
}
use unifesp_sd.Rpcgen.Bytes.{Leis, Chega}
use unifesp_sd.Base.Int.{ℤ, pos, negsuc, i32, trunca, IsInt}

-- A format with one byte for each natural number below 256.
pub data Fluxo : Type 0 where
  escrevendo lendo : List ℕ → Fluxo

abbrev pub byte_long : Fluxo → ℤ → Option (Fluxo × ℤ)
byte_long (escrevendo bs) (pos n) = some (escrevendo (bs ++ n ∷ []), pos n)
byte_long (escrevendo bs) (negsuc n) = none
byte_long (lendo []) z = none
byte_long (lendo (b ∷ bs)) z = some (lendo bs, pos b)

abbrev pub CabeByte : ℤ → Type 0
CabeByte (pos n) = n < 256
CabeByte (negsuc n) = ⊥

abbrev pub bytes_de : ℤ → List ℕ
bytes_de (pos n) = n ∷ []
bytes_de (negsuc n) = []

pub escreve_byte :
    (z : ℤ) (bs : List ℕ)
    → CabeByte z
    → byte_long (escrevendo bs) z ≡ some (escrevendo (bs ++ bytes_de z), z)
escreve_byte (pos n) bs h = refl
escreve_byte (negsuc n) bs h = absurd h

pub le_byte :
    (z v : ℤ) (bs : List ℕ)
    → CabeByte z
    → byte_long (lendo (bytes_de z ++ bs)) v ≡ some (lendo bs, z)
le_byte (pos n) v bs h = refl
le_byte (negsuc n) v bs h = absurd h

abbrev pub xdr : Xdr Fluxo
xdr = record { xdr_long = byte_long; xdr_int = byte_long; xdr_char = byte_long }

abbrev pub segundo {ℓ κ} : {A : Type ℓ} {B : Type κ} → Option (A × B) → Option B
segundo none = none
segundo (some (a, b)) = some b

abbrev pub primeiro {ℓ κ} : {A : Type ℓ} {B : Type κ} → Option (A × B) → Option A
primeiro none = none
primeiro (some (a, b)) = some a

-- The library on a call whose arguments are the bytes `bs`.
abbrev pub svc : List ℕ → Svc Fluxo
svc bs = record {
  svc_getargs = λ f o. segundo (f (lendo bs) o);
  svc_sendreply = λ f r. primeiro (f (escrevendo []) r);
  svc_freeargs = λ f a. true;
}

abbrev pub leis : Leis escrevendo lendo byte_long
leis = record { Cabe = CabeByte; bytes = bytes_de; escreve = escreve_byte; le = le_byte }

pub svc-Chega : (bs : List ℕ) → Chega escrevendo lendo (svc bs) bs
svc-Chega bs = record {
  le = λ f o a x e. ap segundo e;
  envia = λ f r x e. ap primeiro e;
  libera = λ f a. refl;
}

-- Another format: one word of 32 bits for each `int`, in two's complement.
abbrev pub palavra : ℤ → ℕ
palavra (pos n) = n
palavra (negsuc n) = 2 ^ 32 - 1 - n

abbrev pub palavra_long : Fluxo → ℤ → Option (Fluxo × ℤ)
palavra_long (escrevendo bs) z = some (escrevendo (bs ++ palavra z ∷ []), z)
palavra_long (lendo []) z = none
palavra_long (lendo (b ∷ bs)) z = some (lendo bs, i32 (pos b))

pub palavra-i32 : (z : ℤ) → IsInt z → i32 (pos (palavra z)) ≡ z
unfolding trunca
palavra-i32 (pos n) h = let a = h.acima in ground arith
palavra-i32 (negsuc n) h = let a = h.abaixo in ground arith

abbrev pub xdr_palavra : Xdr Fluxo
xdr_palavra = record { xdr_long = palavra_long; xdr_int = palavra_long; xdr_char = palavra_long }

abbrev pub leis_palavra : Leis escrevendo lendo palavra_long
leis_palavra = record {
  Cabe = IsInt;
  bytes = λ z. palavra z ∷ [];
  escreve = λ z bs h. refl;
  le = λ z v bs h. ap (λ i. some (lendo bs, i)) (palavra-i32 z h);
}
