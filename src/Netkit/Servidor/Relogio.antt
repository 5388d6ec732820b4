-- ===== src/Netkit/Servidor/Relogio.antt =====
-- The server's Lamport clock: its bounds, and how it grows.
use unifesp_sd.Base.{◌-◌, ◌^◌, inl, inr, Bool-cases, ltb, ◌+◌, ◌≤◌, ◌<◌, ◌≡◌, arith}
use unifesp_sd.Base.Int.{
  IsLong, i64-suc, ltb_ℤ, ℤ, pos, negsuc, pos_part, neg_part, ◌+ℤ◌, ◌<ℤ◌, i32, i64, trunca, resto,
  IsInt,
}
use unifesp_sd.Netkit.Mensagem.{int_max}
use unifesp_sd.Netkit.Servidor.{relogio}

-- Between -1 and INT_MAX. (-1 comes from the `int` overflow of `req->tempo+1`.)
pub record IsTempo (t : ℤ) : Type 0 where
  pub acima : pos_part t ≤ int_max
  pub abaixo : neg_part t ≤ 1

pub IsTempo-IsLong : {t : ℤ} → IsTempo t → IsLong t
IsTempo-IsLong h = record { acima = omega (arith, h.acima); abaixo = omega (arith, h.abaixo) }

-- What a receipt makes of the clock: below INT_MAX, so that the tick of a reply fits too.
pub record IsRecente (t : ℤ) : Type 0 where
  pub acima : pos_part t < int_max
  pub abaixo : neg_part t ≤ 1

pub IsRecente-IsTempo : {t : ℤ} → IsRecente t → IsTempo t
IsRecente-IsTempo h = record { acima = omega (arith, h.acima); abaixo = h.abaixo }

IsRecente-proprio : (t : ℤ) → IsTempo t → IsRecente (resto (t +ℤ pos 1) int_max)
unfolding resto ◌+ℤ◌
IsRecente-proprio (pos n) h = ground arith
IsRecente-proprio (negsuc n) h = ground arith

IsRecente-recebido :
    (r : ℤ) → IsInt r → neg_part r ≤ 1 → IsRecente (resto (i32 (r +ℤ pos 1)) int_max)
unfolding resto trunca ◌+ℤ◌
IsRecente-recebido (pos n) h g = elim (Bool-cases (ltb n (2 ^ 31 - 1))) [
  | inl e ↦ ground arith
  | inr e ↦ let m : n ≡ 2 ^ 31 - 1 = ground (arith, h.acima) in rw m (omega arith)
]
IsRecente-recebido (negsuc n) h g = ground arith

pub relogio-IsRecente : (t r : ℤ) → IsTempo t → IsInt r → IsRecente (relogio t r)
unfolding relogio
relogio-IsRecente t r h g = elim (Bool-cases (ltb_ℤ r t)) [
  | inl e ↦ rw (e, i64-suc t (IsTempo-IsLong h)) (IsRecente-proprio t h)
  | inr e ↦ rw e (IsRecente-recebido r g (ground arith))
]

resto_pequeno :
    (t : ℤ) → neg_part t ≤ 1 → pos_part t + 1 < int_max → resto (t +ℤ pos 1) int_max ≡ t +ℤ pos 1
unfolding resto ◌+ℤ◌
resto_pequeno (pos n) h g = ground arith
resto_pequeno (negsuc n) h g = ground arith

i32-suc : (r : ℤ) → IsInt r → pos_part r + 1 < int_max → i32 (r +ℤ pos 1) ≡ r +ℤ pos 1
unfolding trunca ◌+ℤ◌
i32-suc (pos n) h g = ground arith
i32-suc (negsuc n) h g = ground arith

-- For a clock from -1 on and an `int` in the message, both less than INT_MAX - 1, the clock after the
-- receipt is later than both.
pub relogio_cresce :
    (t r : ℤ)
    → IsTempo t
    → IsInt r
    → pos_part t + 1 < int_max
    → pos_part r + 1 < int_max
    → (t <ℤ relogio t r) × (r <ℤ relogio t r)
unfolding relogio
relogio_cresce t r h g a b = elim (Bool-cases (ltb_ℤ r t)) [
  | inl e ↦
      rw (e, i64-suc t (IsTempo-IsLong h), resto_pequeno t h.abaixo a) (unfold ◌+ℤ◌ in ground arith)
  | inr e ↦ rw (e, i32-suc r g b, resto_pequeno r (ground arith) b) (unfold ◌+ℤ◌ in ground arith)
]

-- The tick of a reply.
pub tique-IsTempo : (t : ℤ) → IsRecente t → IsTempo (i64 (t +ℤ pos 1))
tique-IsTempo t h =
    rw (i64-suc t (IsTempo-IsLong (IsRecente-IsTempo h))) (unfold ◌+ℤ◌ in ground arith)
