-- ===== src/Netkit/Sistema/Valor/Usos.antt =====
-- The value of the token counts its uses.
use unifesp_sd.Base.{
  ℕ, ◌+◌, ◌-◌, ◌^◌, ◌≤◌, ◌≡◌, ◌≢◌, refl, ap, subst, ◌∙◌, inl, inr, arith, Bool-cases, ◌==◌,
}
use unifesp_sd.Base.Int.{ℤ, pos, ◌+ℤ◌, ◌==ℤ◌, i32, i32-eq_of_IsInt}
use unifesp_sd.Netkit.Mensagem.{Request, Datagrama, reply_allow}
use unifesp_sd.Netkit.Servidor
use unifesp_sd.Netkit.Servidor.Invariante.{IsPid}
use unifesp_sd.Netkit.Sistema.{
  Sistema, Anda, pede, recebe, serve, perde_pedido, perde_resposta, Alcanca, aqui, mais,
  peso_resposta,
}
use unifesp_sd.Netkit.Sistema.Ficha.{partida, partida-Conserva, uma_ficha}
use unifesp_sd.Netkit.Sistema.Valor.{uso, usos, depois_de, TemValor}
use unifesp_sd.Netkit.Sistema.Valor.Passos.{Anda-TemValor}

peso_resposta-le : (d : Datagrama) → peso_resposta d ≤ 1
peso_resposta-le d = elim (Bool-cases (d.corpo.cod ==ℤ reply_allow)) [
  | inl y ↦ rw y (omega arith)
  | inr n ↦ rw n (omega arith)
]

pub uso-le : {s t : Sistema} {k : ℕ} (st : Anda s k t) → uso st ≤ 1
uso-le (pede i p run) = omega arith
uso-le (recebe i d xs ys e p run) = peso_resposta-le d
uso-le (serve d i n xs ys e run) = omega arith
uso-le (perde_pedido r xs ys e) = omega arith
uso-le (perde_resposta r xs ys e) = omega arith

pos-add : (m : ℕ) → pos m +ℤ pos 1 ≡ pos (m + 1)
unfolding ◌+ℤ◌
pos-add m = ground arith

depois_de-pos : (m u : ℕ) → u ≤ 1 → m + u ≤ 2 ^ 31 - 1 → depois_de (pos m) u ≡ pos (m + u)
depois_de-pos m u few fits = elim (Bool-cases (u == 0)) [
  | inl z ↦ rw z (ap pos (ground arith))
  | inr n ↦
      let one : u ≡ 1 = ground arith in
      rw n (
        ap i32 (pos-add m)
        ∙ i32-eq_of_IsInt (pos (m + 1)) (record { acima = omega arith; abaixo = omega arith })
        ∙ ap pos (omega arith))
]

module _ (a b c : Request) (pid : ℕ → ℤ) (req resp : ℕ → Request) (cabe : (i : ℕ) → IsPid (pid i))
    (vivo : (i : ℕ) → pid i ≢ pos 0) where
  partida-TemValor : TemValor (pos 30) (partida a b c pid req resp)
  unfolding Servidor.inicio
  partida-TemValor = record { servidor = λ free. refl; devolucoes = tt; respostas = tt }

  -- No use of the token is lost, nor counted twice: of the server and any number of clients, whose PIDs
  -- are not 0 and have a low byte other than 255, however the system runs and whatever the network
  -- loses: the token has the value 30 and one more for each time that a client received it, while an
  -- `int` holds that. It has it in the server where it is free, and in a reply or a release on its
  -- way.
  pub conta_usos :
      {n : ℕ} {s : Sistema} (r : Alcanca (partida a b c pid req resp) n s)
      → 30 + usos r ≤ 2 ^ 31 - 1
      → TemValor (pos (30 + usos r)) s
  conta_usos aqui fits = partida-TemValor
  conta_usos {s} (mais r st e) fits =
      let ih = conta_usos r (omega arith) in
      let w = (partida-Conserva a b c pid req resp cabe vivo r).valido in
      let few = (uma_ficha a b c pid req resp cabe vivo r).0 in
      let next = Anda-TemValor (pos (30 + usos r)) st w few ih in
      subst (λ z. TemValor z s)
        (depois_de-pos (30 + usos r) (uso st) (uso-le st) (omega arith) ∙ ap pos (omega arith)) next
