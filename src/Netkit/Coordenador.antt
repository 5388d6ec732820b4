-- ===== src/Netkit/Coordenador.antt =====
-- What the token server promises, without clocks, buffers or counters: a token that is free or out,
-- its value, and the clients that wait, in order.
pub mod Refina
pub mod Corrida
pub mod Falhas
use unifesp_sd.Base.{
  ℕ, suc, ◌≤◌, ◌≡◌, ◌⊎◌, Bool, true, false, Option, none, some, List, [], ◌∷◌, length,
}
use unifesp_sd.Base.Int.{ℤ}
use unifesp_sd.Fila.{procura}
use unifesp_sd.Fila.Ordem.{Encaixe}
use unifesp_sd.Netkit.Servidor.{Sitem, sitem_chave}

pub record Coordenador (C : Type 0) : Type 0 where
  pub livre : Bool
  pub valor : ℤ
  pub espera : List (Sitem C)

pub data Evento (C : Type 0) : Type 0 where
  pedido : Sitem C → Evento C
  devolucao : ℤ → Evento C
  outro : Evento C

-- To whom the token is sent, and with which value.
pub record Concessao (C : Type 0) : Type 0 where
  pub para : C
  pub addrlen : ℕ
  pub valor : ℤ

abbrev pub concessao : {C : Type 0} → Sitem C → ℤ → Concessao C
concessao x v = record { para = x.caddr; addrlen = x.addrlen; valor = v }

-- One event, from `a` to `b`: a free token goes to who asks; else a new client waits in its place,
-- unless ten wait or it waits already; a returned token goes to the first who waits.
pub data Passa {C : Type 0} (a b : Coordenador C) : Evento C → Option (Concessao C) → Type 0 where
  concede :
      (x : Sitem C)
      → a.livre ≡ true
      → b ≡ record a { livre = false }
      → Passa a b (pedido x) (some (concessao x a.valor))
  aguarda :
      (x : Sitem C)
      → a.livre ≡ false
      → suc (length a.espera) ≤ 10
      → procura x.pid a.espera ≡ false
      → Encaixe x a.espera b.espera
      → b ≡ record a { espera = b.espera }
      → Passa a b (pedido x) none
  recusa :
      (x : Sitem C)
      → a.livre ≡ false
      → ((10 ≤ length a.espera) ⊎ (procura x.pid a.espera ≡ true))
      → b ≡ a
      → Passa a b (pedido x) none
  repassa :
      (v : ℤ) (y : Sitem C)
      → a.espera ≡ y ∷ b.espera
      → b ≡ record { livre = false; valor = v; espera = b.espera }
      → Passa a b (devolucao v) (some (concessao y v))
  guarda :
      (v : ℤ)
      → a.espera ≡ []
      → b ≡ record { livre = true; valor = v; espera = [] }
      → Passa a b (devolucao v) none
  ignora : b ≡ a → Passa a b outro none
