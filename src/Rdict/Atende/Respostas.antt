-- ===== src/Rdict/Atende/Respostas.antt =====
-- What a call of the dictionary service answers.
use unifesp_sd.Base.{
  ℕ, ◌≤◌, ◌<◌, ◌≡◌, ◌≢◌, ◌-◌, ◌∙◌, ap, false, refl, inl, inr, Option, none, some, arith, length,
  ◌==◌, Bool-cases, Option-cases,
}
use unifesp_sd.Rdict.Dicionario.{
  Dicionario, Palavra, maxword, dictsiz, initw, insertw, deletew, procura,
}
use unifesp_sd.Rdict.Atende.{
  Procedimento, p_initw, p_insertw, p_deletew, p_lookupw, escolhe, local, copia_sobre_si, Chamada,
  Fim, volta, encerra, falha, responde, chama, serv_request,
}

-- No undefined behaviour, exactly one answer, and a dictionary of a hundred words at most.
abbrev pub Segura : Fim → Type 0
Segura (volta d es) = (d.nwords ≤ dictsiz) × (length es ≡ 1)
Segura (encerra d es) = (d.nwords ≤ dictsiz) × (length es ≡ 1)
Segura falha = ⊥

abbrev pub Cabe : Option Palavra → Type 0
Cabe none = Unit
Cabe (some w) = length w ≤ maxword

-- What a procedure returns is small enough.
abbrev Limitado : Option (Dicionario × ℕ) → Type 0
Limitado none = ⊥
Limitado (some (d, r)) = d.nwords ≤ dictsiz

deletew-Limitado :
    (d : Dicionario) (w : Palavra) → d.nwords ≤ dictsiz → (deletew d w).0.nwords ≤ dictsiz
unfolding deletew
deletew-Limitado d w h = elim (Option-cases (procura d.dict w d.nwords 0)) [
  | inl e ↦ rw (e, deletew) h
  | inr (j, e) ↦ rw (e, deletew) (omega arith)
]

local-Limitado :
    (p : Procedimento) (d : Dicionario) (w : Palavra)
    → d.nwords < dictsiz
    → length w ≤ maxword
    → Limitado (local p d w)
unfolding local initw insertw
local-Limitado p_initw d w h k = omega arith
local-Limitado p_insertw d w h k = ground arith
local-Limitado p_deletew d w h k = deletew-Limitado d w (omega arith)
local-Limitado p_lookupw d w h k = omega arith

responde-Segura : (c : Chamada) (r : Option (Dicionario × ℕ)) → Limitado r → Segura (responde c r)
unfolding responde
responde-Segura c none h = h
responde-Segura c (some (d, r)) h = ground arith

-- A call does not delete the word that stands in the last row.
abbrev pub Poupa : Dicionario → Chamada → Type 0
Poupa d c =
    (w : Palavra) → c.proc ≡ 3 → c.args ≡ some w → procura d.dict w d.nwords 0 ≢ some (d.nwords - 1)

escolhe-deletew : (n : ℕ) → escolhe n ≡ some p_deletew → n ≡ 3
escolhe-deletew n = elim (Bool-cases (n == 1)) [
  | inl a ↦ rw a λ e. absurd (cc)
  | inr a ↦ rw a (elim (Bool-cases (n == 2)) [
    | inl b ↦ rw b λ e. absurd (cc)
    | inr b ↦ rw b (elim (Bool-cases (n == 3)) [
      | inl c ↦ λ e. ground arith
      | inr c ↦ rw c (elim (Bool-cases (n == 4)) [
        | inl f ↦ rw f λ e. absurd (cc)
        | inr f ↦ rw f λ e. absurd (cc)
      ])
    ])
  ])
]

poupada :
    (p : Procedimento) (d : Dicionario) (w : Palavra)
    → (p ≡ p_deletew → procura d.dict w d.nwords 0 ≢ some (d.nwords - 1))
    → copia_sobre_si p d w ≡ false
unfolding copia_sobre_si
poupada p_initw d w h = refl
poupada p_insertw d w h = refl
poupada p_deletew d w h = elim (Option-cases (procura d.dict w d.nwords 0)) [
  | inl e ↦ rw (e, copia_sobre_si) refl
  | inr (i, e) ↦
      rw (e, copia_sobre_si)
        (elim (Bool-cases (i == d.nwords - 1)) [
          | inl same ↦
              let last : i ≡ d.nwords - 1 = ground arith in absurd (h refl (e ∙ ap some last))
          | inr other ↦ other
        ])
]
poupada p_lookupw d w h = refl

chama-Segura :
    (d : Dicionario) (c : Chamada) (p : Procedimento) (o : Option Palavra)
    → c.args ≡ o
    → escolhe c.proc ≡ some p
    → Poupa d c
    → d.nwords < dictsiz
    → Cabe o
    → Segura (chama d c p)
unfolding chama
chama-Segura d c p none e f g h k = rw (e, chama) (omega arith)
chama-Segura d c p (some w) e f g h k =
    let spared = poupada p d w λ q. g w (escolhe-deletew c.proc (f ∙ ap some q)) e in
    rw (e, chama, spared) (responde-Segura c (local p d w) (local-Limitado p d w h k))

-- `serv_request` on a dictionary of fewer than a hundred words, for any procedure number and with
-- any word that a row can hold, but not to delete the word in the last row: it has no undefined
-- behaviour, it gives the caller exactly one answer, and the dictionary has a hundred words at most.
pub serv_request-Segura :
    (d : Dicionario) (c : Chamada)
    → d.nwords < dictsiz
    → Cabe c.args
    → Poupa d c
    → Segura (serv_request d c)
unfolding serv_request
serv_request-Segura d c h k g = elim (Bool-cases (c.proc == 0)) [
  | inl e ↦ rw e (omega arith)
  | inr e ↦ rw e (elim (Option-cases (escolhe c.proc)) [
    | inl f ↦ rw (f, serv_request) (omega arith)
    | inr (p, f) ↦ rw (f, serv_request) (chama-Segura d c p c.args refl f g h k)
  ])
]
