-- ===== src/Rdict/Sessao/Dialogo.antt =====
-- Sessions of the client with the dictionary's server, and with a server that does not answer.
use mathlib.Core.List.{Mem, mem-append_right, mem-cons_self}
use unifesp_sd.Base.{
  ℕ, suc, ◌+◌, ◌≤◌, ◌<◌, ◌≡◌, refl, sym, subst, ◌∙◌, inl, inr, Bool, true, false, Option, none,
  some, List, [], ◌∷◌, ◌++◌, arith, length, All,
}
use unifesp_sd.Base.Int.{ℤ, pos, ◌<ℤ◌, ltb_ℤ}
use unifesp_sd.Rdict.Dicionario.{Dicionario, Palavra, maxword, dictsiz, insertw, lookupw}
use unifesp_sd.Rdict.Dicionario.Palavras.{palavras, insertw-palavras, lookupw_iff}
use unifesp_sd.Rdict.Atende.{
  Fim, volta, encerra, falha, serv_request, resposta, Efeito, chama, copia_sobre_si, local,
  responde,
}
use unifesp_sd.Rdict.Leitura.{lido, nextin, quer_palavra}
use unifesp_sd.Rdict.Leitura.Nextin.{nextin_lido}
use unifesp_sd.Rdict.Sessao.{
  Aviso, call_failed, insert_done, found, quits, Estado, segue, exit_com, comando, laco,
}

-- What the caller reads of the answers.
abbrev pub lida : List Efeito → Option ℤ
lida (resposta r ∷ es) = some (pos r)
lida _ = none

abbrev pub chegada : Dicionario → Fim → Dicionario × Option ℤ
chegada d (volta d' es) = (d', lida es)
chegada d (encerra d' es) = (d', lida es)
chegada d falha = (d, none)

-- The dictionary's server behind a network that loses nothing.
unfoldable pub rede : Dicionario → ℕ → Palavra → Dicionario × Option ℤ
rede d proc w =
    chegada d
      (serv_request d (record { proc = proc; args = some w; envio_ok = true; free_ok = true }))

rede-insertw :
    (d e : Dicionario) (w : Palavra) (r : ℕ)
    → insertw d w ≡ some (e, r)
    → rede d 2 w ≡ (e, some (pos r))
unfolding rede serv_request chama copia_sobre_si local responde
rede-insertw d e w r h = rw h

rede-lookupw :
    (d : Dicionario) (w : Palavra) (r : ℕ) → lookupw d w ≡ r → rede d 4 w ≡ (d, some (pos r))
unfolding rede serv_request chama copia_sobre_si local responde
rede-lookupw d w r h = rw h

module _ {S : Type 0} (servidor : S → ℕ → Palavra → S × Option ℤ) (isspace : ℕ → Bool) where
  -- One turn of the loop.
  laco-segue :
      (k : ℕ) (s t : Estado S) (entrada : List ℕ) (avisos novos : List Aviso) (cmd : ℕ)
      (w resto : List ℕ)
      → nextin isspace entrada ≡ lido cmd w resto
      → comando servidor s cmd w ≡ segue t novos
      → laco servidor isspace (suc k) s entrada avisos
        ≡ laco servidor isspace k t resto (avisos ++ novos)
  unfolding laco
  laco-segue k s t entrada avisos novos cmd w resto e f = rw (e, laco) (rw f)

  laco-q :
      (k : ℕ) (s : Estado S) (avisos : List Aviso)
      → isspace b'q' ≡ false
      → laco servidor isspace (suc k) s (b'q' ∷ []) avisos ≡ exit_com 0 (avisos ++ quits ∷ [])
  unfolding laco nextin comando
  laco-q k s avisos q =
      let letra : nextin isspace (b'q' ∷ []) ≡ lido b'q' [] [] = rw (q, nextin) in rw (letra, laco)

  comando-i :
      (s : Estado S) (w : Palavra) (d : S) (r : ℤ)
      → servidor s.rede 2 w ≡ (d, some r)
      → pos 0 <ℤ r
      → comando servidor s b'i' w ≡ segue (record s { rede = d; result_2 = r }) (insert_done ∷ [])
  unfolding comando
  comando-i s w d r e p =
      let some_words : ltb_ℤ (pos 0) r ≡ true = ground arith in rw (e, some_words)

  comando-i_falha :
      (s : Estado S) (w : Palavra) (d : S)
      → servidor s.rede 2 w ≡ (d, none)
      → pos 0 <ℤ s.result_2
      → comando servidor s b'i' w ≡ segue (record s { rede = d }) (call_failed ∷ insert_done ∷ [])
  unfolding comando
  comando-i_falha s w d e p =
      let some_words : ltb_ℤ (pos 0) s.result_2 ≡ true = ground arith in rw (e, some_words)

  comando-l :
      (s : Estado S) (w : Palavra) (d : S)
      → servidor s.rede 4 w ≡ (d, some (pos 1))
      → comando servidor s b'l' w ≡ segue (record s { rede = d; result_4 = pos 1 }) (found w ∷ [])
  unfolding comando
  comando-l s w d e = rw e

-- A line with a command and its word.
abbrev pub linha : ℕ → ℕ → List ℕ → List ℕ → List ℕ
linha cmd c w resto = cmd ∷ b' ' ∷ c ∷ (w ++ b'\n' ∷ resto)

-- What the sessions use of `isspace`, and the word that they type: its first letter and the others.
pub record IsTexto (isspace : ℕ → Bool) (c : ℕ) (w : List ℕ) : Type 0 where
  pub espaco : isspace b' ' ≡ true
  pub linha_nova : isspace b'\n' ≡ true
  pub letra_i : isspace b'i' ≡ false
  pub letra_l : isspace b'l' ≡ false
  pub letra_q : isspace b'q' ≡ false
  pub primeira : isspace c ≡ false
  pub outras : All (λ x. isspace x ≡ false) w
  pub curta : length w < maxword

nextin-linha :
    (isspace : ℕ → Bool) (cmd c : ℕ) (w resto : List ℕ)
    → IsTexto isspace c w
    → isspace cmd ≡ false
    → quer_palavra cmd ≡ true
    → nextin isspace (linha cmd c w resto) ≡ lido cmd (c ∷ w) resto
nextin-linha isspace cmd c w resto h s q =
    nextin_lido isspace cmd c w resto h.espaco h.linha_nova s q h.primeira h.outras h.curta

insertw-lookupw :
    (d : Dicionario) (w : Palavra)
    → d.nwords < dictsiz
    → length w ≤ maxword
    → (e : Dicionario) × (insertw d w ≡ some (e, d.nwords + 1)) × (lookupw e w ≡ 1)
insertw-lookupw d w h k = elim (insertw-palavras d w) [
  | inl (e, run, all, _, _) ↦ (
    e,
    run,
    (lookupw_iff e w).0.1 (subst (Mem w) (sym all) (mem-append_right (palavras d) mem-cons_self)),
  )
  | inr (_, inl full) ↦ absurd (omega arith)
  | inr (_, inr long) ↦ absurd (omega arith)
]

-- A user inserts a word that a row can hold, looks it up and quits, with a server whose dictionary
-- has room: the client says that the insertion was done, that the word was found, and ends with 0.
pub dialogo :
    (isspace : ℕ → Bool) (s : Estado Dicionario) (c : ℕ) (w : List ℕ)
    → IsTexto isspace c w
    → s.rede.nwords < dictsiz
    → laco rede isspace 3 s (linha b'i' c w (linha b'l' c w (b'q' ∷ []))) []
      ≡ exit_com 0 (insert_done ∷ found (c ∷ w) ∷ quits ∷ [])
dialogo isspace s c w h room =
    let fits : length (c ∷ w) ≤ maxword = let short = h.curta in omega arith in
    let (e, run, held) = insertw-lookupw s.rede (c ∷ w) room fits in
    let t = record s { rede = e; result_2 = pos (s.rede.nwords + 1) } in
    laco-segue rede isspace 2 s t _ [] (insert_done ∷ []) b'i' (c ∷ w) _
      (nextin-linha isspace b'i' c w _ h h.letra_i refl)
      (comando-i rede isspace s (c ∷ w) e (pos (s.rede.nwords + 1))
        (rede-insertw s.rede e (c ∷ w) _ run) (omega arith))
    ∙ laco-segue rede isspace 1 t (record t { rede = e; result_4 = pos 1 }) _ _ (found (c ∷ w) ∷ [])
        b'l' (c ∷ w) _ (nextin-linha isspace b'l' c w _ h h.letra_l refl)
        (comando-l rede isspace t (c ∷ w) e (rede-lookupw e (c ∷ w) 1 held))
    ∙ laco-q rede isspace 0 _ _ h.letra_q

-- When the call of an insertion fails and `result_2` is still positive from an earlier one, the
-- client reports the failure and then says all the same that the insertion was done.
pub falha_anunciada :
    {S : Type 0} (servidor : S → ℕ → Palavra → S × Option ℤ) (isspace : ℕ → Bool) (s : Estado S)
    (r : S) (c : ℕ) (w : List ℕ)
    → IsTexto isspace c w
    → servidor s.rede 2 (c ∷ w) ≡ (r, none)
    → pos 0 <ℤ s.result_2
    → laco servidor isspace 2 s (linha b'i' c w (b'q' ∷ [])) []
      ≡ exit_com 0 (call_failed ∷ insert_done ∷ quits ∷ [])
falha_anunciada servidor isspace s r c w h e p =
    laco-segue servidor isspace 1 s (record s { rede = r }) _ [] (call_failed ∷ insert_done ∷ [])
      b'i' (c ∷ w) _ (nextin-linha isspace b'i' c w _ h h.letra_i refl)
      (comando-i_falha servidor isspace s (c ∷ w) r e p)
    ∙ laco-q servidor isspace 0 _ _ h.letra_q
