-- ===== src/Rdict/Exemplos.antt =====
-- The dictionary on concrete words and commands, and the theorems at them.
use mathlib.Core.List.{Mem}
use unifesp_sd.Base.{
  ℕ, ◌≡◌, ◌↔◌, ◌⊎◌, ◌≤◌, ◌<◌, refl, subst, ◌≢◌, Bool, ◌||◌, ◌==◌, some, none, true, [], ◌∷◌, length,
  Perm, arith, if◌then◌else◌, Option,
}
use unifesp_sd.Base.Int.{ℤ, pos, negsuc}
use unifesp_sd.Rdict.Dicionario.{
  procura, iguais, Dicionario, Palavra, maxword, dictsiz, insertw, deletew, lookupw,
}
use unifesp_sd.Rdict.Dicionario.Palavras.{palavras, insertw-palavras, deletew-palavras, lookupw_iff}
use unifesp_sd.Rdict.Atende.{Chamada, falha, serv_request, chama, copia_sobre_si}
use unifesp_sd.Rdict.Atende.Respostas.{Segura, Poupa, serv_request-Segura}
use unifesp_sd.Rdict.Leitura.{lido, nextin}
use unifesp_sd.Rdict.Leitura.Nextin.{Limpa, nextin-Limpa, nextin_lido}
use unifesp_sd.Rdict.Sessao.{call_failed, insert_done, found, quits, Estado, exit_com, laco, main}
use unifesp_sd.Rdict.Sessao.Parada.{Acaba, main-Acaba}
use unifesp_sd.Rdict.Sessao.Dialogo.{rede, linha, IsTexto, dialogo, falha_anunciada}

abbrev pub ola : Palavra
ola = b'o' ∷ b'l' ∷ b'a' ∷ []

abbrev pub ja : Palavra
ja = b'j' ∷ b'a' ∷ []

-- The words `ola` and `ja`.
abbrev pub duas : Dicionario
duas = record { dict = λ i. if i == 0 then ola else ja; nwords = 2 }

abbrev branco : ℕ → Bool
branco c = c == b' ' || c == b'\n'

abbrev insere_ja : Chamada
insere_ja = record { proc = 2; args = some ja; envio_ok = true; free_ok = true }

insertw-palavras_example :
    ((e : Dicionario) × (insertw duas ja ≡ some (e, 3))
      × (palavras e ≡ ola ∷ ja ∷ ja ∷ [])
      × (2 < dictsiz)
      × (length ja ≤ maxword))
    ⊎ ((insertw duas ja ≡ none) × ((dictsiz ≤ 2) ⊎ (maxword < length ja)))
insertw-palavras_example = insertw-palavras duas ja

deletew-palavras_example :
    ((e : Dicionario) × (deletew duas ola ≡ (e, 1)) × Perm (ola ∷ ja ∷ []) (ola ∷ palavras e))
    ⊎ ((deletew duas ola ≡ (duas, 0)) × (¬ Mem ola (ola ∷ ja ∷ [])))
deletew-palavras_example = deletew-palavras duas ola

lookupw_iff_teste :
    ((lookupw duas ja ≡ 1) ↔ Mem ja (ola ∷ ja ∷ []))
    × ((lookupw duas ja ≡ 0) ↔ (¬ Mem ja (ola ∷ ja ∷ [])))
lookupw_iff_teste = lookupw_iff duas ja

abbrev deleta : Palavra → Chamada
deleta w = record { proc = 3; args = some w; envio_ok = true; free_ok = true }

um_de_dois : (o : Option ℕ) → o ≡ some 0 → o ≢ some 1
um_de_dois o e f = absurd (cc)

Poupa-ola : Poupa duas (deleta ola)
unfolding procura iguais
Poupa-ola w p a q =
    let same : w ≡ ola = cc in
    um_de_dois _ refl (subst (λ w. procura duas.dict w 2 0 ≡ some 1) same q)

serv_request-Segura_example : Segura (serv_request duas (deleta ola))
serv_request-Segura_example =
    serv_request-Segura duas (deleta ola) (omega arith) (omega arith) Poupa-ola

serv_request-Segura_teste : Segura (serv_request duas insere_ja)
serv_request-Segura_teste =
    serv_request-Segura duas insere_ja (omega arith) (omega arith) λ w p. absurd (omega arith)

-- The word of the last row.
serv_request-ja : serv_request duas (deleta ja) ≡ falha
unfolding serv_request chama copia_sobre_si procura iguais
serv_request-ja = refl

nextin-Limpa_example :
    Limpa branco 50 6 (nextin branco (b'i' ∷ b' ' ∷ b'j' ∷ b'a' ∷ b'\n' ∷ b'q' ∷ []))
nextin-Limpa_example = nextin-Limpa branco (b'i' ∷ b' ' ∷ b'j' ∷ b'a' ∷ b'\n' ∷ b'q' ∷ [])

nextin_lido_teste :
    nextin branco (b'i' ∷ b' ' ∷ b'j' ∷ b'a' ∷ b'\n' ∷ b'q' ∷ []) ≡ lido b'i' ja (b'q' ∷ [])
nextin_lido_teste =
    nextin_lido branco b'i' b'j' (b'a' ∷ []) (b'q' ∷ []) refl refl refl refl refl (refl, tt)
      (omega arith)

abbrev estado : Estado Dicionario
estado = record {
  rede = duas;
  result_1 = pos 7;
  result_2 = pos 2;
  result_3 = negsuc 0;
  result_4 = pos 0;
}

-- A server that nothing reaches.
abbrev mudo : Dicionario → ℕ → Palavra → Dicionario × Option ℤ
mudo d proc w = (d, none)

ja-IsTexto : IsTexto branco b'j' (b'a' ∷ [])
ja-IsTexto = record {
  espaco = refl;
  linha_nova = refl;
  letra_i = refl;
  letra_l = refl;
  letra_q = refl;
  primeira = refl;
  outras = (refl, tt);
  curta = omega arith;
}

main-Acaba_example : Acaba mudo branco (main mudo branco 2 true 3 estado (b'I' ∷ b'x' ∷ []))
main-Acaba_example = main-Acaba mudo branco 2 true 3 estado (b'I' ∷ b'x' ∷ []) (omega arith)

dialogo_example :
    laco rede branco 3 estado
      (linha b'i' b'j' (b'a' ∷ []) (linha b'l' b'j' (b'a' ∷ []) (b'q' ∷ [])))
      []
    ≡ exit_com 0 (insert_done ∷ found ja ∷ quits ∷ [])
dialogo_example = dialogo branco estado b'j' (b'a' ∷ []) ja-IsTexto (omega arith)

falha_anunciada_teste :
    laco mudo branco 2 estado (linha b'i' b'j' (b'a' ∷ []) (b'q' ∷ [])) []
    ≡ exit_com 0 (call_failed ∷ insert_done ∷ quits ∷ [])
falha_anunciada_teste =
    falha_anunciada mudo branco estado duas b'j' (b'a' ∷ []) ja-IsTexto refl (omega arith)
