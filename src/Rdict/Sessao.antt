-- ===== src/Rdict/Sessao.antt =====
-- `rdictprog_1` of rdict_client.c in LAB07-SD/thread-RPC.c: the client's loop; and its `main`.
-- The calls go to a server with states `S`: `servidor` gives the new state and the result of
-- `clnt_call` for a procedure number and a word, where `none` is a call that failed.
pub mod Parada
pub mod Dialogo
use unifesp_sd.Base.{
  ℕ, zero, suc, Bool, Option, none, some, List, [], ◌∷◌, ◌++◌, ◌==◌, ltb, if◌then◌else◌,
}
use unifesp_sd.Base.Int.{ℤ, pos, ◌==ℤ◌, ltb_ℤ}
use unifesp_sd.Rdict.Dicionario.{Palavra}
use unifesp_sd.Rdict.Leitura.{Lido, fim, longa, lido, nextin}

-- What is printed after a command.
pub data Aviso : Type 0 where
  call_failed initialized not_initialized insert_done insert_failed delete_done delete_failed :
      Aviso
  command_invalid quits : Aviso
  found not_found : Palavra → Aviso

-- The server's state and the variables `result_1` to `result_4`, which nothing initialises.
pub record Estado (S : Type 0) : Type 0 where
  pub rede : S
  pub result_1 : ℤ
  pub result_2 : ℤ
  pub result_3 : ℤ
  pub result_4 : ℤ

-- What a command does: the loop goes on, or the process ends with code 0.
pub data Passo (S : Type 0) : Type 0 where
  segue : Estado S → List Aviso → Passo S
  sai : List Aviso → Passo S

-- How the loop ends: out of turns, or with the end of the process.
pub data Termino (S : Type 0) : Type 0 where
  sem_voltas : Termino S
  exit_com : ℕ → List Aviso → Termino S

-- A failed call leaves the variable as it was.
abbrev pub novo_result : Option ℤ → ℤ → ℤ
novo_result none velho = velho
novo_result (some r) velho = r

abbrev pub perror : Option ℤ → List Aviso
perror none = call_failed ∷ []
perror (some r) = []

module _ {S : Type 0} (servidor : S → ℕ → Palavra → S × Option ℤ) where
  unfoldable pub comando_init : Estado S → Passo S
  comando_init s =
      let (rede, retval) = servidor s.rede 1 [] in
      let r = novo_result retval s.result_1 in
      segue (record s { rede = rede; result_1 = r })
        (perror retval ++ (if r ==ℤ pos 1 then initialized else not_initialized) ∷ [])

  unfoldable pub comando_insert : Estado S → Palavra → Passo S
  comando_insert s word =
      let (rede, retval) = servidor s.rede 2 word in
      let r = novo_result retval s.result_2 in
      segue (record s { rede = rede; result_2 = r })
        (perror retval ++ (if ltb_ℤ (pos 0) r then insert_done else insert_failed) ∷ [])

  unfoldable pub comando_delete : Estado S → Palavra → Passo S
  comando_delete s word =
      let (rede, retval) = servidor s.rede 3 word in
      let r = novo_result retval s.result_3 in
      segue (record s { rede = rede; result_3 = r })
        (perror retval ++ (if r ==ℤ pos 1 then delete_done else delete_failed) ∷ [])

  unfoldable pub comando_lookup : Estado S → Palavra → Passo S
  comando_lookup s word =
      let (rede, retval) = servidor s.rede 4 word in
      let r = novo_result retval s.result_4 in
      segue (record s { rede = rede; result_4 = r })
        (perror retval ++ (if r ==ℤ pos 1 then found word else not_found word) ∷ [])

  -- The `switch` on the command.
  unfoldable pub comando : Estado S → ℕ → Palavra → Passo S
  unfolding comando_init comando_insert comando_delete comando_lookup
  comando s cmd word =
      if cmd == b'I'
      then comando_init s
      else (if cmd == b'i'
          then comando_insert s word
          else (if cmd == b'd'
              then comando_delete s word
              else (if cmd == b'l'
                  then comando_lookup s word
                  else (if cmd == b'q' then sai (quits ∷ []) else segue s (command_invalid ∷ [])))))

  module _ (isspace : ℕ → Bool) where
    -- The loop, for the turns that are given, after the notices `avisos`.
    unfoldable pub laco : ℕ → Estado S → List ℕ → List Aviso → Termino S
    unfolding comando
    laco zero s entrada avisos = sem_voltas
    laco (suc k) s entrada avisos = elim (nextin isspace entrada) [
      | fim ↦ exit_com 0 avisos
      | longa ↦ exit_com 1 avisos
      | lido cmd word resto ↦ elim (comando s cmd word) [
        | segue s' novos ↦ laco k s' resto (avisos ++ novos)
        | sai novos ↦ exit_com 0 (avisos ++ novos)
      ]
    ]

    -- `rdictprog_1`, with the outcome of `clnt_create`.
    unfoldable pub rdictprog_1 : Bool → ℕ → Estado S → List ℕ → Termino S
    unfolding laco
    rdictprog_1 criado k s entrada = if criado then laco k s entrada [] else exit_com 1 []

    -- `main`, with its number of arguments.
    unfoldable pub main : ℕ → Bool → ℕ → Estado S → List ℕ → Termino S
    unfolding rdictprog_1
    main argc criado k s entrada =
        if ltb argc 2 then exit_com 1 [] else rdictprog_1 criado k s entrada
