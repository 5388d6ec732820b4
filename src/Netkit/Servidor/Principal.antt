-- ===== src/Netkit/Servidor/Principal.antt =====
-- The `main` of LAB2-NETKIT/servidor.c from its start.
use unifesp_sd.Base.{ℕ, ◌+◌, ◌≤◌, Bool, List, [], ◌∷◌, arith, All, Bool-cases, inl, inr, ◌==◌}
use unifesp_sd.Netkit.Mensagem.{Request, Passo, enviadas, terminou}
use unifesp_sd.Netkit.Servidor.{Servidor, Entrada, Envio, executa, inicio, main}
use unifesp_sd.Netkit.Servidor.Invariante.{Boa, Mantida, inicio-IsServidor, executa-Mantida}
use unifesp_sd.Netkit.Servidor.Somas.{Regular, Regular-Boa, SomasDe, executa-SomasDe}
use unifesp_sd.Netkit.Servidor.Exclusao.{respostas, devolucoes, exclusao}

module _ {C : Type 0} where
  -- No undefined behaviour, the invariant, and at most one reply more than `n`.
  abbrev pub Segura : ℕ → Passo (Servidor C) (Envio C) → Type 0
  Segura n r = Mantida r × (respostas (enviadas r) ≤ n + 1)

  executa-Segura :
      (req ack_buf rep : Request) (es : List (Entrada C))
      → All (λ e. Boa e.chegada) es
      → Segura (devolucoes es) (executa (inicio req ack_buf rep) es)
  executa-Segura req ack_buf rep es h =
      let v = inicio-IsServidor req ack_buf rep in
      (
        executa-Mantida (inicio req ack_buf rep) es v h,
        omega (arith, exclusao (inicio req ack_buf rep) es v h),
      )

  main-Segura' :
      (argc : ℕ) (socket_ok bind_ok : Bool) (req ack_buf rep : Request) (es : List (Entrada C))
      → All (λ e. Boa e.chegada) es
      → Segura (devolucoes es) (main argc socket_ok bind_ok req ack_buf rep es)
  unfolding main
  main-Segura' argc socket_ok bind_ok req ack_buf rep es h = elim (Bool-cases (argc == 2)) [
    | inl a ↦ rw a (elim (Bool-cases socket_ok) [
      | inl b ↦ rw b (elim (Bool-cases bind_ok) [
        | inl c ↦ rw c (executa-Segura req ack_buf rep es h)
        | inr c ↦ rw c (terminou _ _, omega arith)
      ])
      | inr b ↦ rw b (terminou _ _, omega arith)
    ])
    | inr a ↦ rw a (terminou _ _, omega arith)
  ]

  Regulares-Boas :
      (es : List (Entrada C)) → All (λ e. Regular e.chegada) es → All (λ e. Boa e.chegada) es
  Regulares-Boas [] h = tt
  Regulares-Boas (e ∷ es) h = (Regular-Boa e.chegada h.0, Regulares-Boas es h.1)

  -- Whatever its arguments, the outcomes of `socket`, `bind` and `sendto`, and the contents of its
  -- buffers, `main` has no undefined behaviour and keeps the invariant on any arrivals of whole
  -- messages with a clock below INT_MAX and a PID whose low byte is not 255: it dereferences no NULL,
  -- and no sum of a clock overflows in any round. And the replies that it sends exceed the releases
  -- that it receives by one at most.
  pub main-Segura :
      (argc : ℕ) (socket_ok bind_ok : Bool) (req ack_buf rep : Request) (es : List (Entrada C))
      → All (λ e. Regular e.chegada) es
      → Segura (devolucoes es) (main argc socket_ok bind_ok req ack_buf rep es)
        × SomasDe (inicio req ack_buf rep) es
  main-Segura argc socket_ok bind_ok req ack_buf rep es h = (
    main-Segura' argc socket_ok bind_ok req ack_buf rep es (Regulares-Boas es h),
    executa-SomasDe (inicio req ack_buf rep) es (inicio-IsServidor req ack_buf rep) h,
  )
